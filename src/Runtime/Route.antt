-- ===== src/Runtime/Route.antt =====
-- src/service/RouteService.cpp: the watch on the network. What `GetWanInfo` returns is an argument;
-- the device and the address that ConfManager holds are fields, and the observers are told what is
-- returned. A string is a list of characters.
pub mod Laws
use rsock.Base.{
  ℕ, ◌+◌, ◌*◌, Bool, true, false, not, ◌&&◌, ◌||◌, Option, none, some, ◌>>=◌, List, [], ◌∷◌, ltb,
  ◌==◌, if◌then◌else◌, bytes_eq,
}
use rsock.Runtime.Handler.{Handler, Message, has_messages, send_message_delayed}

pub record RouteService : Type 0 where
  pub handler : Handler
  pub check_interval_sec : ℕ
  pub blocked : Bool
  pub dev : List ℕ
  pub ip : List ℕ

pub data Notice : Type 0 where
  quiet : Notice
  notify_offline : Notice
  notify_online : List ℕ → List ℕ → Notice

abbrev pub msg_check : ℕ
msg_check = 0

pub double_interval_sec : ℕ → ℕ
double_interval_sec sec = if ltb 16 (sec * 2) then 1 else sec * 2

-- `ObtainMessage(MSG_CHECK)`
abbrev pub check_message : RouteService → Message
check_message r = record {
  what = msg_check;
  arg1 = 0;
  msg = [];
  obj = 0;
  handler = r.handler.self;
  expire_ms = 0;
}

-- `none` where the handler throws, for want of a callback.
pub check_network_status_delayed : RouteService → ℕ → Option RouteService
check_network_status_delayed r now =
    if r.blocked then some r else if has_messages r.handler msg_check then some r else (do
      (h, sent) ← send_message_delayed r.handler (check_message r) (r.check_interval_sec * 1000) now
      some
          (record r { handler = h; check_interval_sec = double_interval_sec r.check_interval_sec }))

abbrev pub is_empty : List ℕ → Bool
is_empty [] = true
is_empty (x ∷ xs) = false

pub same_network : List ℕ → List ℕ → List ℕ → List ℕ → Bool
same_network dev1 ip1 dev2 ip2 = bytes_eq dev1 dev2 && bytes_eq ip1 ip2

-- `nret`, `dev` and `ip` are what `GetWanInfo` gives.
pub check_network_status_now : RouteService → ℕ → List ℕ → List ℕ → RouteService × Notice
check_network_status_now r nret dev ip =
    if r.blocked
    then (r, quiet)
    else if not (nret == 0) || is_empty dev || is_empty ip
    then (record r { dev = []; ip = [] }, notify_offline)
    else if not (same_network r.dev r.ip dev ip)
    then (record r { dev = dev; ip = ip }, notify_online dev ip)
    else (r, quiet)
