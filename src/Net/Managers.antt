-- ===== src/Net/Managers.antt =====
-- `Init` and `Close` of the net managers (net/INetManager.cpp, server/ServerNetManager.cpp,
-- client/ClientNetManager.cpp), but for the pointer to the pool of handshakes. What the timer, the route service and libuv return is an argument.
pub mod Laws
use rsock.Base.{ℕ, Bool, true, false, Option, none, some, List, [], ◌∷◌, ◌++◌, ◌==◌, if◌then◌else◌}
use rsock.Wire.TcpInfo.{TcpInfo}
use rsock.Net.ConnPool.{ConnHelper, ServerNetManager}
use rsock.Net.Dial.{DialHelper}
use rsock.Setup.ListenPool.{Listened, ListenPool}
use rsock.Setup.ListenPool

-- `timer` is whether `mTimer` is not null.
pub record Server : Type 0 where
  pub timer : Bool
  pub manager : ServerNetManager
  pub listen : ListenPool

-- With what is returned. `timer_init` is what `Init` of the timer returns.
abbrev init_server : ℕ → (ℕ → Listened) → List ℕ → Server → Server × ℕ
init_server timer_init listen ports s =
    let (pool, ret) = ListenPool.init listen ports (record (s.listen) { has_cb = true }) in
    if timer_init == 0
    then (record s { timer = true; listen = pool }, ret)
    else (record s { timer = true }, timer_init)

-- The loop of `Close`: the entries stay, without their connections.
pub close_all : List (TcpInfo × ConnHelper) → List (TcpInfo × ConnHelper) × List ℕ
close_all [] = ([], [])
close_all (p ∷ pool) =
    let (left, closed) = close_all pool in
    if p.1.conn == 0
    then (p ∷ left, closed)
    else ((p.0, record (p.1) { conn = 0 }) ∷ left, p.1.conn ∷ closed)

pub close_server : Server → Server
unfolding close_all
close_server s =
    let (left, closed) = close_all s.manager.pool in
    record {
      timer = false;
      manager = record (s.manager) { pool = left; closed = closed ++ s.manager.closed };
      listen = ListenPool.close s.listen;
    }

-- `observing` is whether it is registered with the route service; `cancelled` are the requests that
-- went to `uv_cancel`.
pub record Client : Type 0 where
  pub timer : Bool
  pub observing : Bool
  pub pending : List DialHelper
  pub cancelled : List ℕ

-- `registers` is what `RegisterObserver` returns.
abbrev init_client : (timer_init registers : ℕ) → Client → Client × ℕ
init_client timer_init registers s =
    if timer_init == 0
    then (
      record s { timer = true; observing = if registers == 0 then true else s.observing },
      registers,
    )
    else (record s { timer = true }, timer_init)

pub requests : List DialHelper → List ℕ
requests [] = []
requests (h ∷ pending) = let rest = requests pending in if h.req == 0 then rest else h.req ∷ rest

-- The connection of a dial is never set.
abbrev close_client : Client → Client
unfolding requests
close_client s = record {
  timer = false;
  observing = false;
  pending = [];
  cancelled = s.cancelled ++ requests s.pending;
}
