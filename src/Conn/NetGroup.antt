-- ===== src/Conn/NetGroup.antt =====
-- conn/IGroup.cpp and conn/INetGroup.cpp: a group holds its connections twice, under their string
-- keys and under their integer keys, and sends over one that it picks at random. A connection is
-- an entry of these maps; the `rand()` values are an argument, one for each round of a loop.
pub mod Keyed
pub mod Keys
pub mod AfterSend
pub mod Send
pub mod Flush
pub mod Input
pub mod Spin
pub mod Posting
use rsock.Wire.KeyGenerator.{str_for_int_key}
use rsock.Base.{
  ℕ, ◌+◌, ◌%◌, ◌≡◌, Bool, true, false, not, ◌&&◌, ◌||◌, Option, none, some, ◌>>=◌, List, [], ◌∷◌,
  ◌==◌, if◌then◌else◌, length, get_elem?, map, bytes_eq, find, contains, insert_new, erase,
}
use rsock.Runtime.Handler.{Handler, Message, remove_message, send_message_delayed}
use rsock.Conn.Stat.{DataStat, after_send}

-- What the group and the keep-alive read of an `INetConn`; `address` is the object's. `alive` is
-- what its `Alive` returns: for a `FakeUdp` this is true, whatever `NotifyErr` was called with.
pub record NetConn : Type 0 where
  pub address : ℕ
  pub int_key : ℕ
  pub is_udp : Bool
  pub alive : Bool
  pub is_new : Bool
  pub established_ms : ℕ

pub record NetGroup : Type 0 where
  pub conns : List (List ℕ × NetConn)
  pub conn_map : List (ℕ × NetConn)
  pub handler : Handler
  pub stat : DataStat

abbrev pub msg_conn_err : ℕ
msg_conn_err = 0

abbrev pub same_key : ℕ → ℕ → Bool
same_key j k = j == k

-- `ObtainMessage(MSG_CONN_ERR, conn)`
abbrev pub conn_err : NetGroup → NetConn → Message
conn_err g c = record {
  what = msg_conn_err;
  arg1 = 0;
  msg = [];
  obj = c.address;
  handler = g.handler.self;
  expire_ms = 0;
}

abbrev xnor : Bool → Bool → Bool
xnor true b = b
xnor false b = not b

pub conn_of_int_key : NetGroup → ℕ → Option (Option NetConn)
conn_of_int_key g key =
    if length g.conn_map == length g.conns
    then some (elim (find same_key key g.conn_map) [ none ↦ none | some p ↦ some p.1 ])
    else none

-- How a call of `doSend` ends: with the connection that sent, with ERR_NO_CONN, or not within the
-- rounds for which there are values of `rand()`.
pub data Sent : Type 0 where
  sent_by : NetConn → Sent
  err_no_conn : Sent
  undecided : Sent

-- `IGroup::Alive`
abbrev pub any_alive : List (List ℕ × NetConn) → Bool
any_alive [] = false
any_alive (p ∷ conns) = p.1.alive || any_alive conns

-- The first loop of `IGroup::Flush`.
pub dead_conns : List (List ℕ × NetConn) → List NetConn
dead_conns [] = []
dead_conns (p ∷ conns) = let rest = dead_conns conns in if p.1.alive then rest else p.1 ∷ rest

-- `AddConn` and the second map. In this and the following, `none` is a failed assertion.
pub add_net_conn : NetGroup → NetConn → Option NetGroup
add_net_conn g c =
    let conns = insert_new bytes_eq (str_for_int_key c.int_key) c g.conns in
    let conn_map = insert_new same_key c.int_key c g.conn_map in
    if length conn_map == length conns
    then some (record g { conns = conns; conn_map = conn_map })
    else none

pub remove_conn : NetGroup → NetConn → Option (NetGroup × Bool)
remove_conn g c =
    let ok = contains bytes_eq (str_for_int_key c.int_key) g.conns in
    let conns = erase bytes_eq (str_for_int_key c.int_key) g.conns in
    let conn_map = erase same_key c.int_key g.conn_map in
    if xnor ok (contains same_key c.int_key g.conn_map) && (length conn_map == length conns)
    then some (record g { conns = conns; conn_map = conn_map }, ok)
    else none

-- Also none where the handler throws, for want of a callback.
pub child_conn_err_cb : NetGroup → NetConn → ℕ → Option NetGroup
child_conn_err_cb g c now = do
  (g', ok) ← remove_conn g c
  (h, sent) ← send_message_delayed (remove_message g'.handler (conn_err g c)).0 (conn_err g c) 0 now
  some (record g' { handler = h })

-- `INetConn::Output` of the connection that both maps point to: it is not new from then on.
abbrev pub with_sent : ℕ → NetConn → NetConn
with_sent key c = if c.int_key == key then record c { is_new = false } else c

-- The call of `Send` and `afterSend`, where `send` is what the first returns, 0 for an error too.
pub send_by : (NetConn → ℕ) → NetGroup → NetConn → NetGroup × Sent
send_by send g c = (
  record g {
    conns = map (λ p. (p.0, with_sent c.int_key p.1)) g.conns;
    conn_map = map (λ p. (p.0, with_sent c.int_key p.1)) g.conn_map;
    stat = after_send g.stat (send c);
  },
  sent_by (record c { is_new = false }),
)

-- A round over the connection that was picked: it is dropped when it is dead, and spared when it
-- is the one to reset; else it sends.
pub send_over :
    (NetConn → ℕ)
    → (NetConn → Option (NetGroup × Sent))
    → Option (NetGroup × Sent)
    → NetGroup
    → ℕ
    → Option (List ℕ × NetConn)
    → Option (NetGroup × Sent)
send_over send removed spared g key none = some (g, err_no_conn)
send_over send removed spared g key (some p) =
    if not p.1.alive
    then removed p.1
    else if not (key == 0) && (p.1.int_key == key)
    then spared
    else some (send_by send g p.1)

pub do_send : (NetConn → ℕ) → List ℕ → NetGroup → ℕ → ℕ → Option (NetGroup × Sent)
do_send send [] g key now =
    some (g, elim (get_elem? g.conns 0) [ none ↦ err_no_conn | some p ↦ undecided ])
do_send send (r ∷ rs) g key now =
    send_over send
      (λ (c : NetConn). (do g' ← child_conn_err_cb g c now; do_send send rs g' key now))
      (do_send send rs g key now) g key (get_elem? g.conns (r % length g.conns))

-- The second loop, with `OnConnDead` of `INetGroup`.
pub remove_dead : List NetConn → NetGroup → ℕ → Option NetGroup
remove_dead [] g now = some g
remove_dead (c ∷ fails) g now = do g' ← child_conn_err_cb g c now; remove_dead fails g' now

-- `IGroup::Flush`, before it flushes the connections that are left.
pub flush_group : NetGroup → ℕ → Option NetGroup
flush_group g now = remove_dead (dead_conns g.conns) g now
