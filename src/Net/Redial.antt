-- ===== src/Net/Redial.antt =====
-- What a client does about a connection that failed: conn/INetGroup.cpp closes it when the message
-- of its failure arrives, and client/CConnErrHandler.cpp dials it again. Every dial of
-- client/ClientNetManager.cpp has `TcpDialAsyncCb` for its callback. The connections that are still
-- allocated are kept by their addresses; a use of one that is not fails, as an assertion does.
pub mod Laws
use rsock.Base.{
  ℕ, Bool, true, false, not, ◌&&◌, ◌||◌, Option, none, some, ◌>>=◌, List, [], ◌∷◌, ◌==◌,
  if◌then◌else◌, find, erase,
}
use rsock.Runtime.Handler.{Message}
use rsock.Wire.ConnInfo.{ConnInfo}
use rsock.Net.Dial.{DialHelper, dial_tcp_async, flush_pending, on_tcp_connect}
use rsock.Conn.NetGroup.{NetConn, NetGroup, msg_conn_err, same_key, add_net_conn}

-- What `GetInfo` of a connection gives: a `TcpInfo`, or a `ConnInfo` for UDP.
pub record EndInfo : Type 0 where
  pub is_udp : Bool
  pub info : ConnInfo

-- `mErrHandler` and `IsClosing` of its application.
pub record ErrHandler : Type 0 where
  pub closing : Bool

pub record Client : Type 0 where
  pub err_handler : Option ErrHandler
  pub objects : List (ℕ × EndInfo)
  pub pending : List DialHelper
  pub group : NetGroup

pub on_net_conn_err : ErrHandler → EndInfo → ℕ → List DialHelper → List DialHelper
on_net_conn_err e i now pending =
    if not e.closing
    then if not i.is_udp then dial_tcp_async pending (record (i.info) { sp = 0 }) now else pending
    else pending

pub net_conn_err : Client → EndInfo → ℕ → Client
net_conn_err s i now = elim s.err_handler [
  | none ↦ s
  | some e ↦ record s { pending = on_net_conn_err e i now s.pending }
]

pub handle_message : Client → Message → ℕ → Option Client
unfolding net_conn_err
handle_message s m now =
    if m.what == msg_conn_err
    then (do
      (address, i) ← find same_key m.obj s.objects
      some (net_conn_err (record s { objects = erase same_key m.obj s.objects }) i now))
    else some s

-- `OnFlush` of the net manager: the callbacks of the dials that are given up get no connection, and
-- do nothing.
abbrev pub flush_dials : (ConnInfo → ℕ) → Bool → ℕ → Client → Client
flush_dials connect_tcp network_alive now s = record s {
  pending = (flush_pending connect_tcp network_alive now s.pending).0;
}

-- Whether a dial waits for the request.
abbrev pub has_request : ℕ → List DialHelper → Bool
has_request req [] = false
has_request req (h ∷ pending) = (h.req == req) || has_request req pending

module _ (init : NetConn → ℕ) where
  -- A connection whose `Init` fails is closed and deleted.
  pub tcp_dial_async_cb : Option NetConn → NetGroup → Option NetGroup
  tcp_dial_async_cb none g = some g
  tcp_dial_async_cb (some c) g = if init c == 0 then add_net_conn g c else some g

  -- `onTcpConnect` with its callback; `created` is the connection that it got with an address.
  pub tcp_connected : ℕ → ℕ → Option NetConn → ℕ → Client → Option Client
  unfolding tcp_dial_async_cb
  tcp_connected req status none now s =
      some (record s { pending = on_tcp_connect req status false now s.pending })
  tcp_connected req status (some c) now s = do
    g ←
        if has_request req s.pending && (status == 0)
        then tcp_dial_async_cb (some c) s.group
        else some s.group
    some (record s { pending = on_tcp_connect req status true now s.pending; group = g })
