-- ===== src/App/Server.antt =====
-- server/SubGroup.cpp and server/SConn.cpp: the conversations of one client. Each has a UDP socket
-- to the target. `SConn::Init` returns 0, so `newConn` gives no null pointer.
pub mod Laws
use rsock.Base.{
  ℕ, Bool, Option, none, some, List, [], ◌∷◌, ◌==◌, if◌then◌else◌, bytes_eq, find, contains,
  insert_new, erase,
}
use rsock.Wire.EncHead.{EncHead}
use rsock.App.Head.{Packet, send_conv}
use rsock.App.ConvKey.{build_conv_key}

pub record SConn : Type 0 where
  pub key : List ℕ
  pub conv : ℕ

pub record SubGroup : Type 0 where
  pub key : List ℕ
  pub conns : List (List ℕ × SConn)
  pub head : EncHead

-- What happens to the data of a peer.
pub data Received : Type 0 where
  -- The socket of this connection sends it to the target.
  to_target : SConn → List ℕ → Received
  nothing : Received

unfoldable pub conn_of_key : SubGroup → List ℕ → Option SConn
conn_of_key g key = elim (find bytes_eq key g.conns) [ none ↦ none | some p ↦ some p.1 ]

pub new_conn : SubGroup → List ℕ → ℕ → SubGroup × SConn
new_conn g key conv =
    let c : SConn = record { key = key; conv = conv } in
    (record g { conns = insert_new bytes_eq key c g.conns }, c)

pub conn_for : SubGroup → ℕ → ℕ → SubGroup × SConn
conn_for g dst conv = elim (conn_of_key g (build_conv_key dst conv)) [
  | none ↦ new_conn g (build_conv_key dst conv) conv
  | some c ↦ (g, c)
]

-- `dst` is that of the packet's addresses.
unfoldable pub on_recv : SubGroup → ℕ → EncHead → List ℕ → SubGroup × Received
on_recv g dst head [] = (g, nothing)
on_recv g dst head (b ∷ base) =
    let (g', c) = conn_for g dst head.conv in (g', to_target c (b ∷ base))

-- Data of the target for a connection: `udpRecvCb`, `Send` and `sconnSend`.
unfoldable pub sconn_send : SubGroup → SConn → List ℕ → SubGroup × Packet
sconn_send g c base =
    let (h, packet) = send_conv g.head c.conv base in (record g { head = h }, packet)

pub remove_conn : SubGroup → SConn → SubGroup × Bool
remove_conn g c =
    (record g { conns = erase bytes_eq c.key g.conns }, contains bytes_eq c.key g.conns)

-- `none` is a failed assertion; connections are compared by their number, not by pointer.
pub close_conn : SubGroup → SConn → Option SubGroup
close_conn g c = if bytes_eq c.key g.key then none else elim (conn_of_key g c.key) [
  | none ↦ none
  | some d ↦ if d.conv == c.conv then some (remove_conn g c).0 else none
]
