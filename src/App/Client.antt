-- ===== src/App/Client.antt =====
-- client/ClientGroup.cpp, conn/CConn.cpp and what they use of conn/IGroup.cpp: the client's group
-- numbers the local addresses that it hears from. Sockets are left out: a function returns what is
-- sent, and to whom.
pub mod Keys
pub mod Table
pub mod Laws
pub mod Close
pub mod Flush
pub mod Lookup
use Prim.Native.Nat.{bit_or}
use rsock.Base.{
  ℕ, ◌+◌, ◌*◌, ◌%◌, ◌^◌, Bool, true, false, not, Option, none, some, ◌>>=◌, List, [], ◌∷◌, ◌==◌,
  if◌then◌else◌, bytes_eq, find, contains, insert_new, erase, to_string,
}
use rsock.Wire.EncHead.{EncHead}
use rsock.App.Head.{Packet, send_conv, send_conv_rst}

-- A `sockaddr`: AF_INET with `s_addr` and the port in the host's order, AF_UNIX with its path, or
-- of another family.
pub data SockAddr : Type 0 where
  in4 : ℕ → ℕ → SockAddr
  un : List ℕ → SockAddr
  other : SockAddr

-- `CConn::BuildKey`
unfoldable pub build_key : SockAddr → List ℕ
build_key (in4 s_addr port) = to_string (bit_or (s_addr * 2 ^ 32) port)
build_key (un path) = path
build_key other = []

pub record CConn : Type 0 where
  pub key : List ℕ
  pub addr : SockAddr
  pub conv : ℕ

pub record ClientGroup : Type 0 where
  pub key : List ℕ
  pub conns : List (List ℕ × CConn)
  pub conv_map : List (ℕ × CConn)
  pub conv_counter : ℕ  -- uint32_t
  pub head : EncHead

abbrev pub same_conv : ℕ → ℕ → Bool
same_conv c d = c == d

pub conn_of_key : ClientGroup → List ℕ → Option CConn
conn_of_key g key = elim (find bytes_eq key g.conns) [ none ↦ none | some p ↦ some p.1 ]

pub new_conn : ClientGroup → List ℕ → SockAddr → ℕ → ClientGroup × CConn
new_conn g key addr conv =
    let c : CConn = record { key = key; addr = addr; conv = conv } in
    (
      record g {
        conns = insert_new bytes_eq key c g.conns;
        conv_map = insert_new same_conv conv c g.conv_map;
      },
      c,
    )

-- The connection of an address, which is made when there is none.
pub conn_for : ClientGroup → SockAddr → ClientGroup × CConn
conn_for g addr = elim (conn_of_key g (build_key addr)) [
  | none ↦
      let conv = (g.conv_counter + 1) % 2 ^ 32 in
      new_conn (record g { conv_counter = conv }) (build_key addr) addr conv
  | some c ↦ (g, c)
]

-- `CConn::Send`, which comes to `cconSend`.
pub ccon_send : ClientGroup → CConn → List ℕ → ClientGroup × Packet
ccon_send g c base =
    let (h, packet) = send_conv g.head c.conv base in (record g { head = h }, packet)

pub on_local_recv : ClientGroup → List ℕ → SockAddr → ClientGroup × Packet
on_local_recv g base addr = let (g', c) = conn_for g addr in ccon_send g' c base

-- What `OnRecv` does with the data of a peer.
pub data Received : Type 0 where
  -- To the local address, on the UDP socket.
  to_origin : SockAddr → List ℕ → Received
  -- `sendto` on the Unix socket, whose address argument is not the address but its pointer.
  to_pointer : List ℕ → Received
  -- To the peer.
  to_peer : Packet → Received

pub send2origin : List ℕ → SockAddr → Received
send2origin base (in4 s_addr port) = to_origin (in4 s_addr port) base
send2origin base (un path) = to_pointer base
send2origin base other = to_origin other base

-- `none` is the failed assertion that there is data.
pub on_recv : ClientGroup → EncHead → List ℕ → Option (ClientGroup × Received)
unfolding send2origin
on_recv g head [] = none
on_recv g head (b ∷ base) = elim (find same_conv head.conv g.conv_map) [
  | none ↦
      let (h, packet) = send_conv_rst g.head head.conv in
      some (record g { head = h }, to_peer packet)
  | some p ↦ some (g, send2origin (b ∷ base) p.1.addr)
]

-- The group, and whether the connection was there.
pub remove_conn : ClientGroup → CConn → ClientGroup × Bool
remove_conn g c = (
  record g { conns = erase bytes_eq c.key g.conns; conv_map = erase same_conv c.conv g.conv_map },
  contains bytes_eq c.key g.conns,
)

-- `none` is a failed assertion. `conn == ConnOfKey(conn->Key())` compares pointers, here numbers.
pub close_conn : ClientGroup → CConn → Option ClientGroup
close_conn g c = if bytes_eq c.key g.key then none else elim (conn_of_key g c.key) [
  | none ↦ none
  | some d ↦ if d.conv == c.conv then some (remove_conn g c).0 else none
]
