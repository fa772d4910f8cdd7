-- ===== src/Packet/Udp.antt =====
-- conn/BtmUdpConn.cpp with `CreateBtmUdpConn` of net/NetUtil.cpp, and how src/ISockApp.cpp,
-- client/CSockApp.cpp and server/SSockApp.cpp make the UDP connections below conn/RConn.cpp. An outer
-- `none` is a failed assertion; the maps have a key where the code has its text.
pub mod Laws
use rsock.Base.{
  ℕ, Bool, true, false, not, ◌&&◌, ◌||◌, Option, none, some, ◌>>=◌, List, [], ◌∷◌, ◌==◌,
  if◌then◌else◌, map, find, insert_new,
}
use rsock.Wire.ConnInfo.{ConnInfo}
use rsock.Wire.KeyGenerator.{Info, udp, key_for_udp}

-- What libuv makes of a socket: it cannot be bound, or it has this name, an address and a port, where
-- that can be read, and whether `uv_udp_recv_start` returns 0.
pub data Sock : Type 0 where
  not_bound : Sock
  bound : Option (ℕ × ℕ) → Bool → Sock

pub record BtmUdpConn : Type 0 where
  pub key : ℕ
  pub info : ConnInfo
  pub src_info : ConnInfo

abbrev pub no_info : ConnInfo
no_info = record { src = 0; dst = 0; sp = 0; dp = 0 }

-- `GetUdpSelfInfo`, whose result is ignored.
abbrev pub self_info : Option (ℕ × ℕ) → ConnInfo → ConnInfo
self_info none c = c
self_info (some (src, sp)) c = record c { src = src; sp = sp }

-- An inner `none` is the null pointer.
pub create_btm_udp_conn : Sock → ConnInfo → Option (Option BtmUdpConn)
create_btm_udp_conn not_bound info = some none
create_btm_udp_conn (bound name starts) info = do
  key ← key_for_udp (self_info name info)
  some (some (record { key = key; info = self_info name info; src_info = no_info }))

-- The connection afterwards, and whether 0 is returned.
unfoldable pub init : Option (ℕ × ℕ) → Bool → BtmUdpConn → Option (BtmUdpConn × Bool)
init none starts c = some (c, false)
init (some (src, sp)) starts c = if sp == 0 then some (c, false) else (do
  key ← key_for_udp c.info
  (if c.info.src == src && c.info.sp == sp && key == c.key
      then some
          (record c { src_info = record (c.src_info) { dst = c.info.src; dp = c.info.sp } }, starts)
      else none))

-- A connection of `bindUdpConns`; one whose `Init` fails is closed and deleted.
pub bind_one : Sock → ConnInfo → Option (Option BtmUdpConn)
unfolding create_btm_udp_conn init
bind_one not_bound info = create_btm_udp_conn not_bound info
bind_one (bound name starts) info = do
  made ← create_btm_udp_conn (bound name starts) info
  elim made [
    | none ↦ some none
    | some c ↦ (do (c', ok) ← init name starts c; some (if ok then some c' else none))
  ]

abbrev pub with_conn : Option BtmUdpConn → List BtmUdpConn → List BtmUdpConn
with_conn none l = l
with_conn (some c) l = c ∷ l

module _ (sock : ConnInfo → Sock) (src dst : ℕ) where
  -- The loop, which ends with the shorter one of the lists.
  pub bind_all : List ℕ → List ℕ → Option (List BtmUdpConn)
  unfolding bind_one
  bind_all [] svr_ports = some []
  bind_all (p ∷ ports) [] = some []
  bind_all (p ∷ ports) (q ∷ svr_ports) =
      let info : ConnInfo = record { src = src; dst = dst; sp = p; dp = q } in
      do c ← bind_one (sock info) info; l ← bind_all ports svr_ports; some (with_conn c l)

  -- `ISockApp::bindUdpConns`
  pub bind_udp_conns : List ℕ → List ℕ → Option (List BtmUdpConn)
  unfolding bind_all
  bind_udp_conns [] svr_ports = none
  bind_udp_conns (p ∷ ports) [] = none
  bind_udp_conns (p ∷ ports) (q ∷ svr_ports) = bind_all (p ∷ ports) (q ∷ svr_ports)

-- `std::vector<uint16_t>(ports.size(), 0)`
abbrev pub zeros : List ℕ → List ℕ
zeros [] = []
zeros (p ∷ ports) = 0 ∷ zeros ports

abbrev pub same_udp : ℕ → ℕ → Bool
same_udp j k = j == k

-- `RConn::AddUdpConn` for each.
pub add_udp_conns : List BtmUdpConn → List (ℕ × BtmUdpConn) → List (ℕ × BtmUdpConn)
add_udp_conns [] conns = conns
add_udp_conns (c ∷ l) conns = add_udp_conns l (insert_new same_udp c.key c conns)

abbrev pub keys_of : List (ℕ × BtmUdpConn) → List ℕ
keys_of conns = map (λ p. p.0) conns

-- The constructors of `CSockApp::CreateBtmConn` and `SSockApp::CreateBtmConn`: the connections where
-- UDP is enabled. `ports` are the ports of the configuration.
unfoldable pub client_udp_conns :
    (ConnInfo → Sock) → ℕ → ℕ → List ℕ → Option (List (ℕ × BtmUdpConn))
unfolding bind_udp_conns add_udp_conns
client_udp_conns sock self target ports = do
  l ← bind_udp_conns sock self target (zeros ports) ports
  some (add_udp_conns l [])

pub server_udp_conns : (ConnInfo → Sock) → ℕ → List ℕ → Option (List (ℕ × BtmUdpConn))
unfolding bind_udp_conns add_udp_conns
server_udp_conns sock self ports = do
  l ← bind_udp_conns sock self 0 ports (zeros ports)
  some (add_udp_conns l [])

-- What goes over the network: the name of the sender's socket, the target and the bytes.
pub record Datagram : Type 0 where
  pub src : ℕ
  pub sp : ℕ
  pub dst : ℕ
  pub dp : ℕ
  pub data_ : List ℕ

-- `BtmUdpConn::Output`, with the info of the connection that sends.
unfoldable pub output : BtmUdpConn → ConnInfo → List ℕ → Datagram
output c info base = record {
  src = c.info.src;
  sp = c.info.sp;
  dst = info.dst;
  dp = info.dp;
  data_ = base;
}

-- `fillInfo`, and what `udpRecv` hands to `Input`.
abbrev fill_info : BtmUdpConn → Datagram → BtmUdpConn
fill_info c d = record c { info = record (c.info) { dst = d.src; dp = d.sp } }

pub udp_recv : BtmUdpConn → Datagram → BtmUdpConn × (Info × List ℕ)
udp_recv c d = let c' = fill_info c d in (c', (udp c'.info, d.data_))

-- `conn->Send` of `RConn::Output` on the connection of the key.
pub send_udp : List (ℕ × BtmUdpConn) → ℕ → ConnInfo → List ℕ → Option Datagram
unfolding output
send_udp conns key info base = do (k, c) ← find same_udp key conns; some (output c info base)
