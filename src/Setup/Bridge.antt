-- ===== src/Setup/Bridge.antt =====
-- client/CSockApp.cpp: `CreateBridgeConn`, which fills the group of network connections from the UDP
-- connections and by dials. What the operating system makes of a dial is an argument; `none` outside
-- is a failed assertion.
pub mod Laws
use Prim.Native.Nat.{bit_and}
use rsock.Base.{ℕ, Bool, true, false, Option, none, some, ◌>>=◌, List, [], ◌∷◌, ◌==◌, if◌then◌else◌}
use rsock.Wire.TcpInfo.{TcpInfo}
use rsock.Wire.KeyGenerator.{key_for_udp}
use rsock.Net.AckPool.{InfoPool}
use rsock.Net.Create.{Dialer, NewTcp, dial_tcp_sync}
use rsock.Conn.NetGroup.{NetConn, NetGroup, add_net_conn}
use rsock.Conf.RConfig.{om_pipe_tcp, om_pipe_udp}
use rsock.Packet.Udp.{BtmUdpConn}

-- The dial of a port: what `CreateTcp` gives, what the wait for the handshake finds, what `Init` of the
-- connection returns, and where and when the connection is made.
pub record Dial : Type 0 where
  pub tcp : ℕ
  pub wakes : List InfoPool
  pub starts : ℕ
  pub address : ℕ
  pub now : ℕ

-- An `INetConn` as its constructor makes it.
abbrev pub new_net_conn : Bool → ℕ → ℕ → ℕ → NetConn
new_net_conn is_udp address now key = record {
  address = address;
  int_key = key;
  is_udp = is_udp;
  alive = true;
  is_new = true;
  established_ms = now;
}

-- `addUdpNetConn`: the constructor of `FakeUdp` and `Init`, which returns 0. Each comes with its
-- address and time.
pub add_udp_net_conns : List (BtmUdpConn × (ℕ × ℕ)) → NetGroup → Option NetGroup
add_udp_net_conns [] g = some g
add_udp_net_conns ((c, (address, now)) ∷ l) g = do
  key ← key_for_udp c.info
  g' ← add_net_conn g (new_net_conn true address now key)
  add_udp_net_conns l g'

module _ (get_tcp_info : ℕ → TcpInfo × Bool) where
  -- A connection whose `Init` fails is closed, and its socket with it.
  abbrev pub add_new : Dial → NetGroup → Dialer × Option NewTcp → Option (Dialer × NetGroup)
  add_new d g (s, none) = some (s, g)
  add_new d g (s, some c) =
      if d.starts == 0
      then (do g' ← add_net_conn g (new_net_conn false d.address d.now c.key); some (s, g'))
      else some (record s { closed = c.tcp ∷ s.closed }, g)

  pub add_tcp_net_conns : List Dial → Dialer × NetGroup → Option (Dialer × NetGroup)
  add_tcp_net_conns [] (s, g) = some (s, g)
  add_tcp_net_conns (d ∷ dials) (s, g) = do
    made ← dial_tcp_sync get_tcp_info s d.wakes d.tcp
    both ← add_new d g made
    add_tcp_net_conns dials both

  abbrev pub is_null : NetGroup → Bool
  is_null g = elim g.conns [ [] ↦ true | p ∷ conns ↦ false ]

  -- `g` is the new group; an inner `none` is the null pointer.
  pub create_bridge_conn :
      ℕ
      → List (BtmUdpConn × (ℕ × ℕ))
      → List Dial
      → Dialer
      → NetGroup
      → Option (Dialer × Option NetGroup)
  unfolding add_udp_net_conns add_tcp_net_conns
  create_bridge_conn type udps dials s g = do
    g' ← if bit_and type om_pipe_udp == 0 then some g else add_udp_net_conns udps g
    (s', g'') ←
        if bit_and type om_pipe_tcp == 0 then some (s, g') else add_tcp_net_conns dials (s, g')
    some (s', if is_null g'' then none else some g'')
