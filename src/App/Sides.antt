-- ===== src/App/Sides.antt =====
-- What the client and the server add to the base class: `OnRecv` (client/ClientGroup.cpp,
-- server/SubGroup.cpp) and `CreateNetConn` (client/CNetGroup.cpp, server/SNetGroup.cpp, with the
-- constructors of conn/FakeUdp.cpp and conn/FakeTcp.cpp). `none` is a failed assertion.
use rsock.Base.{
  false, ℕ, ◌≡◌, Bool, true, not, ◌&&◌, Option, none, some, List, arith, ◌==◌, if◌then◌else◌,
}
use rsock.Wire.ConnInfo.{ConnInfo}
use rsock.Wire.TcpInfo.{TcpInfo}
use rsock.Wire.KeyGenerator.{Info, udp, tcp, key_for_udp}
use rsock.Net.AckPool.{InfoPool}
use rsock.Net.ConnPool.{ServerNetManager, get_tcp}
use rsock.Conn.NetGroup.{NetConn}
use rsock.Conn.NetGroup.Input.{HasKey}
use rsock.App.Client.{CConn, ClientGroup}
use rsock.App.Client
use rsock.App.Server.{SConn, SubGroup}
use rsock.App.Server
use rsock.App.Reset.Client.{client, server}
use rsock.App.Input.{AppOps}

abbrev pub client_ops : AppOps ClientGroup CConn Client.Received
client_ops = record {
  conversations = client;
  head = λ g. g.head;
  set_head = λ g h. record g { head = h };
  on_recv = λ g dst head base. Client.on_recv g head base;
}

abbrev pub server_ops : AppOps SubGroup SConn Server.Received
server_ops = record {
  conversations = server;
  head = λ g. g.head;
  set_head = λ g h. record g { head = h };
  on_recv = λ g dst head base. some (Server.on_recv g dst head base);
}

-- `CNetGroup::CreateNetConn`
abbrev pub client_create : {M : Type 0} → M → ℕ → Info → Option (M × Option NetConn)
client_create m key info = some (m, none)

-- An `INetConn` of this key, made at this address and time.
abbrev new_net_conn : Bool → ℕ → ℕ → ℕ → NetConn
new_net_conn is_udp address now key = record {
  address = address;
  int_key = key;
  is_udp = is_udp;
  alive = true;
  is_new = true;
  established_ms = now;
}

-- The constructor of `FakeUdp` asserts the key.
fake_udp : ℕ → ℕ → ℕ → ConnInfo → Option NetConn
fake_udp address now key c = elim (key_for_udp c) [
  | none ↦ none
  | some k ↦ if k == key then some (new_net_conn true address now key) else none
]

abbrev same_ends : ConnInfo → ConnInfo → Bool
same_ends c d = c.src == d.src && c.dst == d.dst && c.sp == d.sp && c.dp == d.dp

-- `GetTcpInfo` and `uv_read_start` are arguments: the info that the first fills, and what the
-- second returns.
module _ (get_tcp_info : ℕ → TcpInfo) (uv_read_start : ℕ → ℕ) where
  -- The constructor of `FakeTcp`, which asserts the ends, and `Init`, which may fail.
  fake_tcp : ℕ → ℕ → ℕ → ℕ → TcpInfo → Option (Option NetConn)
  fake_tcp address now key t i =
      if not (t == 0) && same_ends (get_tcp_info t).conn i.conn
      then some (if uv_read_start t == 0 then some (new_net_conn false address now key) else none)
      else none

  with_manager :
      ServerNetManager → Option (Option NetConn) → Option (ServerNetManager × Option NetConn)
  with_manager m none = none
  with_manager m (some c) = some (m, c)

  -- `SNetGroup::CreateNetConn`; `wakes` is what the wait for the handshake finds.
  pub server_create :
      ℕ
      → ℕ
      → List InfoPool
      → ServerNetManager
      → ℕ
      → Info
      → Option (ServerNetManager × Option NetConn)
  unfolding fake_udp with_manager fake_tcp
  server_create address now wakes m key (udp c) = elim (fake_udp address now key c) [
    | none ↦ none
    | some conn ↦ some (m, some conn)
  ]
  server_create address now wakes m key (tcp i) =
      let (m', got) = get_tcp m i wakes in
      elim got [
        | none ↦ some (m', none)
        | some (t, info) ↦ with_manager m' (fake_tcp address now key t info)
      ]

  -- A connection that the server makes has the key that it was asked for.
  pub HasKey-server_create :
      (address now : ℕ) (wakes : List InfoPool) (m m' : ServerNetManager) (key : ℕ) (info : Info)
      (made : Option NetConn)
      → server_create address now wakes m key info ≡ some (m', made)
      → HasKey key made
  unfolding server_create fake_udp fake_tcp with_manager
  HasKey-server_create address now wakes m m' key info none h = tt
  HasKey-server_create address now wakes m m' key (udp c) (some d) h =
      ground (arith, h, key_for_udp c)
  HasKey-server_create address now wakes m m' key (tcp i) (some d) h =
      ground (arith, h, get_tcp m i wakes)
