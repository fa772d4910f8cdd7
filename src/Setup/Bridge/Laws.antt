-- ===== src/Setup/Bridge/Laws.antt =====
-- The group that the client starts with.
use Prim.Native.Nat.{bit_and}
use rsock.Base.{not, ℕ, ◌≡◌, ◌≢◌, ◌⊎◌, Bool, true, false, Option, none, some, List, [], ◌∷◌, ◌==◌}
use rsock.Wire.TcpInfo.{TcpInfo}
use rsock.Wire.KeyGenerator.{key_for_udp}
use rsock.Conn.NetGroup.{NetConn, NetGroup}
use rsock.Conn.NetGroup.Keys.{Holds}
use rsock.Conf.RConfig.{om_pipe_udp}
use rsock.Packet.Udp.{BtmUdpConn}
use rsock.Setup.Bridge.{Dial}

abbrev pub all_alive : List NetConn → Bool
all_alive [] = true
all_alive (c ∷ cs) = elim c.alive [ true ↦ all_alive cs | false ↦ false ]

-- The ports of the UDP connections are set.
abbrev pub AllKeyed : List (BtmUdpConn × (ℕ × ℕ)) → Type 0
AllKeyed [] = Unit {0}
AllKeyed (p ∷ l) = ((key : ℕ) × (key_for_udp p.0.info ≡ some key)) × AllKeyed l

-- A dial gives no socket, or one whose ports are set.
abbrev pub AllEnds : (ℕ → TcpInfo × Bool) → List Dial → Type 0
AllEnds get_tcp_info [] = Unit {0}
AllEnds get_tcp_info (d ∷ dials) =
    ((d.tcp ≡ 0)
      ⊎ ((d.tcp ≢ 0) × ((get_tcp_info d.tcp).0.conn.sp ≢ 0) × ((get_tcp_info d.tcp).0.conn.dp ≢ 0)))
    × AllEnds get_tcp_info dials

abbrev pub is_cons : List NetConn → Bool
is_cons [] = false
is_cons (c ∷ cs) = true

-- The group holds connections that are alive, and one at least where `some_made`.
abbrev Alive : Bool → List NetConn → NetGroup → Type 0
Alive some_made cs g = Holds cs g × (all_alive cs ≡ true) × (some_made ≡ true → is_cons cs ≡ true)

module _ (get_tcp_info : ℕ → TcpInfo × Bool) where
  -- What `CreateBridgeConn` gives: a group of at least one connection, all of them alive, in two maps
  -- that agree; or the null pointer, and then no UDP connection was made.
  abbrev pub Bridge : Bool → Option NetGroup → Type 0
  Bridge some_made none = some_made ≡ false
  Bridge some_made (some g) =
      (cs : List NetConn) × Holds cs g × (all_alive cs ≡ true) × (is_cons cs ≡ true)

  -- Whether UDP is enabled and there is a UDP connection.
  abbrev pub some_udp : ℕ → List (BtmUdpConn × (ℕ × ℕ)) → Bool
  some_udp type [] = false
  some_udp type (p ∷ l) = not (bit_and type om_pipe_udp == 0)
