-- ===== src/Conn/NetGroup/Input.antt =====
-- `INetGroup::Input` and the virtual `CreateNetConn` that it calls: the connection that takes a
-- packet. `M` is the state of what makes connections; `none` is a failed assertion.
use rsock.Base.{ℕ, ◌≡◌, Option, none, some, ◌>>=◌, List, [], ◌∷◌, ◌++◌, arith}
use rsock.Wire.KeyGenerator.{Info}
use rsock.Conn.NetGroup.{NetConn, NetGroup, conn_of_int_key, add_net_conn}
use rsock.Conn.NetGroup.Keyed.{of_key}
use rsock.Conn.NetGroup.Keys.{Holds, conn_of_int_key_lem}

-- A connection of the group, or the default one; then ERR_NO_CONN is returned.
pub data Took : Type 0 where
  by_conn : NetConn → Took
  by_default : Took

module _ {M : Type 0} (create : M → ℕ → Info → Option (M × Option NetConn)) where
  add_created : NetGroup → M × Option NetConn → Option (M × NetGroup × Took)
  add_created g (m, none) = some (m, g, by_default)
  add_created g (m, some c) = do g' ← add_net_conn g c; some (m, g', by_conn c)

  -- For a packet with data whose head has this key.
  pub net_input : M → NetGroup → ℕ → Info → Option (M × NetGroup × Took)
  unfolding add_created
  net_input m g key info = do
    found ← conn_of_int_key g key
    elim found [
      | some c ↦ some (m, g, by_conn c)
      | none ↦ (do made ← create m key info; add_created g made)
    ]

-- A connection that was made has the key that was asked for.
abbrev pub HasKey : ℕ → Option NetConn → Type 0
HasKey key none = Unit {0}
HasKey key (some c) = c.int_key ≡ key

-- What is to take a packet: the connection that was there, else the one that was made, else the
-- default one. Then what makes connections was called unless there was one, and the group has one
-- more where one was made.
abbrev pub taker : Option NetConn → Option NetConn → Took
taker (some c) made = by_conn c
taker none (some c) = by_conn c
taker none none = by_default

abbrev pub manager_after : {M : Type 0} → Option NetConn → M → M → M
manager_after (some c) m m' = m
manager_after none m m' = m'

abbrev pub conns_after : Option NetConn → Option NetConn → List NetConn → List NetConn
conns_after (some d) made cs = cs
conns_after none (some c) cs = cs ++ (c ∷ [])
conns_after none none cs = cs

module _ {M : Type 0} (create : M → ℕ → Info → Option (M × Option NetConn)) where
  pub net_input_absent :
      (cs : List NetConn) (m m' : M) (g : NetGroup) (key : ℕ) (info : Info)
      → Holds cs g
      → create m key info ≡ some (m', none)
      → of_key key cs ≡ none
      → net_input create m g key info ≡ some (m', g, by_default)
  unfolding net_input add_created
  net_input_absent cs m m' g key info h e f = ground (arith, conn_of_int_key_lem cs g key h, e, f)
