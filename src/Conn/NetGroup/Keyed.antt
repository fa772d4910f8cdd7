-- ===== src/Conn/NetGroup/Keyed.antt =====
-- A map that holds a list of connections, each under its key.
use rsock.Base.{
  ℕ, zero, suc, ◌<◌, ◌≤◌, ◌≡◌, refl, Bool, true, false, Option, none, some, List, [], ◌∷◌, arith,
  ◌==◌, if◌then◌else◌, length, get_elem?, map, find, contains, insert_new, erase,
}
use rsock.Conn.NetGroup.{NetConn}

-- The connections without those of a key, with one more unless its key is there, and the one of a
-- key.
abbrev pub without : ℕ → List NetConn → List NetConn
without j [] = []
without j (d ∷ cs) = let rest = without j cs in if j == d.int_key then rest else d ∷ rest

abbrev pub put : NetConn → List NetConn → List NetConn
put c [] = c ∷ []
put c (d ∷ cs) = let rest = put c cs in if c.int_key == d.int_key then d ∷ cs else d ∷ rest

abbrev pub of_key : ℕ → List NetConn → Option NetConn
of_key j [] = none
of_key j (d ∷ cs) = let rest = of_key j cs in if j == d.int_key then some d else rest

abbrev pub is_some {ℓ} : {A : Type ℓ} → Option A → Bool
is_some none = false
is_some (some a) = true

abbrev pub keyed : {K : Type 0} → (NetConn → K) → NetConn → K × NetConn
keyed key c = (key c, c)

module _ {K : Type 0} (same : K → K → Bool) (key : NetConn → K) where
  pub erase-keyed :
      (k : K) (j : ℕ)
      → ((d : NetConn) → same k (key d) ≡ (j == d.int_key))
      → (cs : List NetConn) → erase same k (map (keyed key) cs) ≡ map (keyed key) (without j cs)
  unfolding erase
  erase-keyed k j e [] = refl
  erase-keyed k j e (d ∷ cs) = ground (arith, e d, erase-keyed k j e cs)

  pub insert_new-keyed :
      (c : NetConn)
      → ((d : NetConn) → same (key c) (key d) ≡ (c.int_key == d.int_key))
      → (cs : List NetConn)
      → insert_new same (key c) c (map (keyed key) cs) ≡ map (keyed key) (put c cs)
  unfolding insert_new
  insert_new-keyed c e [] = refl
  insert_new-keyed c e (d ∷ cs) = ground (arith, e d, insert_new-keyed c e cs)

  pub find-keyed :
      (k : K) (j : ℕ)
      → ((d : NetConn) → same k (key d) ≡ (j == d.int_key))
      → (cs : List NetConn)
      → find same k (map (keyed key) cs)
        ≡ elim (of_key j cs) [ none ↦ none | some d ↦ some (keyed key d) ]
  unfolding find
  find-keyed k j e [] = refl
  find-keyed k j e (d ∷ cs) = ground (arith, e d, find-keyed k j e cs)

  pub contains-keyed :
      (k : K) (j : ℕ)
      → ((d : NetConn) → same k (key d) ≡ (j == d.int_key))
      → (cs : List NetConn) → contains same k (map (keyed key) cs) ≡ is_some (of_key j cs)
  unfolding contains
  contains-keyed k j e cs = ground (arith, find-keyed k j e cs)

pub length-without : (j : ℕ) (cs : List NetConn) → length (without j cs) ≤ length cs
length-without j [] = omega arith
length-without j (d ∷ cs) = ground (arith, length-without j cs)

-- Removing a connection that is there leaves fewer.
pub length-without_lt :
    (i : ℕ) (c : NetConn) (cs : List NetConn)
    → get_elem? cs i ≡ some c
    → length (without c.int_key cs) < length cs
length-without_lt i c [] h = ground (arith, h)
length-without_lt zero c (d ∷ cs) h = ground (arith, h, length-without c.int_key cs)
length-without_lt (suc i) c (d ∷ cs) h = ground (arith, h, length-without_lt i c cs h)

pub without-of_key : (j : ℕ) (cs : List NetConn) → of_key j (without j cs) ≡ none
without-of_key j [] = refl
without-of_key j (d ∷ cs) = ground (arith, without-of_key j cs)
