-- ===== src/App/Client/Table.antt =====
-- The two maps of the client's group hold the same connections, one for each local address and one
-- for each number.
use rsock.Base.{
  ℕ, ◌<◌, ◌≤◌, ◌≡◌, refl, sym, ap, subst, ◌∙◌, inl, inr, Bool-cases, false, Option, none, some,
  List, [], ◌∷◌, ◌++◌, arith, if_intro, bytes_eq, bytes_eq_iff, bytes_eq_sym, find,
}
use rsock.Wire.EncHead.{type_data}
use rsock.App.Index.{
  index, lookup, without, find-index, lookup-append, without_absent, lookup-cons,
  lookup-without_other,
}
use rsock.App.Client.{build_key, CConn, ClientGroup, same_conv, conn_of_key}
use rsock.App.Client.Keys.{IsClear}

abbrev pub key_of : CConn → List ℕ
key_of c = c.key

abbrev pub conv_of : CConn → ℕ
conv_of c = c.conv

abbrev pub by_key : List ℕ → List CConn → Option CConn
by_key k cs = lookup bytes_eq key_of k cs

abbrev pub by_conv : ℕ → List CConn → Option CConn
by_conv v cs = lookup same_conv conv_of v cs

-- Each has the key of its address, no other has it or the number, and the numbers are at most `n`.
abbrev pub AreListed : ℕ → List CConn → Type 0
AreListed n [] = Unit {0}
AreListed n (c ∷ cs) =
    IsClear c.addr
    × (c.key ≡ build_key c.addr)
    × (by_key c.key cs ≡ none)
    × (by_conv c.conv cs ≡ none)
    × (c.conv ≤ n)
    × AreListed n cs

-- The group has the connections `cs`.
pub record Holds (cs : List CConn) (g : ClientGroup) : Type 0 where
  pub conns_eq : g.conns ≡ index key_of cs
  pub conv_map_eq : g.conv_map ≡ index conv_of cs
  pub listed : AreListed g.conv_counter cs
  pub is_data : g.head.cmd ≡ type_data

-- A number above all of them is free.
pub by_conv_fresh : (n v : ℕ) (cs : List CConn) → AreListed n cs → n < v → by_conv v cs ≡ none
by_conv_fresh n v [] l h = refl
by_conv_fresh n v (c ∷ cs) (_, _, _, _, b, l) h = ground (arith, b, h, by_conv_fresh n v cs l h)

-- What is found under a key is what is found under its number.
pub by_conv-by_key :
    (n : ℕ) (k : List ℕ) (cs : List CConn) (c : CConn)
    → AreListed n cs
    → by_key k cs ≡ some c
    → by_conv c.conv cs ≡ some c
by_conv-by_key n k [] c l h = ground (arith, h)
by_conv-by_key n k (d ∷ cs) c (_, _, _, f, _, l) h = ground (arith, f, h, by_conv-by_key n k cs c l)

pub IsClear-by_key :
    (n : ℕ) (k : List ℕ) (cs : List CConn) (c : CConn)
    → AreListed n cs
    → by_key k cs ≡ some c
    → IsClear c.addr × (c.key ≡ build_key c.addr)
IsClear-by_key n k [] c l h = ground (arith, h)
IsClear-by_key n k (d ∷ cs) c (a, e, _, _, _, l) h = elim (lookup-cons bytes_eq key_of k d cs c h) [
  | inl p ↦ subst (λ x. IsClear x.addr × (x.key ≡ build_key x.addr)) p (a, e)
  | inr q ↦ IsClear-by_key n k cs c l q
]

-- Another at the end, with a number above those before.
pub AreListed-append :
    (n : ℕ) (c : CConn) (cs : List CConn)
    → AreListed n cs
    → by_key c.key cs ≡ none
    → n < c.conv
    → IsClear c.addr
    → c.key ≡ build_key c.addr
    → AreListed c.conv (cs ++ (c ∷ []))
AreListed-append n c [] l f h a e = (a, e, refl, refl, omega arith, tt)
AreListed-append n c (d ∷ cs) (b, e', k, v, m, l) f h a e =
    let other : bytes_eq c.key d.key ≡ false = ground (arith, f) in
    let free : by_key c.key cs ≡ none = ground (arith, f) in
    (
      b,
      e',
      ground (arith, k, other, bytes_eq_sym c.key d.key, lookup-append bytes_eq key_of d.key cs c),
      ground (arith, v, m, h, lookup-append same_conv conv_of d.conv cs c),
      omega arith,
      AreListed-append n c cs l free h a e,
    )

-- Without the connection of a key, both maps are still of one list.
pub by_conv-without :
    (n : ℕ) (k : List ℕ) (cs : List CConn) (c : CConn)
    → AreListed n cs
    → by_key k cs ≡ some c
    → without same_conv conv_of c.conv cs ≡ without bytes_eq key_of k cs
by_conv-without n k [] c l h = ground (arith, h)
by_conv-without n k (d ∷ cs) c (a, e, u, v, m, l) h = elim (Bool-cases (bytes_eq k d.key)) [
  | inl t ↦
      let p : d ≡ c = ground (arith, t, h) in
      let q : k ≡ d.key = (bytes_eq_iff k d.key).0 t in
      let absent : by_key k cs ≡ none = subst (λ x. by_key x cs ≡ none) (sym q) u in
      subst (λ x. without same_conv conv_of x.conv (d ∷ cs) ≡ without bytes_eq key_of k (d ∷ cs)) p
        (ground (
          arith,
          t,
          without_absent same_conv conv_of d.conv cs v,
          without_absent bytes_eq key_of k cs absent,
        ))
  | inr f ↦ ground (arith, f, h, v, by_conv-by_key n k cs c l, by_conv-without n k cs c l)
]

pub AreListed-without :
    (n : ℕ) (k : List ℕ) (cs : List CConn)
    → AreListed n cs
    → AreListed n (without bytes_eq key_of k cs)
AreListed-without n k [] l = tt
AreListed-without n k (d ∷ cs) (a, e, u, v, m, l) =
    if_intro (AreListed n) (bytes_eq k d.key) _ _ (AreListed-without n k cs l) (
      a,
      e,
      lookup-without_other bytes_eq key_of bytes_eq key_of d.key k cs u,
      lookup-without_other same_conv conv_of bytes_eq key_of d.conv k cs v,
      m,
      AreListed-without n k cs l,
    )

-- The searches in the maps of the group.
pub conn_of_key_lem :
    (cs : List CConn) (g : ClientGroup) (k : List ℕ) → Holds cs g → conn_of_key g k ≡ by_key k cs
unfolding conn_of_key
conn_of_key_lem cs g k h =
    ap (λ m. elim (find bytes_eq k m) [ none ↦ none | some p ↦ some p.1 ]) h.conns_eq
    ∙ found (find-index bytes_eq key_of k cs)
  where
    found :
        find bytes_eq k (index key_of cs)
          ≡ elim (by_key k cs) [ none ↦ none | some c ↦ some (c.key, c) ]
        → elim (find bytes_eq k (index key_of cs)) [ none ↦ none | some p ↦ some p.1 ] ≡ by_key k cs
    found e = ground (arith, e)

pub find-conv_map :
    (cs : List CConn) (g : ClientGroup) (v : ℕ)
    → Holds cs g
    → find same_conv v g.conv_map ≡ elim (by_conv v cs) [ none ↦ none | some c ↦ some (c.conv, c) ]
find-conv_map cs g v h =
    ap (λ m. find same_conv v m) h.conv_map_eq ∙ find-index same_conv conv_of v cs
