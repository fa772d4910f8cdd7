-- ===== src/App/Index.antt =====
-- Objects that a map holds under a key of their own: the map is the index of the list of them.
use rsock.Base.{
  ◌≡◌, ◌⊎◌, inl, inr, refl, Bool, Bool-cases, true, Option, none, some, List, [], ◌∷◌, ◌++◌, arith,
  if◌then◌else◌, find, insert_new, erase,
}

abbrev pub index : {K C : Type 0} → (C → K) → List C → List (K × C)
index key [] = []
index key (c ∷ cs) = (key c, c) ∷ index key cs

module _ {K C : Type 0} (same : K → K → Bool) (key : C → K) where
  abbrev pub lookup : K → List C → Option C
  lookup k [] = none
  lookup k (c ∷ cs) = let rest = lookup k cs in if same k (key c) then some c else rest

  abbrev pub without : K → List C → List C
  without k [] = []
  without k (c ∷ cs) = let rest = without k cs in if same k (key c) then rest else c ∷ rest

  pub find-index :
      (k : K) (cs : List C)
      → find same k (index key cs) ≡ elim (lookup k cs) [ none ↦ none | some c ↦ some (key c, c) ]
  unfolding find
  find-index k [] = refl
  find-index k (c ∷ cs) = ground (arith, find-index k cs)

  -- A new key goes to the end.
  pub insert_new-index :
      (c : C) (cs : List C)
      → lookup (key c) cs ≡ none
      → insert_new same (key c) c (index key cs) ≡ index key (cs ++ (c ∷ []))
  unfolding insert_new
  insert_new-index c [] h = refl
  insert_new-index c (d ∷ cs) h = ground (arith, h, insert_new-index c cs)

  pub erase-index : (k : K) (cs : List C) → erase same k (index key cs) ≡ index key (without k cs)
  unfolding erase
  erase-index k [] = refl
  erase-index k (c ∷ cs) = ground (arith, erase-index k cs)

  pub lookup-append :
      (k : K) (cs : List C) (c : C)
      → lookup k (cs ++ (c ∷ []))
        ≡ elim (lookup k cs) [ none ↦ if same k (key c) then some c else none | some d ↦ some d ]
  lookup-append k [] c = refl
  lookup-append k (d ∷ cs) c = ground (arith, lookup-append k cs c)

  pub lookup-without : (k : K) (cs : List C) → lookup k (without k cs) ≡ none
  lookup-without k [] = refl
  lookup-without k (c ∷ cs) = ground (arith, lookup-without k cs)

  pub without_absent : (k : K) (cs : List C) → lookup k cs ≡ none → without k cs ≡ cs
  without_absent k [] h = refl
  without_absent k (c ∷ cs) h = ground (arith, h, without_absent k cs)

  -- It is the first, or among the others.
  pub lookup-cons :
      (k : K) (d : C) (cs : List C) (c : C)
      → lookup k (d ∷ cs) ≡ some c
      → (d ≡ c) ⊎ (lookup k cs ≡ some c)
  lookup-cons k d cs c h = elim (Bool-cases (same k (key d))) [
    | inl t ↦ inl (ground (arith, t, h))
    | inr f ↦ inr (ground (arith, f, h))
  ]

  -- What is found has the key.
  pub lookup-key : (k : K) (cs : List C) (c : C) → lookup k cs ≡ some c → same k (key c) ≡ true
  lookup-key k [] c h = ground (arith, h)
  lookup-key k (d ∷ cs) c h = ground (arith, h, lookup-key k cs c)

-- Removing objects under one key leaves none where there was none under another.
pub lookup-without_other :
    {J K C : Type 0} (same : J → J → Bool) (key : C → J) (same' : K → K → Bool) (key' : C → K)
    (j : J) (k : K) (cs : List C)
    → lookup same key j cs ≡ none
    → lookup same key j (without same' key' k cs) ≡ none
lookup-without_other same key same' key' j k [] h = refl
lookup-without_other same key same' key' j k (c ∷ cs) h =
    ground (arith, h, lookup-without_other same key same' key' j k cs)
