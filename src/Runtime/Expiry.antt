-- ===== src/Runtime/Expiry.antt =====
-- Lists of things that expire, the earliest first.
use rsock.Base.{ℕ, ◌+◌, ◌≤◌, ◌<◌, ◌≡◌, refl, List, [], ◌∷◌, ◌++◌, arith, ltb, if◌then◌else◌}

-- INTERVAL of util/Handler.h.
abbrev pub interval : ℕ
interval = 10

module _ {A : Type 0} (expire : A → ℕ) where
  -- Before the first that expires later.
  unfoldable pub insert_sorted : A → List A → List A
  insert_sorted x [] = x ∷ []
  insert_sorted x (y ∷ ys) =
      if ltb (expire x) (expire y) then x ∷ y ∷ ys else y ∷ insert_sorted x ys

  -- Those that are due at `now`, and the others, each in their order.
  pub split_due : ℕ → List A → List A × List A
  split_due now [] = ([], [])
  split_due now (x ∷ xs) =
      let (due, rest) = split_due now xs in
      if ltb (expire x) (now + interval) then (x ∷ due, rest) else (due, x ∷ rest)

  -- Nothing expires before `b`.
  abbrev pub NoneBefore : ℕ → List A → Type 0
  NoneBefore b [] = Unit {0}
  NoneBefore b (x ∷ xs) = (b ≤ expire x) × NoneBefore b xs

  abbrev pub IsSorted : List A → Type 0
  IsSorted [] = Unit {0}
  IsSorted (x ∷ xs) = NoneBefore (expire x) xs × IsSorted xs

  pub NoneBefore-le : (a b : ℕ) (xs : List A) → a ≤ b → NoneBefore b xs → NoneBefore a xs
  NoneBefore-le a b [] h n = tt
  NoneBefore-le a b (x ∷ xs) h n = (omega arith, NoneBefore-le a b xs h n.1)

  pub NoneBefore-insert_sorted :
      (b : ℕ) (x : A) (xs : List A)
      → b ≤ expire x
      → NoneBefore b xs
      → NoneBefore b (insert_sorted x xs)
  unfolding insert_sorted
  NoneBefore-insert_sorted b x [] h n = (h, tt)
  NoneBefore-insert_sorted b x (y ∷ ys) h n = ground (arith, NoneBefore-insert_sorted b x ys h n.1)

  pub IsSorted-insert_sorted : (x : A) (xs : List A) → IsSorted xs → IsSorted (insert_sorted x xs)
  unfolding insert_sorted
  IsSorted-insert_sorted x [] s = (tt, tt)
  IsSorted-insert_sorted x (y ∷ ys) s = ground (
    arith,
    IsSorted-insert_sorted x ys s.1,
    NoneBefore-insert_sorted (expire y) x ys,
    NoneBefore-le (expire x) (expire y) ys,
  )

  -- What is left after the due ones are taken is sorted, and still not before any bound.
  pub NoneBefore-split_due :
      (b now : ℕ) (xs : List A) → NoneBefore b xs → NoneBefore b (split_due now xs).1
  unfolding split_due
  NoneBefore-split_due b now [] n = tt
  NoneBefore-split_due b now (x ∷ xs) n = ground (arith, NoneBefore-split_due b now xs n.1)

  pub IsSorted-split_due : (now : ℕ) (xs : List A) → IsSorted xs → IsSorted (split_due now xs).1
  unfolding split_due
  IsSorted-split_due now [] s = tt
  IsSorted-split_due now (x ∷ xs) s =
      ground (arith, IsSorted-split_due now xs s.1, NoneBefore-split_due (expire x) now xs s.0)

  -- Nothing is due before the earliest expires.
  pub split_due_early :
      (b now : ℕ) (xs : List A) → NoneBefore b xs → now + interval ≤ b → split_due now xs ≡ ([], xs)
  unfolding split_due
  split_due_early b now [] n h = refl
  split_due_early b now (x ∷ xs) n h = ground (arith, split_due_early b now xs n.1 h)

  -- Everything is due at `now`.
  abbrev pub AllDue : ℕ → List A → Type 0
  AllDue now [] = Unit {0}
  AllDue now (x ∷ xs) = (expire x < now + interval) × AllDue now xs

  pub AllDue-split_due : (now : ℕ) (xs : List A) → AllDue now (split_due now xs).0
  unfolding split_due
  AllDue-split_due now [] = tt
  AllDue-split_due now (x ∷ xs) = ground (arith, AllDue-split_due now xs)

  pub rest-split_due : (now : ℕ) (xs : List A) → NoneBefore (now + interval) (split_due now xs).1
  unfolding split_due
  rest-split_due now [] = tt
  rest-split_due now (x ∷ xs) = ground (arith, rest-split_due now xs)

  -- In a sorted list the due ones come first.
  pub append-split_due :
      (now : ℕ) (xs : List A) → IsSorted xs → xs ≡ (split_due now xs).0 ++ (split_due now xs).1
  unfolding split_due
  append-split_due now [] s = refl
  append-split_due now (x ∷ xs) s =
      ground (arith, append-split_due now xs s.1, split_due_early (expire x) now xs s.0)

  pub IsSorted-head : (x : A) (xs : List A) → IsSorted (x ∷ xs) → NoneBefore (expire x) (x ∷ xs)
  IsSorted-head x xs s = (omega arith, s.0)
