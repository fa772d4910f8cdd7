-- ===== src/Base/Assoc.antt =====
-- Maps as association lists under a test for equal keys. A pair keeps the key that it was stored
-- under, which an equal key need not be.

use mathlib.Core.Path.{◌≡◌, refl}
use mathlib.Core.Bool.{Bool, true, false}
use mathlib.Core.Option.{Option, none, some}
use mathlib.Core.List.{List, [], ◌∷◌}
use native.Mathlib.Omega.{arith}
use rsock.Base.Tests.{if◌then◌else◌}

module _ {K V : Type 0} (same : K → K → Bool) where
  -- `std::map::find`
  unfoldable pub find : K → List (K × V) → Option (K × V)
  find k [] = none
  find k (p ∷ m) = let rest = find k m in if same k p.0 then some p else rest

  unfoldable pub contains : K → List (K × V) → Bool
  contains k m = elim (find k m) [ none ↦ false | some p ↦ true ]

  -- `std::map::insert` and `emplace`: a key that is there keeps its value.
  unfoldable pub insert_new : K → V → List (K × V) → List (K × V)
  insert_new k v [] = (k, v) ∷ []
  insert_new k v (p ∷ m) = let rest = insert_new k v m in if same k p.0 then p ∷ m else p ∷ rest

  -- An assignment to `m[k]`: the new value, under the key that is there.
  unfoldable pub assign : K → V → List (K × V) → List (K × V)
  assign k v [] = (k, v) ∷ []
  assign k v (p ∷ m) = let rest = assign k v m in if same k p.0 then (p.0, v) ∷ m else p ∷ rest

  -- `std::map::erase` of a key.
  unfoldable pub erase : K → List (K × V) → List (K × V)
  erase k [] = []
  erase k (p ∷ m) = let rest = erase k m in if same k p.0 then rest else p ∷ rest

  pub find-erase : (k : K) (m : List (K × V)) → find k (erase k m) ≡ none
  unfolding find erase
  find-erase k [] = refl
  find-erase k (p ∷ m) = ground (arith, find-erase k m)

  -- Keys that equal a key that is looked up are found alike.
  pub find-erase_other :
      (j k : K) (m : List (K × V))
      → ((x : K) → same k x ≡ true → same j x ≡ false)
      → find j (erase k m) ≡ find j m
  unfolding find erase
  find-erase_other j k [] h = refl
  find-erase_other j k (p ∷ m) h = ground (arith, find-erase_other j k m h, h p.0)

  -- An assignment is seen under the key that was there, or else under the new one.
  pub find-assign :
      (k : K) (v : V) (m : List (K × V))
      → same k k ≡ true
      → find k (assign k v m) ≡ elim (find k m) [ none ↦ some (k, v) | some p ↦ some (p.0, v) ]
  unfolding find assign
  find-assign k v [] h = ground arith
  find-assign k v (p ∷ m) h = ground (arith, find-assign k v m h)

  pub find-insert_new :
      (k : K) (v : V) (m : List (K × V))
      → same k k ≡ true
      → find k (insert_new k v m) ≡ elim (find k m) [ none ↦ some (k, v) | some p ↦ some p ]
  unfolding find insert_new
  find-insert_new k v [] h = ground arith
  find-insert_new k v (p ∷ m) h = ground (arith, find-insert_new k v m h)

  pub insert_new-found :
      (k : K) (v : V) (p : K × V) (m : List (K × V)) → find k m ≡ some p → insert_new k v m ≡ m
  unfolding find insert_new
  insert_new-found k v p [] h = ground (arith, h)
  insert_new-found k v p (q ∷ m) h = ground (arith, h, insert_new-found k v p m)

  -- What is looked up under a key that equals no key that equals the one that is set stays.
  pub find-assign_other :
      (j k : K) (v : V) (m : List (K × V))
      → ((x : K) → same k x ≡ true → same j x ≡ false)
      → same j k ≡ false
      → find j (assign k v m) ≡ find j m
  unfolding find assign
  find-assign_other j k v [] h f = ground (arith, f)
  find-assign_other j k v (p ∷ m) h f = ground (arith, find-assign_other j k v m h f, h p.0)

  pub find-insert_new_other :
      (j k : K) (v : V) (m : List (K × V)) → same j k ≡ false → find j (insert_new k v m) ≡ find j m
  unfolding find insert_new
  find-insert_new_other j k v [] f = ground (arith, f)
  find-insert_new_other j k v (p ∷ m) f = ground (arith, find-insert_new_other j k v m f)
