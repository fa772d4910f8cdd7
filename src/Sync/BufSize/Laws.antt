-- ===== src/Sync/BufSize/Laws.antt =====
-- The largest size of the sequence that can be set is set.
use rsock.Base.{
  ℕ, zero, suc, ◌*◌, ◌/◌, ◌<◌, ◌≤◌, ◌≡◌, inl, inr, refl, Bool, Bool-cases, true, false, Option,
  none, some, ltb, arith,
}
use rsock.Sync.BufSize.{try_sizes, try_set_good_buf_size}

-- The size is halved `k` times.
abbrev pub halved : ℕ → ℕ → ℕ
halved zero size = size
halved (suc k) size = halved k (size / 2)

-- How the loop ends: with a size, larger than before and the first that can be set, or with none where
-- no larger one can be set.
abbrev pub Chosen : (ℕ → Bool) → ℕ → ℕ → Option ℕ → Type 0
Chosen set orig size (some s) =
    (k : ℕ) × (s ≡ halved k size)
    × (orig < s)
    × (set s ≡ true)
    × ((j : ℕ) → j < k → set (halved j size) ≡ false)
Chosen set orig size none = (j : ℕ) → orig < halved j size → set (halved j size) ≡ false

halved-le : (k size : ℕ) → halved k size ≤ size
halved-le zero size = omega arith
halved-le (suc k) size = omega (arith, halved-le k (size / 2))

-- What holds of every halving from the first on, and of `size`, holds of the halvings of `size`.
from_first :
    (P : ℕ → Type 0) (size : ℕ)
    → P size
    → ((j : ℕ) → P (halved j (size / 2)))
    → (j : ℕ) → P (halved j size)
from_first P size first rest zero = first
from_first P size first rest (suc j) = rest j

-- The same of the halvings before the `k`th.
before_first :
    (set : ℕ → Bool) (size k : ℕ)
    → set size ≡ false
    → ((j : ℕ) → j < k → set (halved j (size / 2)) ≡ false)
    → (j : ℕ) → j < suc k
    → set (halved j size) ≡ false
before_first set size k first rest zero lt = first
before_first set size k first rest (suc j) lt = rest j (omega arith)

refused :
    (set : ℕ → Bool) (orig size : ℕ) (o : Option ℕ)
    → set size ≡ false
    → Chosen set orig (size / 2) o
    → Chosen set orig size o
refused set orig size none f c = from_first (λ n. orig < n → set n ≡ false) size (λ lt. f) c
refused set orig size (some s) f (k, is, more, sets, firsts) =
    (suc k, is, more, sets, before_first set size k f firsts)

try_sizes_lem :
    (fuel : ℕ) (set : ℕ → Bool) (orig size : ℕ)
    → size < fuel
    → (o : Option ℕ) × (try_sizes fuel set orig size ≡ some o) × Chosen set orig size o
unfolding try_sizes
try_sizes_lem zero set orig size h = absurd (omega arith)
try_sizes_lem (suc fuel) set orig size h = elim (Bool-cases (ltb orig size)) [
  | inl e ↦ elim (Bool-cases (set size)) [
    | inl f ↦ (
      some size,
      ground (arith, e, f),
      (zero, refl, ground (arith, e), f, λ j lt. absurd (omega arith)),
    )
    | inr f ↦
        let (o, p, c) = try_sizes_lem fuel set orig (size / 2) (ground (arith, e, h)) in
        (o, ground (arith, e, f, p), refused set orig size o f c)
  ]
  | inr e ↦ (none, ground (arith, e), λ j lt. absurd (ground (arith, e, halved-le j size, lt)))
]

-- The loop ends. It sets the first size of `n_times` times the old one, its half, the half of that
-- and so on that is larger than the old one and can be set; where it sets none, none of these can
-- be set. Where the old size cannot be read it sets none.
pub try_set_good_buf_size_lem :
    (set : ℕ → Bool) (n_times orig : ℕ)
    → ((o : Option ℕ) × (try_set_good_buf_size set n_times (some orig) ≡ some o)
        × Chosen set orig (n_times * orig) o)
      × (try_set_good_buf_size set n_times none ≡ some none)
unfolding try_set_good_buf_size
try_set_good_buf_size_lem set n_times orig =
    (try_sizes_lem (suc (n_times * orig)) set orig (n_times * orig) (omega arith), refl)
