-- ===== src/Base/Decimal.antt =====
-- Decimal text, as `std::to_string` and `operator<<` write an unsigned number, and its value.
use Prim.Native.Nat.{ℕ, zero, suc, ◌+◌, ◌-◌, ◌*◌, ◌/◌, ◌%◌, ◌<◌}
use mathlib.Core.Path.{◌≡◌, refl, sym, ap, ◌∙◌}
use mathlib.Core.Logic.{inl, inr}
use mathlib.Core.Bool.{Bool, true, false, not, ◌&&◌}
use mathlib.Core.List.{List, [], ◌∷◌, ◌++◌}
use native.Mathlib.Omega.{arith}
use rsock.Base.Tests.{ltb, leb, ◌==◌, Bool-cases}

abbrev pub is_digit : ℕ → Bool
is_digit c = leb 48 c && leb c 57

abbrev pub all_digits : List ℕ → Bool
all_digits [] = true
all_digits (c ∷ s) = is_digit c && all_digits s

-- The last digit first; the fuel bounds the number of digits.
emit : ℕ → ℕ → List ℕ
emit zero n = []
emit (suc fuel) n = elim (ltb n 10) [
  | true ↦ (48 + n) ∷ []
  | false ↦ emit fuel (n / 10) ++ ((48 + n % 10) ∷ [])
]

-- Fewer digits than `n + 1` are written.
unfoldable pub to_string : ℕ → List ℕ
unfolding emit
to_string n = emit (suc n) n

unfoldable pub of_digits : List ℕ → ℕ → ℕ
of_digits [] n = n
of_digits (c ∷ s) n = of_digits s (n * 10 + (c - 48))

of_digits-append : (s t : List ℕ) (n : ℕ) → of_digits (s ++ t) n ≡ of_digits t (of_digits s n)
unfolding of_digits
of_digits-append [] t n = refl
of_digits-append (c ∷ s) t n = of_digits-append s t (n * 10 + (c - 48))

of_digits-emit : (fuel n : ℕ) → n < fuel → of_digits (emit fuel n) 0 ≡ n
unfolding emit of_digits
of_digits-emit zero n h = absurd (omega arith)
of_digits-emit (suc fuel) n h = elim (Bool-cases (ltb n 10)) [
  | inl e ↦ ground (arith, e)
  | inr e ↦
      let smaller : n / 10 < fuel = ground (arith, e, h) in
      ground (
        arith,
        e,
        of_digits-append (emit fuel (n / 10)) ((48 + n % 10) ∷ []) 0,
        of_digits-emit fuel (n / 10) smaller,
      )
]

all_digits-append :
    (s t : List ℕ) → all_digits s ≡ true → all_digits t ≡ true → all_digits (s ++ t) ≡ true
all_digits-append [] t p q = q
all_digits-append (c ∷ s) t p q = ground (arith, p, all_digits-append s t)

all_digits-emit : (fuel n : ℕ) → all_digits (emit fuel n) ≡ true
unfolding emit
all_digits-emit zero n = refl
all_digits-emit (suc fuel) n = elim (Bool-cases (ltb n 10)) [
  | inl e ↦ ground (arith, e)
  | inr e ↦ ground (
    arith,
    e,
    all_digits-append (emit fuel (n / 10)) ((48 + n % 10) ∷ []) (all_digits-emit fuel (n / 10)),
  )
]

-- The text reads back as the number.
pub of_digits-to_string : (n : ℕ) → of_digits (to_string n) 0 ≡ n
unfolding to_string
of_digits-to_string n = of_digits-emit (suc n) n (omega arith)

pub all_digits-to_string : (n : ℕ) → all_digits (to_string n) ≡ true
unfolding to_string
all_digits-to_string n = all_digits-emit (suc n) n

abbrev pub starts_digit : List ℕ → Bool
starts_digit [] = false
starts_digit (c ∷ s) = is_digit c

pub starts_digit-append : (s t : List ℕ) → starts_digit s ≡ true → starts_digit (s ++ t) ≡ true
starts_digit-append [] t h = absurd (ground (arith, h))
starts_digit-append (c ∷ s) t h = h

starts_digit-emit : (fuel n : ℕ) → starts_digit (emit (suc fuel) n) ≡ true
unfolding emit
starts_digit-emit zero n = ground arith
starts_digit-emit (suc fuel) n = elim (Bool-cases (ltb n 10)) [
  | inl e ↦ ground (arith, e)
  | inr e ↦ ground (
    arith,
    e,
    starts_digit-append (emit (suc fuel) (n / 10)) ((48 + n % 10) ∷ [])
        (starts_digit-emit fuel (n / 10)),
  )
]

-- A number is not written as the empty text.
pub starts_digit-to_string : (n : ℕ) → starts_digit (to_string n) ≡ true
unfolding to_string
starts_digit-to_string n = starts_digit-emit n n

pub to_string_inj : (m n : ℕ) → to_string m ≡ to_string n → m ≡ n
to_string_inj m n h =
    sym (of_digits-to_string m) ∙ ap (λ s. of_digits s 0) h ∙ of_digits-to_string n

-- The character is not in the text.
abbrev pub lacks : ℕ → List ℕ → Bool
lacks x [] = true
lacks x (c ∷ s) = not (c == x) && lacks x s

pub lacks-append :
    (x : ℕ) (s t : List ℕ) → lacks x s ≡ true → lacks x t ≡ true → lacks x (s ++ t) ≡ true
lacks-append x [] t p q = q
lacks-append x (c ∷ s) t p q = ground (arith, p, q, lacks-append x s t)

lacks-digits : (x : ℕ) (s : List ℕ) → is_digit x ≡ false → all_digits s ≡ true → lacks x s ≡ true
lacks-digits x [] h a = refl
lacks-digits x (c ∷ s) h a = ground (arith, h, a, lacks-digits x s h)

pub lacks-to_string : (x n : ℕ) → is_digit x ≡ false → lacks x (to_string n) ≡ true
lacks-to_string x n h = lacks-digits x (to_string n) h (all_digits-to_string n)
