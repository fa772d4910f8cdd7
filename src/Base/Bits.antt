-- ===== src/Base/Bits.antt =====
-- `|` on the native numbers, digit by digit: setting one bit of a number.
use Prim.Native.Nat.{
  ℕ, zero, suc, ◌+◌, ◌*◌, ◌/◌, ◌%◌, ◌^◌, ◌≤◌, ◌<◌, max, digits, bit_or, bit_or-bitwise,
}
use mathlib.Core.Path.{◌≡◌, refl, ap, ap₂}
use native.Mathlib.Nat.{le_refl, pow-suc}
use native.Mathlib.Omega.{arith}

abbrev or_digits : ℕ → ℕ → ℕ → ℕ
or_digits = digits (λ y. y) max

-- More fuel than digits changes nothing.
or_digits_enough : (k l x y : ℕ) → x ≤ k → x ≤ l → or_digits k x y ≡ or_digits l x y
or_digits_enough zero zero x y hk hl = refl
or_digits_enough (suc k) zero zero y hk hl = refl
or_digits_enough (suc k) (suc l) zero y hk hl = refl
or_digits_enough zero (suc l) zero y hk hl = refl
or_digits_enough zero (suc l) (suc x) y hk hl = absurd (omega arith)
or_digits_enough (suc k) zero (suc x) y hk hl = absurd (omega arith)
or_digits_enough (suc k) (suc l) (suc x) y hk hl =
    rw (or_digits_enough k l (suc x / 2) (y / 2) (omega arith) (omega arith))

pub bit_or_step : (x y : ℕ) → bit_or x y ≡ bit_or (x / 2) (y / 2) * 2 + max (x % 2) (y % 2)
bit_or_step zero y = omega (arith, bit_or-bitwise 0 y, bit_or-bitwise 0 (y / 2))
bit_or_step (suc x) y = omega (
  arith,
  bit_or-bitwise (suc x) y,
  bit_or-bitwise (suc x / 2) (y / 2),
  or_digits_enough x (suc x / 2) (suc x / 2) (y / 2) (omega arith) (le_refl _),
)

pub zero-bit_or : (y : ℕ) → bit_or 0 y ≡ y
zero-bit_or y = bit_or-bitwise 0 y

mul-pow-suc : (q k : ℕ) → q * 2 ^ suc k ≡ 2 * (q * 2 ^ k)
mul-pow-suc q k = omega (arith, ap (λ (t : ℕ). q * t) (pow-suc 2 k))

-- Setting bit `k` of a number whose digits above and below it are `q` and `r`, and whose digit
-- there is `b`.
pub bit_or-pow :
    (k q b r : ℕ)
    → b < 2
    → r < 2 ^ k
    → bit_or (2 ^ k) (q * 2 ^ suc k + b * 2 ^ k + r) ≡ q * 2 ^ suc k + 2 ^ k + r
bit_or-pow zero q b r hb hr = omega (
  arith,
  bit_or_step (2 ^ 0) (q * 2 ^ 1 + b * 2 ^ 0 + r),
  zero-bit_or ((q * 2 ^ 1 + b * 2 ^ 0 + r) / 2),
)
bit_or-pow (suc k) q b r hb hr = omega (
  arith,
  bit_or_step (2 ^ suc k) (q * 2 ^ suc (suc k) + b * 2 ^ suc k + r),
  bit_or-pow k q b (r / 2) hb (omega (arith, pow-suc 2 k)),
  mul-pow-suc q (suc k),
  mul-pow-suc b k,
  pow-suc 2 k,
  ap₂ bit_or half halves,
)
  where
    half : 2 ^ suc k / 2 ≡ 2 ^ k
    half = omega (arith, pow-suc 2 k)

    halves : (q * 2 ^ suc (suc k) + b * 2 ^ suc k + r) / 2 ≡ q * 2 ^ suc k + b * 2 ^ k + r / 2
    halves = omega (arith, mul-pow-suc q (suc k), mul-pow-suc b k)

bit_or-zero : (n x : ℕ) → x ≤ n → bit_or x 0 ≡ x
bit_or-zero n zero h = zero-bit_or 0
bit_or-zero zero (suc x) h = absurd (omega arith)
bit_or-zero (suc n) (suc x) h =
    omega (arith, bit_or_step (suc x) 0, bit_or-zero n (suc x / 2) (omega arith))

-- `(q << k) | r` is a sum when `r` fits `k` bits.
pub bit_or-shift : (k q r : ℕ) → r < 2 ^ k → bit_or (q * 2 ^ k) r ≡ q * 2 ^ k + r
bit_or-shift zero q r h =
    let e : r ≡ 0 = omega arith in rw (e, bit_or-zero _ (q * 2 ^ 0) (le_refl _)) (omega arith)
bit_or-shift (suc k) q r h = omega (
  arith,
  bit_or_step (q * 2 ^ suc k) r,
  bit_or-shift k q (r / 2) (omega (arith, pow-suc 2 k)),
  mul-pow-suc q k,
  ap (λ (t : ℕ). bit_or t (r / 2)) half,
)
  where
    half : q * 2 ^ suc k / 2 ≡ q * 2 ^ k
    half = omega (arith, mul-pow-suc q k)
