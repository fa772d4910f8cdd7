-- ===== src/Base/Bytes.antt =====
-- Byte strings as lists of numbers below 256, and the little-endian form of a word.
use Prim.Native.Nat.{ℕ, zero, suc, ◌+◌, ◌*◌, ◌/◌, ◌%◌, ◌^◌, ◌<◌}
use mathlib.Core.Path.{◌≡◌, refl, ap}
use mathlib.Core.List.{List, [], ◌∷◌}
use native.Mathlib.Omega.{arith}
use native.Mathlib.Nat.{pow-suc}
use mathlib.Core.Bool.{Bool, true, false, ◌&&◌}
use mathlib.Core.Logic.{◌↔◌}
use rsock.Base.Lists.{length}
use rsock.Base.Tests.{◌==◌}

-- The low `n` bytes of `i`, least significant first.
unfoldable pub le_bytes : ℕ → ℕ → List ℕ
le_bytes zero i = []
le_bytes (suc n) i = (i % 256) ∷ le_bytes n (i / 256)

-- The number that bytes stand for, least significant first.
unfoldable pub of_le_bytes : List ℕ → ℕ
of_le_bytes [] = 0
of_le_bytes (b ∷ bs) = b + 256 * of_le_bytes bs

pub length-le_bytes : (n i : ℕ) → length (le_bytes n i) ≡ n
unfolding le_bytes
length-le_bytes zero i = refl
length-le_bytes (suc n) i = ap suc (length-le_bytes n (i / 256))

pub of_le_bytes-le_bytes : (n i : ℕ) → i < 256 ^ n → of_le_bytes (le_bytes n i) ≡ i
unfolding le_bytes of_le_bytes
of_le_bytes-le_bytes zero i h = omega arith
of_le_bytes-le_bytes (suc n) i h =
    omega (arith, of_le_bytes-le_bytes n (i / 256) (omega (arith, pow-suc 256 n)))

-- Every element is a byte.
abbrev pub AreBytes : List ℕ → Type 0
AreBytes [] = Unit {0}
AreBytes (b ∷ bs) = (b < 256) × AreBytes bs

pub le_bytes-AreBytes : (n i : ℕ) → AreBytes (le_bytes n i)
unfolding le_bytes
le_bytes-AreBytes zero i = tt
le_bytes-AreBytes (suc n) i = (omega arith, le_bytes-AreBytes n (i / 256))

-- `std::equal` over two ranges of one length.
unfoldable pub bytes_eq : List ℕ → List ℕ → Bool
bytes_eq [] [] = true
bytes_eq [] (y ∷ ys) = false
bytes_eq (x ∷ xs) [] = false
bytes_eq (x ∷ xs) (y ∷ ys) = x == y && bytes_eq xs ys

pub bytes_eq_iff : (xs ys : List ℕ) → (bytes_eq xs ys ≡ true) ↔ (xs ≡ ys)
unfolding bytes_eq
bytes_eq_iff [] [] = ((λ h. refl), λ h. refl)
bytes_eq_iff [] (y ∷ ys) = ((λ h. cc), λ h. cc)
bytes_eq_iff (x ∷ xs) [] = ((λ h. cc), λ h. cc)
bytes_eq_iff (x ∷ xs) (y ∷ ys) =
    ((λ h. ground (arith, (bytes_eq_iff xs ys).0)), λ h. ground (arith, (bytes_eq_iff xs ys).1))

pub bytes_eq_refl : (xs : List ℕ) → bytes_eq xs xs ≡ true
bytes_eq_refl xs = (bytes_eq_iff xs xs).1 refl

pub bytes_eq_sym : (xs ys : List ℕ) → bytes_eq xs ys ≡ bytes_eq ys xs
unfolding bytes_eq
bytes_eq_sym [] [] = refl
bytes_eq_sym [] (y ∷ ys) = refl
bytes_eq_sym (x ∷ xs) [] = refl
bytes_eq_sym (x ∷ xs) (y ∷ ys) = ground (arith, bytes_eq_sym xs ys)
