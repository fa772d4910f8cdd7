-- ===== src/Wire/Enc/Laws.antt =====
-- Round trips of util/enc.c, and what it does on a host of the other byte order.
use mathlib.Core.List.{reverse-reverse}
use rsock.Base.{
  ℕ, zero, suc, ◌+◌, ◌^◌, ◌%◌, ◌≤◌, ◌<◌, ◌≡◌, refl, sym, subst, inl, inr, Option-cases, Option,
  none, some, List, [], ◌∷◌, ◌++◌, arith, length, drop, le_bytes, length-le_bytes,
  of_le_bytes-le_bytes,
}
use rsock.Wire.Enc.{
  little, big, load, overwrite, split, encode_uint64, encode_uint32, encode_uint16, decode_uint,
  decode_uint64, decode_uint32, decode_uint16,
}

-- Reading back what was written over a buffer.
pub split-overwrite :
    (bs p : List ℕ)
    → length bs ≤ length p
    → split (length bs) (overwrite bs p) ≡ some (bs, drop (length bs) p)
split-overwrite [] p h = refl
split-overwrite (b ∷ bs) [] h = absurd (omega arith)
split-overwrite (b ∷ bs) (x ∷ p) h = rw (split-overwrite bs p (omega arith))

-- Reading a word off the front of what follows it.
pub split-append : (bs p : List ℕ) → split (length bs) (bs ++ p) ≡ some (bs, p)
split-append [] p = refl
split-append (b ∷ bs) p = rw (split-append bs p)

decode_uint-overwrite :
    (n i : ℕ) (p : List ℕ)
    → i < 256 ^ n
    → n ≤ length p
    → decode_uint n little (overwrite (le_bytes n i) p) ≡ some (i, drop n p)
unfolding decode_uint load
decode_uint-overwrite n i p h k = rw (e, decode_uint) (rw (of_le_bytes-le_bytes n i h))
  where
    len : length (le_bytes n i) ≡ n
    len = length-le_bytes n i

    e : split n (overwrite (le_bytes n i) p) ≡ some (le_bytes n i, drop n p)
    e =
        subst (λ m. split m (overwrite (le_bytes n i) p) ≡ some (le_bytes n i, drop m p)) len
          (split-overwrite (le_bytes n i) p (subst (λ m. m ≤ length p) (sym len) k))

decode_uint-append :
    (n i : ℕ) (p : List ℕ) → i < 256 ^ n → decode_uint n little (le_bytes n i ++ p) ≡ some (i, p)
unfolding decode_uint load
decode_uint-append n i p h = rw (e, decode_uint) (rw (of_le_bytes-le_bytes n i h))
  where
    e : split n (le_bytes n i ++ p) ≡ some (le_bytes n i, p)
    e =
        subst (λ m. split m (le_bytes n i ++ p) ≡ some (le_bytes n i, p)) (length-le_bytes n i)
          (split-append (le_bytes n i) p)

-- The words that are written one behind the other are read so.
pub decode_uint64-append :
    (i : ℕ) (p : List ℕ) → i < 2 ^ 64 → decode_uint64 little (le_bytes 8 i ++ p) ≡ some (i, p)
unfolding decode_uint64
decode_uint64-append i p h = decode_uint-append 8 i p h

pub decode_uint32-append :
    (i : ℕ) (p : List ℕ) → i < 2 ^ 32 → decode_uint32 little (le_bytes 4 i ++ p) ≡ some (i, p)
unfolding decode_uint32
decode_uint32-append i p h = decode_uint-append 4 i p h

pub decode_uint16-append :
    (i : ℕ) (p : List ℕ) → i < 2 ^ 16 → decode_uint16 little (le_bytes 2 i ++ p) ≡ some (i, p)
unfolding decode_uint16
decode_uint16-append i p h = decode_uint-append 2 i p h

infixl 5 ◌then_read◌
abbrev pub ◌then_read◌ {ℓ} : {A : Type ℓ} → Option (List ℕ) → (List ℕ → Option A) → Option A
none then_read f = none
some p then_read f = f p

-- On a little-endian host, each word of 16, 32 and 64 bits that fits is read back as it was
-- written into a buffer with room for it, and the pointer is left past it.
pub decode-encode :
    (i j k : ℕ) (p : List ℕ)
    → i < 2 ^ 64
    → j < 2 ^ 32
    → k < 2 ^ 16
    → 8 ≤ length p
    → ((encode_uint64 little i p then_read decode_uint64 little) ≡ some (i, drop 8 p))
      × ((encode_uint32 little j p then_read decode_uint32 little) ≡ some (j, drop 4 p))
      × ((encode_uint16 little k p then_read decode_uint16 little) ≡ some (k, drop 2 p))
unfolding encode_uint64 encode_uint32 encode_uint16 decode_uint64 decode_uint32 decode_uint16
decode-encode i j k p hi hj hk h = (
  decode_uint-overwrite 8 i p hi h,
  decode_uint-overwrite 4 j p hj (omega arith),
  decode_uint-overwrite 2 k p hk (omega arith),
)

decode_uint_host : (n : ℕ) (p : List ℕ) → decode_uint n big p ≡ decode_uint n little p
unfolding decode_uint load
decode_uint_host n p = elim (Option-cases (split n p)) [
  | inl e ↦ rw (e, decode_uint)
  | inr (w, e) ↦ rw (e, decode_uint) (rw (reverse-reverse w.0))
]

-- Decoding gives the same value and the same place on hosts of either byte order.
pub decode_host :
    (p : List ℕ)
    → (decode_uint64 big p ≡ decode_uint64 little p)
      × (decode_uint32 big p ≡ decode_uint32 little p)
      × (decode_uint16 big p ≡ decode_uint16 little p)
unfolding decode_uint64 decode_uint32 decode_uint16
decode_host p = (decode_uint_host 8 p, decode_uint_host 4 p, decode_uint_host 2 p)

-- On a big-endian host `encode_uint32` and `encode_uint16` fail an assertion, and `encode_uint64`
-- writes the low byte of the word and no other.
pub encode_big :
    (i b : ℕ) (p : List ℕ)
    → (encode_uint32 big i (b ∷ p) ≡ none)
      × (encode_uint16 big i (b ∷ p) ≡ none)
      × (encode_uint64 big i (b ∷ p) ≡ some ((i % 256) ∷ p))
unfolding encode_uint64 encode_uint32 encode_uint16 le_bytes
encode_big i b p = (refl, refl, refl)

split_total :
    (n : ℕ) (p : List ℕ)
    → n ≤ length p
    → (a : List ℕ) × (b : List ℕ) × (split n p ≡ some (a, b)) × (length b + n ≡ length p)
split_total zero p h = ([], p, refl, omega arith)
split_total (suc n) [] h = absurd (omega arith)
split_total (suc n) (x ∷ p) h =
    let (a, b, e, l) = split_total n p (omega arith) in (x ∷ a, b, rw e, omega arith)

pub split_short : (n : ℕ) (p : List ℕ) → length p < n → split n p ≡ none
split_short zero p h = absurd (omega arith)
split_short (suc n) [] h = refl
split_short (suc n) (x ∷ p) h = rw (split_short n p (omega arith))

-- A word is read where there are bytes enough, and its place moves past it.
pub decode_uint_total :
    (n : ℕ) (p : List ℕ)
    → n ≤ length p
    → (i : ℕ) × (b : List ℕ) × (decode_uint n little p ≡ some (i, b)) × (length b + n ≡ length p)
unfolding decode_uint
decode_uint_total n p h =
    let (a, b, e, l) = split_total n p h in (load little a, b, rw (e, decode_uint), l)

pub decode_uint_short : (n : ℕ) (p : List ℕ) → length p < n → decode_uint n little p ≡ none
unfolding decode_uint
decode_uint_short n p h = rw (split_short n p h, decode_uint)
