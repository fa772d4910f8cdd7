-- ===== src/Wire/Enc.antt =====
-- util/enc.c: words to bytes and back. A pointer is the list of the bytes from it to the end of
-- its buffer; a call that moves a pointer returns the list at the new place. `none` is a failed
-- assertion, or a read past the end of the buffer.
pub mod Laws
use mathlib.Core.List.{reverse}
use rsock.Base.{
  ℕ, zero, suc, ◌/◌, ◌%◌, ◌^◌, ◌≡◌, Bool, true, ◌&&◌, Option, none, some, List, [], ◌∷◌, leb, ◌==◌,
  if◌then◌else◌, le_bytes, of_le_bytes, get_or,
}

-- The byte order of the machine that runs the code.
pub data Host : Type 0 where
  little big : Host

-- An object of `n` bytes with value `i`, as it lies in memory.
store : Host → ℕ → ℕ → List ℕ
store little n i = le_bytes n i
store big n i = reverse (le_bytes n i)

-- The value of an object whose memory holds these bytes.
unfoldable pub load : Host → List ℕ → ℕ
load little bs = of_le_bytes bs
load big bs = of_le_bytes (reverse bs)

-- The bytes over the start of `p`; what lies past the end of the buffer is lost.
abbrev pub overwrite : List ℕ → List ℕ → List ℕ
overwrite [] p = p
overwrite (b ∷ bs) [] = []
overwrite (b ∷ bs) (x ∷ p) = b ∷ overwrite bs p

-- The `n` bytes at `p`, and the rest.
abbrev pub split : ℕ → List ℕ → Option (List ℕ × List ℕ)
split zero p = some ([], p)
split (suc n) [] = none
split (suc n) (x ∷ p) = elim (split n p) [ none ↦ none | some (a, b) ↦ some (x ∷ a, b) ]

-- The union of an `int16_t` 0x100 with two chars.
is_little_endian : Host → Bool
unfolding store le_bytes
is_little_endian h = get_or (store h 2 0x100) 1 0 == 1

-- `size` is meant in bits, and is given in bytes: `size % 8` fails for 2 and 4, and 8 gives one
-- round of the loop.
big_endian_to_little_n : ℕ → List ℕ → ℕ → Option (List ℕ)
big_endian_to_little_n i p size =
    if size % 8 == 0 && leb size 8 then some (overwrite (le_bytes (size / 8) i) p) else none

-- What lies at `p` afterwards. The pointer that the source returns is past the word.
encode_uint : ℕ → Host → ℕ → List ℕ → Option (List ℕ)
unfolding is_little_endian store big_endian_to_little_n
encode_uint size h i p =
    if is_little_endian h
    then some (overwrite (store h size i) p)
    else big_endian_to_little_n i p size

pub encode_uint64 : Host → ℕ → List ℕ → Option (List ℕ)
unfolding encode_uint
encode_uint64 h i p = encode_uint 8 h i p

pub encode_uint32 : Host → ℕ → List ℕ → Option (List ℕ)
unfolding encode_uint
encode_uint32 h i p = encode_uint 4 h i p

pub encode_uint16 : Host → ℕ → List ℕ → Option (List ℕ)
unfolding encode_uint
encode_uint16 h i p = encode_uint 2 h i p

abbrev encode_uint8 : ℕ → List ℕ → List ℕ
encode_uint8 i p = overwrite (i % 256 ∷ []) p

-- The value and the place after it. On a big-endian host the bytes are copied in reverse.
unfoldable pub decode_uint : ℕ → Host → List ℕ → Option (ℕ × List ℕ)
unfolding is_little_endian load store
decode_uint size h p = elim (split size p) [
  | none ↦ none
  | some (a, rest) ↦ some (if is_little_endian h then load h a else load h (reverse a), rest)
]

unfoldable pub decode_uint64 : Host → List ℕ → Option (ℕ × List ℕ)
unfolding decode_uint
decode_uint64 h p = decode_uint 8 h p

unfoldable pub decode_uint32 : Host → List ℕ → Option (ℕ × List ℕ)
unfolding decode_uint
decode_uint32 h p = decode_uint 4 h p

unfoldable pub decode_uint16 : Host → List ℕ → Option (ℕ × List ℕ)
unfolding decode_uint
decode_uint16 h p = decode_uint 2 h p

unfoldable pub decode_uint8 : List ℕ → Option (ℕ × List ℕ)
decode_uint8 [] = none
decode_uint8 (b ∷ p) = some (b, p)
