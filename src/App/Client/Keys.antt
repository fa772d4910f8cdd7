-- ===== src/App/Client/Keys.antt =====
-- The keys of local addresses.
use rsock.Base.{
  ℕ, ◌*◌, ◌^◌, ◌<◌, ◌≡◌, sym, ap, true, false, List, arith, to_string, to_string_inj, starts_digit,
  starts_digit-to_string,
}
use rsock.Base.Bits.{bit_or-shift}
use Prim.Native.Nat.{bit_or}
use rsock.App.Client.{SockAddr, in4, un, other, build_key}

-- An IPv4 address, or a path that does not start with a digit.
abbrev pub IsClear : SockAddr → Type 0
IsClear (in4 s_addr port) = (s_addr < 2 ^ 32) × (port < 2 ^ 16)
IsClear (un path) = starts_digit path ≡ false
IsClear other = ⊥

number_inj :
    (i p j q : ℕ)
    → p < 2 ^ 16
    → q < 2 ^ 16
    → bit_or (i * 2 ^ 32) p ≡ bit_or (j * 2 ^ 32) q
    → (i ≡ j) × (p ≡ q)
number_inj i p j q a b h =
    ground (arith, bit_or-shift 32 i p (omega arith), bit_or-shift 32 j q (omega arith))

no_path : (n : ℕ) (path : List ℕ) → starts_digit path ≡ false → to_string n ≡ path → ⊥
no_path n path h e = let t = ap starts_digit e in let d = starts_digit-to_string n in cc

pub build_key_inj : (a b : SockAddr) → IsClear a → IsClear b → build_key a ≡ build_key b → a ≡ b
unfolding build_key
build_key_inj (in4 i p) (in4 j q) (a, b) (c, d) h =
    let e = number_inj i p j q b d (to_string_inj _ _ h) in cc
build_key_inj (in4 i p) (un path) a b h = absurd (no_path _ path b h)
build_key_inj (un path) (in4 j q) a b h = absurd (no_path _ path a (sym h))
build_key_inj (un path) (un path') a b h = ap un h
build_key_inj other b a c h = elim a [ ]
build_key_inj (in4 i p) other a b h = elim b [ ]
build_key_inj (un path) other a b h = elim b [ ]

-- The address is of IPv4.
abbrev pub IsIn4 : SockAddr → Type 0
IsIn4 (in4 s_addr port) = Unit {0}
IsIn4 (un path) = ⊥
IsIn4 other = ⊥

pub starts_digit-build_key : (addr : SockAddr) → IsIn4 addr → starts_digit (build_key addr) ≡ true
unfolding build_key
starts_digit-build_key (in4 s_addr port) i = starts_digit-to_string _
starts_digit-build_key (un path) i = elim i [ ]
starts_digit-build_key other i = elim i [ ]
