-- ===== src/Conf/PortList.antt =====
-- util/RPortList.cpp and util/PortPair.cpp: ports and ranges of ports, and their text. Ports are
-- `uint16_t`.
pub mod Scan
pub mod RoundTrip
pub mod Raw
use rsock.Base.{
  ℕ, zero, suc, ◌+◌, ◌-◌, ◌%◌, ◌^◌, Bool, true, false, not, ◌&&◌, ◌||◌, Option, none, some, List,
  [], ◌∷◌, ◌++◌, map, ltb, leb, ◌==◌, if◌then◌else◌, length, is_digit, starts_digit, of_digits,
}
use rsock.Base

pub record PortPair : Type 0 where
  pub source : ℕ
  pub dest : ℕ

pub record RPortList : Type 0 where
  pub valid : Bool
  pub raw_list : List ℕ
  pub single_ones : List ℕ
  pub valentines : List PortPair

-- `RPortList()`
abbrev pub empty_list : RPortList
empty_list = record { valid = false; raw_list = []; single_ones = []; valentines = [] }

pub add_port16 : RPortList → ℕ → RPortList
add_port16 l port = record l { valid = false; single_ones = l.single_ones ++ (port ∷ []) }

same_pair : PortPair → PortPair → Bool
same_pair p q = p.source == q.source && p.dest == q.dest

-- `std::find` in `mValentines`.
pub has_pair : PortPair → List PortPair → Bool
unfolding same_pair
has_pair p [] = false
has_pair p (q ∷ qs) = same_pair q p || has_pair p qs

-- A range with no second port is left out: as CMakeLists.txt builds it, with RSOCK_NNDEBUG, the
-- method returns after a line in the log.
pub add_port_range : RPortList → ℕ → ℕ → RPortList
add_port_range l start end =
    let p : PortPair = record { source = start; dest = end } in
    if leb end start || has_pair p l.valentines
    then l
    else record l { valid = false; valentines = l.valentines ++ (p ∷ []) }

-- The ports from one on, as many as the first argument says.
pub count_from : ℕ → ℕ → List ℕ
count_from zero p = []
count_from (suc n) p = p ∷ count_from n (p + 1)

-- The loop from `source` to `dest`.
abbrev pub ports_of : PortPair → List ℕ
ports_of p = count_from (p.dest + 1 - p.source) p.source

abbrev pub all_ports_of : List PortPair → List ℕ
all_ports_of [] = []
all_ports_of (p ∷ ps) = ports_of p ++ all_ports_of ps

pub rebuild : RPortList → RPortList
rebuild l = record l { raw_list = l.single_ones ++ all_ports_of l.valentines; valid = true }

-- The list afterwards, and the ports.
pub get_raw_list : RPortList → RPortList × List ℕ
get_raw_list l = let l' = if l.valid then l else rebuild l in (l', l'.raw_list)

-- The constructor from a list of pairs, in which a single port has 0 for its `dest`.
pub build_r_port_list : RPortList → List PortPair → RPortList
build_r_port_list l [] = l
build_r_port_list l (p ∷ ps) =
    let rest =
      build_r_port_list
        (if ltb p.source p.dest
          then record l { valentines = l.valentines ++ (p ∷ []) }
          else if ltb p.dest p.source && (p.dest == 0)
          then record l { single_ones = l.single_ones ++ (p.source ∷ []) }
          else l)
        ps in
    rest

-- Texts with ", " between them.
pub joined : List (List ℕ) → List ℕ
joined [] = []
joined (s ∷ []) = s
joined (s ∷ t ∷ ss) = s ++ (b',' ∷ b' ' ∷ joined (t ∷ ss))

abbrev pub pair_text : PortPair → List ℕ
pair_text p = Base.to_string p.source ++ (b'-' ∷ Base.to_string p.dest)

is_empty : {A : Type 0} → List A → Bool
is_empty [] = true
is_empty (a ∷ l) = false

pub text_of : List ℕ → List PortPair → List ℕ
unfolding is_empty
text_of vec pairs =
    joined (map Base.to_string vec)
    ++ (if is_empty pairs
        then []
        else (if is_empty vec then [] else b',' ∷ b' ' ∷ []) ++ joined (map pair_text pairs))

abbrev pub to_string : RPortList → List ℕ
to_string l = text_of l.single_ones l.valentines

-- The match of the expression `((\d+-\d+)|(\d+))`: the digits of a port, or of both ends.
pub data Match : Type 0 where
  port : List ℕ → Match
  range : List ℕ → List ℕ → Match

-- From the first digit on.
pub skip : List ℕ → List ℕ
skip [] = []
skip (c ∷ s) = let rest = skip s in if is_digit c then c ∷ s else rest

-- The digits in front, and the rest.
pub span : List ℕ → List ℕ × List ℕ
span [] = ([], [])
span (c ∷ s) = let (d, rest) = span s in if is_digit c then (c ∷ d, rest) else ([], c ∷ s)

-- A match that starts with these digits; the first alternative is tried first.
pub after_digits : List ℕ × List ℕ → Match × List ℕ
after_digits (d, []) = (port d, [])
after_digits (d, c ∷ s) =
    let (e, rest) = span s in
    if c == b'-' && starts_digit s then (range d e, rest) else (port d, c ∷ s)

pub match_from : List ℕ → Option (Match × List ℕ)
match_from [] = none
match_from (c ∷ s) = some (after_digits (span (c ∷ s)))

-- `std::regex_search`: the first match, and what follows it.
pub search : List ℕ → Option (Match × List ℕ)
search s = match_from (skip s)

-- `std::stoi`; `none` is the exception that it throws.
unfoldable pub stoi : List ℕ → Option ℕ
stoi d = let n = of_digits d 0 in if ltb n (2 ^ 31) then some n else none

-- How a call of `FromString` ends.
pub data Parsed : Type 0 where
  accepted : Parsed
  rejected : Parsed
  thrown : Parsed

abbrev pub Lists : Type 0
Lists = List ℕ × List PortPair

-- A round of the loop: the two lists, and what is thrown or returned, if the loop ends there.
-- `push_back` and `PortPair` cut a number to 16 bits.
pub add_match : Lists → Match → Lists × Option Parsed
add_match (single, pairs) (port d) = elim (stoi d) [
  | none ↦ ((single, pairs), some thrown)
  | some p ↦ ((single ++ ((p % 2 ^ 16) ∷ []), pairs), none)
]
add_match (single, pairs) (range d e) = elim (stoi d) [
  | none ↦ ((single, pairs), some thrown)
  | some start ↦ elim (stoi e) [
    | none ↦ ((single, pairs), some thrown)
    | some end ↦
        if leb end start || (start == 0) || (end == 0) then (([], []), some rejected) else (
          (single, pairs ++ (record { source = start % 2 ^ 16; dest = end % 2 ^ 16 } ∷ [])),
          none,
        )
  ]
]

-- The loop. Each round takes a character at least, so the length of the text is fuel enough.
pub parse : ℕ → List ℕ → Lists → Lists × Parsed
parse zero s lists = (lists, accepted)
parse (suc fuel) s lists = elim (search s) [
  | none ↦ (lists, accepted)
  | some (m, rest) ↦
      let (lists', end) = add_match lists m in
      elim end [ none ↦ parse fuel rest lists' | some r ↦ (lists', r) ]
]

pub valid_chars : List ℕ → Bool
valid_chars [] = true
valid_chars (c ∷ s) = (is_digit c || c == b',' || c == b'-' || c == b' ') && valid_chars s

-- The list afterwards; `mValid` and `mRawList` stay.
pub from_string : RPortList → List ℕ → RPortList × Parsed
from_string l s =
    let ((single, pairs), r) =
      if valid_chars s then parse (length s) s ([], []) else (([], []), rejected) in
    (record l { single_ones = single; valentines = pairs }, r)
