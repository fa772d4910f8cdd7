-- ===== src/Conf/PortList/Scan.antt =====
-- What the expression matches, and that the loop over its matches ends.
use rsock.Base.{
  ℕ, zero, suc, ◌+◌, ◌≤◌, ◌<◌, ◌≡◌, refl, sym, ap, subst, ◌∙◌, inl, inr, Bool, Bool-cases, true,
  false, not, ◌&&◌, Option, Option-cases, none, some, List, [], ◌∷◌, ◌++◌, arith, ◌==◌,
  if◌then◌else◌, length, is_digit, all_digits, starts_digit, all_digits-to_string,
  starts_digit-to_string, starts_digit-append, of_digits, of_digits-to_string, ltb, ◌^◌,
}
use rsock.Base
use rsock.Conf.PortList.{
  Match, port, range, skip, span, after_digits, match_from, search, Lists, add_match, parse, stoi,
}

length-skip : (s : List ℕ) → length (skip s) ≤ length s
unfolding skip
length-skip [] = omega arith
length-skip (c ∷ s) = ground (arith, length-skip s)

length-span : (s : List ℕ) → length (span s).1 ≤ length s
unfolding span
length-span [] = omega arith
length-span (c ∷ s) = ground (arith, length-span s)

length-span_digit : (c : ℕ) (s : List ℕ) → is_digit c ≡ true → length (span (c ∷ s)).1 ≤ length s
unfolding span
length-span_digit c s h = ground (arith, h, length-span s)

length-after_digits : (d s : List ℕ) → length (after_digits (d, s)).1 ≤ length s
unfolding after_digits
length-after_digits d [] = omega arith
length-after_digits d (c ∷ s) = ground (arith, length-span s)

length-match_from :
    (t rest : List ℕ) (m : Match)
    → starts_digit t ≡ true
    → match_from t ≡ some (m, rest)
    → length rest < length t
unfolding match_from
length-match_from [] rest m d h = absurd (ground (arith, d))
length-match_from (c ∷ t) rest m d h =
    let e : (after_digits (span (c ∷ t))).1 ≡ rest = ground (arith, h) in
    omega (
      arith,
      ap length e,
      length-after_digits (span (c ∷ t)).0 (span (c ∷ t)).1,
      length-span_digit c t d,
    )

match_from-skip :
    (s rest : List ℕ) (m : Match)
    → match_from (skip s) ≡ some (m, rest)
    → starts_digit (skip s) ≡ true
unfolding skip match_from
match_from-skip [] rest m h = ground (arith, h)
match_from-skip (c ∷ s) rest m h = elim (Bool-cases (is_digit c)) [
  | inl e ↦ ground (arith, e)
  | inr e ↦
      let f : match_from (skip s) ≡ some (m, rest) = ground (arith, e, h) in
      let g = match_from-skip s rest m f in ground (arith, e, g)
]

-- A match takes a digit at least.
pub length-search :
    (s rest : List ℕ) (m : Match) → search s ≡ some (m, rest) → length rest < length s
unfolding search
length-search s rest m h =
    omega (arith, length-match_from (skip s) rest m (match_from-skip s rest m h) h, length-skip s)

-- A text that starts with a digit is not skipped.
search_digit : (s : List ℕ) → starts_digit s ≡ true → search s ≡ some (after_digits (span s))
unfolding search skip match_from
search_digit [] h = absurd (ground (arith, h))
search_digit (c ∷ s) h = ground (arith, h)

span-append :
    (d rest : List ℕ)
    → all_digits d ≡ true
    → starts_digit rest ≡ false
    → span (d ++ rest) ≡ (d, rest)
unfolding span
span-append [] [] a b = refl
span-append [] (c ∷ rest) a b = ground (arith, b)
span-append (c ∷ d) rest a b = ground (arith, a, span-append d rest)

-- What can follow a port: no digit, and no dash.
abbrev pub ends : List ℕ → Bool
ends [] = true
ends (c ∷ s) = not (is_digit c) && not (c == b'-')

no_digit : (s : List ℕ) → ends s ≡ true → starts_digit s ≡ false
no_digit [] h = refl
no_digit (c ∷ s) h = ground (arith, h)

after-port : (d rest : List ℕ) → ends rest ≡ true → after_digits (d, rest) ≡ (port d, rest)
unfolding after_digits
after-port d [] h = refl
after-port d (c ∷ rest) h = ground (arith, h)

pub search-port :
    (n : ℕ) (rest : List ℕ)
    → ends rest ≡ true
    → search (Base.to_string n ++ rest) ≡ some (port (Base.to_string n), rest)
search-port n rest h =
    search_digit (Base.to_string n ++ rest)
      (starts_digit-append (Base.to_string n) rest (starts_digit-to_string n))
    ∙ ap (λ x. some (after_digits x))
        (span-append (Base.to_string n) rest (all_digits-to_string n) (no_digit rest h))
    ∙ ap some (after-port (Base.to_string n) rest h)

after-range :
    (d : List ℕ) (n : ℕ) (rest : List ℕ)
    → ends rest ≡ true
    → after_digits (d, b'-' ∷ (Base.to_string n ++ rest)) ≡ (range d (Base.to_string n), rest)
unfolding after_digits
after-range d n rest h = ground (
  arith,
  starts_digit-append (Base.to_string n) rest (starts_digit-to_string n),
  span-append (Base.to_string n) rest (all_digits-to_string n) (no_digit rest h),
)

pub search-range :
    (m n : ℕ) (rest : List ℕ)
    → ends rest ≡ true
    → search (Base.to_string m ++ (b'-' ∷ (Base.to_string n ++ rest)))
      ≡ some (range (Base.to_string m) (Base.to_string n), rest)
search-range m n rest h =
    let tail = b'-' ∷ (Base.to_string n ++ rest) in
    search_digit (Base.to_string m ++ tail)
      (starts_digit-append (Base.to_string m) tail (starts_digit-to_string m))
    ∙ ap (λ x. some (after_digits x))
        (span-append (Base.to_string m) tail (all_digits-to_string m) refl)
    ∙ ap some (after-range (Base.to_string m) n rest h)

pub search-comma : (s : List ℕ) → search (b',' ∷ b' ' ∷ s) ≡ search s
unfolding search skip
search-comma s = refl

no_match : (s : List ℕ) → length s ≤ 0 → search s ≡ none
unfolding search skip match_from
no_match [] p = refl
no_match (c ∷ s) p = absurd (omega arith)

-- More fuel than the text is long changes nothing.
pub parse_enough :
    (fuel more : ℕ) (s : List ℕ) (lists : Lists)
    → length s ≤ fuel
    → length s ≤ more
    → parse fuel s lists ≡ parse more s lists
unfolding parse
parse_enough zero zero s lists p q = refl
parse_enough zero (suc more) s lists p q = ground (arith, no_match s p)
parse_enough (suc fuel) zero s lists p q = ground (arith, no_match s q)
parse_enough (suc fuel) (suc more) s lists p q = elim (Option-cases (search s)) [
  | inl e ↦ ground (arith, e)
  | inr ((m, rest), e) ↦
      let less = length-search s rest m e in
      let next =
        parse_enough fuel more rest (add_match lists m).0 (omega (arith, less))
          (omega (arith, less)) in
      ground (arith, e, next)
]

-- A round of the loop over a text with fuel enough.
pub parse_round :
    (fuel : ℕ) (s rest : List ℕ) (m : Match) (lists lists' : Lists)
    → length s ≤ fuel
    → search s ≡ some (m, rest)
    → add_match lists m ≡ (lists', none)
    → parse fuel s lists ≡ parse (length rest) rest lists'
unfolding parse
parse_round zero s rest m lists lists' p e f = absurd (ground (arith, p, length-search s rest m e))
parse_round (suc fuel) s rest m lists lists' p e f =
    let less = length-search s rest m e in
    let next = parse_enough fuel (length rest) rest lists' (omega (arith, less)) (omega arith) in
    ground (arith, e, f, next)

pub stoi-to_string : (n : ℕ) → n < 2 ^ 16 → stoi (Base.to_string n) ≡ some n
unfolding stoi
stoi-to_string n h = ground (arith, of_digits-to_string n)
