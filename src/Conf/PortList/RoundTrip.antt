-- ===== src/Conf/PortList/RoundTrip.antt =====
-- A list of ports is read back from its text.
use rsock.Base.{
  ℕ, zero, suc, ◌+◌, ◌%◌, ◌^◌, ◌≤◌, ◌<◌, ◌≡◌, refl, sym, ap, subst, ◌∙◌, inl, inr, Bool, true,
  false, not, ◌&&◌, ◌||◌, Option, none, some, List, [], ◌∷◌, ◌++◌, map, append_assoc, append-nil,
  arith, leb, ltb, ◌==◌, if◌then◌else◌, if_intro, length, is_digit, all_digits, of_digits,
  of_digits-to_string, all_digits-to_string,
}
use rsock.Base
use rsock.Conf.PortList.{
  PortPair, RPortList, joined, pair_text, is_empty, text_of, to_string, port, range, stoi, Lists,
  Parsed, accepted, add_match, parse, valid_chars, from_string,
}
use rsock.Conf.PortList.Scan.{
  ends, search-port, search-range, search-comma, parse_enough, parse_round,
}

-- The ports have 16 bits, and a range is not empty and does not start at 0.
abbrev pub ArePorts : List ℕ → Type 0
ArePorts [] = Unit {0}
ArePorts (p ∷ ps) = (p < 2 ^ 16) × ArePorts ps

abbrev pub AreRanges : List PortPair → Type 0
AreRanges [] = Unit {0}
AreRanges (p ∷ ps) = (0 < p.source) × (p.source < p.dest) × (p.dest < 2 ^ 16) × AreRanges ps

-- The loop with fuel enough.
abbrev run : List ℕ → Lists → Lists × Parsed
run s lists = parse (length s) s lists

run-comma : (s : List ℕ) (lists : Lists) → run (b',' ∷ b' ' ∷ s) lists ≡ run s lists
unfolding parse
run-comma s lists =
    let more = parse_enough (suc (suc (length s))) (length s) s lists (omega arith) (omega arith) in
    ground (arith, search-comma s, more)

run-port :
    (p : ℕ) (rest : List ℕ) (ss : List ℕ) (qs : List PortPair)
    → p < 2 ^ 16
    → ends rest ≡ true
    → run (Base.to_string p ++ rest) (ss, qs) ≡ run rest (ss ++ (p ∷ []), qs)
unfolding add_match stoi
run-port p rest ss qs fits e =
    parse_round _ (Base.to_string p ++ rest) rest (port (Base.to_string p)) (ss, qs)
      (ss ++ (p ∷ []), qs) (omega arith) (search-port p rest e)
      (ground (arith, of_digits-to_string p))

run-range :
    (p : PortPair) (rest : List ℕ) (ss : List ℕ) (qs : List PortPair)
    → 0 < p.source
    → p.source < p.dest
    → p.dest < 2 ^ 16
    → ends rest ≡ true
    → run (pair_text p ++ rest) (ss, qs) ≡ run rest (ss, qs ++ (p ∷ []))
unfolding add_match stoi
run-range p rest ss qs start order fits e =
    subst (λ s. run s (ss, qs) ≡ run rest (ss, qs ++ (p ∷ [])))
      (sym (append_assoc (Base.to_string p.source) (b'-' ∷ Base.to_string p.dest) rest))
      (parse_round _ _ rest (range (Base.to_string p.source) (Base.to_string p.dest)) (ss, qs)
        (ss, qs ++ (p ∷ [])) (omega arith) (search-range p.source p.dest rest e)
        (ground (arith, of_digits-to_string p.source, of_digits-to_string p.dest)))

-- Texts with commas between them, of which each makes the loop go from one state to the next.
run-ports :
    (p : ℕ) (ps : List ℕ) (rest : List ℕ) (ss : List ℕ) (qs : List PortPair)
    → ArePorts (p ∷ ps)
    → ends rest ≡ true
    → run (joined (map Base.to_string (p ∷ ps)) ++ rest) (ss, qs) ≡ run rest (ss ++ (p ∷ ps), qs)
unfolding joined
run-ports p [] rest ss qs (fits, _) e = run-port p rest ss qs fits e
run-ports p (q ∷ ps) rest ss qs (fits, more) e =
    let tail = joined (map Base.to_string (q ∷ ps)) in
    ap (λ s. run s (ss, qs)) (append_assoc (Base.to_string p) (b',' ∷ b' ' ∷ tail) rest)
    ∙ run-port p (b',' ∷ b' ' ∷ (tail ++ rest)) ss qs fits refl
    ∙ run-comma (tail ++ rest) (ss ++ (p ∷ []), qs)
    ∙ run-ports q ps rest (ss ++ (p ∷ [])) qs more e
    ∙ ap (λ l. run rest (l, qs)) (append_assoc ss (p ∷ []) (q ∷ ps))

run-ranges :
    (p : PortPair) (ps : List PortPair) (rest : List ℕ) (ss : List ℕ) (qs : List PortPair)
    → AreRanges (p ∷ ps)
    → ends rest ≡ true
    → run (joined (map pair_text (p ∷ ps)) ++ rest) (ss, qs) ≡ run rest (ss, qs ++ (p ∷ ps))
unfolding joined
run-ranges p [] rest ss qs (a, b, c, _) e = run-range p rest ss qs a b c e
run-ranges p (q ∷ ps) rest ss qs (a, b, c, more) e =
    let tail = joined (map pair_text (q ∷ ps)) in
    ap (λ s. run s (ss, qs)) (append_assoc (pair_text p) (b',' ∷ b' ' ∷ tail) rest)
    ∙ run-range p (b',' ∷ b' ' ∷ (tail ++ rest)) ss qs a b c refl
    ∙ run-comma (tail ++ rest) (ss, qs ++ (p ∷ []))
    ∙ run-ranges q ps rest ss (qs ++ (p ∷ [])) more e
    ∙ ap (λ l. run rest (ss, l)) (append_assoc qs (p ∷ []) (q ∷ ps))

-- The text of both lists.
run-text_of :
    (ss : List ℕ) (qs : List PortPair)
    → ArePorts ss
    → AreRanges qs
    → ◌≡◌ {A = Lists × Parsed} (run (text_of ss qs) ([], [])) ((ss, qs), accepted)
unfolding text_of is_empty joined parse
run-text_of [] [] v w = refl
run-text_of [] (q ∷ qs) v w =
    ap (λ s. run s ([], [])) (sym (append-nil (joined (map pair_text (q ∷ qs)))))
    ∙ run-ranges q qs [] [] [] w refl
run-text_of (s ∷ ss) [] v w = run-ports s ss [] [] [] v refl
run-text_of (s ∷ ss) (q ∷ qs) v w =
    let pairs = joined (map pair_text (q ∷ qs)) in
    run-ports s ss (b',' ∷ b' ' ∷ pairs) [] [] v refl
    ∙ run-comma pairs (s ∷ ss, [])
    ∙ ap (λ t. run t (s ∷ ss, [])) (sym (append-nil pairs))
    ∙ run-ranges q qs [] (s ∷ ss) [] w refl

valid_chars-append :
    (s t : List ℕ) → valid_chars s ≡ true → valid_chars t ≡ true → valid_chars (s ++ t) ≡ true
unfolding valid_chars
valid_chars-append [] t p q = q
valid_chars-append (c ∷ s) t p q = ground (arith, p, valid_chars-append s t)

valid_chars-digits : (s : List ℕ) → all_digits s ≡ true → valid_chars s ≡ true
unfolding valid_chars
valid_chars-digits [] h = refl
valid_chars-digits (c ∷ s) h = ground (arith, h, valid_chars-digits s)

valid_chars-to_string : (n : ℕ) → valid_chars (Base.to_string n) ≡ true
valid_chars-to_string n = valid_chars-digits (Base.to_string n) (all_digits-to_string n)

valid_chars-pair_text : (p : PortPair) → valid_chars (pair_text p) ≡ true
unfolding valid_chars
valid_chars-pair_text p =
    valid_chars-append (Base.to_string p.source) (b'-' ∷ Base.to_string p.dest)
      (valid_chars-to_string p.source) (valid_chars-to_string p.dest)

valid_chars-joined :
    {A : Type 0} (text : A → List ℕ)
    → ((a : A) → valid_chars (text a) ≡ true)
    → (xs : List A) → valid_chars (joined (map text xs)) ≡ true
unfolding valid_chars joined
valid_chars-joined text h [] = refl
valid_chars-joined text h (a ∷ []) = h a
valid_chars-joined text h (a ∷ b ∷ xs) =
    valid_chars-append (text a) (b',' ∷ b' ' ∷ joined (map text (b ∷ xs))) (h a)
      (valid_chars-joined text h (b ∷ xs))

valid_chars-text_of : (ss : List ℕ) (qs : List PortPair) → valid_chars (text_of ss qs) ≡ true
unfolding text_of valid_chars
valid_chars-text_of ss qs =
    let ports = valid_chars-joined Base.to_string valid_chars-to_string ss in
    let ranges = valid_chars-joined pair_text valid_chars-pair_text qs in
    valid_chars-append (joined (map Base.to_string ss)) _ ports (
      if_intro (λ t. valid_chars t ≡ true) (is_empty qs) _ _ refl
        (valid_chars-append (if is_empty ss then [] else b',' ∷ b' ' ∷ [])
          (joined (map pair_text qs))
          (if_intro (λ t. valid_chars t ≡ true) (is_empty ss) _ _ refl refl) ranges))

-- Any list accepts the text of a list of 16-bit ports and of ranges of such that are not empty and
-- do not start at 0, and has its ports and its ranges then, in their order; its raw list stays.
pub from_string-to_string :
    (l m : RPortList)
    → ArePorts m.single_ones
    → AreRanges m.valentines
    → from_string l (to_string m)
      ≡ (record l { single_ones = m.single_ones; valentines = m.valentines }, accepted)
unfolding from_string
from_string-to_string l m v w = ground (
  arith,
  valid_chars-text_of m.single_ones m.valentines,
  run-text_of m.single_ones m.valentines v w,
)
