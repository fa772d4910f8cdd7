-- ===== src/Conf/Filter/Laws.antt =====
-- The filter's text, read as the expression that it writes, lets through what it should.
pub mod Meaning
use rsock.Base.{
  ℕ, ◌≡◌, refl, sym, ap, ◌∙◌, Bool, Bool-cases, true, false, not, ◌&&◌, ◌||◌, Option, none, some,
  ◌>>=◌, List, [], ◌∷◌, ◌++◌, append_assoc, append-nil, map, ◌==◌, leb, if◌then◌else◌, to_string,
  bytes_eq, arith,
}
use rsock.Conf.PortList.{RPortList, PortPair}
use rsock.Conf.PortList.Raw.{mem, in_range, in_ranges, covered}
use rsock.Conf.RConfig.Parse.{is_empty, is_empty_ports}
use rsock.Conf.Filter.{
  Text, codes, ip_text, single_texts, range_texts, remove_or, ports_text, build_filter_str,
  for_server,
}

-- The expressions of libpcap that are used; the Boolean is whether it is about the source.
pub data Expr : Type 0 where
  proto : Text → Expr
  host : Bool → Text → Expr
  port : Bool → ℕ → Expr
  portrange : Bool → PortPair → Expr
  both : Expr → Expr → Expr
  either : Expr → Expr → Expr
  group : Expr → Expr

abbrev pub print : Expr → Text
print (proto t) = t
print (host is_src ip) = codes (if is_src then " (ip src " else " (ip dst ") ++ (ip ++ codes ")")
print (port is_src p) = codes (if is_src then " src port " else " dst port ") ++ to_string p
print (portrange is_src r) =
    codes (if is_src then " src portrange " else " dst portrange ")
    ++ (to_string r.source ++ (b'-' ∷ to_string r.dest))
print (both a b) = print a ++ (codes " and " ++ print b)
print (either a b) = print a ++ (codes " or" ++ print b)
print (group a) = codes "( " ++ (print a ++ codes " )")

-- "and" and "or" have one precedence for libpcap, and associate to the left: the right operand of
-- each is one primitive or is in parentheses.
abbrev pub is_operand : Expr → Bool
is_operand (both a b) = false
is_operand (either a b) = false
is_operand _ = true

-- No space and no parenthesis, and a character at least.
abbrev pub word_chars : Text → Bool
word_chars [] = true
word_chars (c ∷ t) = not (c == b' ' || c == b'(' || c == b')') && word_chars t

abbrev pub is_word : Text → Bool
is_word t = not (is_empty t) && word_chars t

-- libpcap reads what is printed as this very expression, and not as another with the same text.
abbrev pub is_unambiguous : Expr → Bool
is_unambiguous (proto t) = is_word t
is_unambiguous (host is_src ip) = is_word ip
is_unambiguous (both a b) = is_operand b && (is_unambiguous a && is_unambiguous b)
is_unambiguous (either a b) = is_operand b && (is_unambiguous a && is_unambiguous b)
is_unambiguous (group a) = is_unambiguous a
is_unambiguous _ = true

-- A segment, with its addresses as texts.
pub record Segment : Type 0 where
  pub protocol : Text
  pub src : Text
  pub dst : Text
  pub sp : ℕ
  pub dp : ℕ

abbrev pub port_of : Bool → Segment → ℕ
port_of is_src s = if is_src then s.sp else s.dp

abbrev pub address_of : Bool → Segment → Text
address_of is_src s = if is_src then s.src else s.dst

abbrev pub lets_through : Expr → Segment → Bool
lets_through (proto t) s = bytes_eq t s.protocol
lets_through (host is_src ip) s = bytes_eq ip (address_of is_src s)
lets_through (port is_src p) s = p == port_of is_src s
lets_through (portrange is_src r) s = in_range (port_of is_src s) r
lets_through (both a b) s = lets_through a s && lets_through b s
lets_through (either a b) s = lets_through a s || lets_through b s
lets_through (group a) s = lets_through a s

pub or_all : Expr → List Expr → Expr
or_all e [] = e
or_all e (x ∷ l) = or_all (either e x) l

tails : List Expr → Text
tails [] = []
tails (x ∷ l) = codes " or" ++ (print x ++ tails l)

print-or_all : (e : Expr) (l : List Expr) → print (or_all e l) ≡ print e ++ tails l
unfolding or_all tails
print-or_all e [] = sym (append-nil (print e))
print-or_all e (x ∷ l) =
    print-or_all (either e x) l ∙ append_assoc (print e) (codes " or" ++ print x) (tails l)

pub any_through : List Expr → Segment → Bool
any_through [] s = false
any_through (x ∷ l) s = lets_through x s || any_through l s

pub or_all-any :
    (e : Expr) (l : List Expr) (s : Segment)
    → lets_through (or_all e l) s ≡ (lets_through e s || any_through l s)
unfolding or_all any_through
or_all-any e [] s = ground arith
or_all-any e (x ∷ l) s = ground (arith, or_all-any (either e x) l s)

pub alternatives : Bool → RPortList → List Expr
alternatives is_src l = map (port is_src) l.single_ones ++ map (portrange is_src) l.valentines

tails-ranges :
    (is_src : Bool) (rs : List PortPair) (t : Text)
    → range_texts is_src rs ++ t ≡ tails (map (portrange is_src) rs) ++ t
unfolding range_texts tails
tails-ranges is_src [] t = refl
tails-ranges true (r ∷ rs) t = simp (tails-ranges true rs t, append_assoc)
tails-ranges false (r ∷ rs) t = simp (tails-ranges false rs t, append_assoc)

tails-singles :
    (is_src : Bool) (ps : List ℕ) (rs : List PortPair) (t : Text)
    → single_texts is_src ps ++ (range_texts is_src rs ++ t)
      ≡ tails (map (port is_src) ps ++ map (portrange is_src) rs) ++ t
unfolding single_texts tails
tails-singles is_src [] rs t = tails-ranges is_src rs t
tails-singles true (p ∷ ps) rs t = simp (tails-singles true ps rs t, append_assoc)
tails-singles false (p ∷ ps) rs t = simp (tails-singles false ps rs t, append_assoc)

-- The conjunct for the ports, where there are any.
pub add_ports : List Expr → Expr → Expr
add_ports [] e = e
add_ports (x ∷ l) e = both e (group (or_all x l))

pub ports_conjunct : List Expr → Text
ports_conjunct [] = []
ports_conjunct (x ∷ l) = codes " and ( " ++ (print x ++ (tails l ++ codes " )"))

remove_or-ports :
    (is_src : Bool) (ps : List ℕ) (rs : List PortPair) (x : Expr) (l : List Expr)
    → map (port is_src) ps ++ map (portrange is_src) rs ≡ x ∷ l
    → remove_or (b'(' ∷ (single_texts is_src ps ++ (range_texts is_src rs ++ codes " )")))
      ≡ some (codes "( " ++ (print x ++ (tails l ++ codes " )")))
unfolding remove_or tails
remove_or-ports is_src ps rs x l h =
    ap (λ s. remove_or (b'(' ∷ s))
      (tails-singles is_src ps rs (codes " )")
        ∙ ap (λ m. tails m ++ codes " )") h
        ∙ ap (λ s. codes " or" ++ s) (append_assoc (print x) (tails l) (codes " )")))

pub ports_text-conjunct :
    (is_src : Bool) (l : RPortList)
    → ports_text is_src l ≡ some (ports_conjunct (alternatives is_src l))
unfolding ports_text ports_conjunct alternatives
ports_text-conjunct is_src l = by_lists l.single_ones l.valentines
  where
    by_lists :
        (ps : List ℕ) (rs : List PortPair)
        → ports_text is_src (record l { single_ones = ps; valentines = rs })
          ≡ some (ports_conjunct (map (port is_src) ps ++ map (portrange is_src) rs))
    by_lists [] [] = refl
    by_lists [] (r ∷ rs) =
        ap (λ o. (do s ← o; some (codes " and " ++ s)))
          (remove_or-ports is_src [] (r ∷ rs) (portrange is_src r) (map (portrange is_src) rs) refl)
    by_lists (p ∷ ps) rs =
        ap (λ o. (do s ← o; some (codes " and " ++ s)))
          (remove_or-ports is_src (p ∷ ps) rs (port is_src p)
            (map (port is_src) ps ++ map (portrange is_src) rs) refl)

pub print-add_ports :
    (l : List Expr) (e : Expr) → print (add_ports l e) ≡ print e ++ ports_conjunct l
unfolding add_ports ports_conjunct
print-add_ports [] e = sym (append-nil (print e))
print-add_ports (x ∷ l) e =
    ap (λ s. print e ++ (codes " and ( " ++ (s ++ codes " )"))) (print-or_all x l)
    ∙ ap (λ s. print e ++ (codes " and ( " ++ s)) (append_assoc (print x) (tails l) (codes " )"))

abbrev pub add_host : Bool → Text → Expr → Expr
add_host is_src [] e = e
add_host is_src (c ∷ ip) e = both e (host is_src (c ∷ ip))

pub print-add_host :
    (is_src : Bool) (ip : Text) (e : Expr)
    → print (add_host is_src ip e) ≡ print e ++ ip_text is_src ip
unfolding ip_text
print-add_host is_src [] e = sym (append-nil (print e))
print-add_host is_src (c ∷ ip) e = refl

-- The expression that a filter is to be: of a protocol, the addresses that are given, and one port
-- or range of each list that has any.
abbrev pub filter_expr : Text → Text → Text → RPortList → RPortList → Expr
filter_expr t src dst src_ports dst_ports =
    add_ports (alternatives false dst_ports)
      (add_ports (alternatives true src_ports) (add_host false dst (add_host true src (proto t))))

-- Expressions that are primitives.
abbrev AllPrimitive : List Expr → Type 0
AllPrimitive [] = Unit {0}
AllPrimitive (x ∷ l) = (is_operand x ≡ true) × (is_unambiguous x ≡ true) × AllPrimitive l

AllPrimitive-ranges :
    (is_src : Bool) (rs : List PortPair) → AllPrimitive (map (portrange is_src) rs)
AllPrimitive-ranges is_src [] = tt
AllPrimitive-ranges is_src (r ∷ rs) = (refl, refl, AllPrimitive-ranges is_src rs)

AllPrimitive-alternatives :
    (is_src : Bool) (ps : List ℕ) (rs : List PortPair)
    → AllPrimitive (map (port is_src) ps ++ map (portrange is_src) rs)
AllPrimitive-alternatives is_src [] rs = AllPrimitive-ranges is_src rs
AllPrimitive-alternatives is_src (p ∷ ps) rs = (refl, refl, AllPrimitive-alternatives is_src ps rs)

is_unambiguous-or_all :
    (e : Expr) (l : List Expr)
    → is_unambiguous e ≡ true
    → AllPrimitive l
    → is_unambiguous (or_all e l) ≡ true
unfolding or_all
is_unambiguous-or_all e [] a p = a
is_unambiguous-or_all e (x ∷ l) a (o, b, p) =
    is_unambiguous-or_all (either e x) l (ground (arith, a, o, b)) p

is_unambiguous-add_ports :
    (e : Expr) (l : List Expr)
    → is_unambiguous e ≡ true
    → AllPrimitive l
    → is_unambiguous (add_ports l e) ≡ true
unfolding add_ports
is_unambiguous-add_ports e [] a p = a
is_unambiguous-add_ports e (x ∷ l) a (o, b, p) = ground (arith, a, is_unambiguous-or_all x l b p)

is_unambiguous-add_host :
    (is_src : Bool) (ip : Text) (e : Expr)
    → is_unambiguous e ≡ true
    → word_chars ip ≡ true
    → is_unambiguous (add_host is_src ip e) ≡ true
is_unambiguous-add_host is_src [] e a w = a
is_unambiguous-add_host is_src (c ∷ ip) e a w = ground (arith, a, w)

pub is_unambiguous-filter_expr :
    (t src dst : Text) (src_ports dst_ports : RPortList)
    → is_word t ≡ true
    → word_chars src ≡ true
    → word_chars dst ≡ true
    → is_unambiguous (filter_expr t src dst src_ports dst_ports) ≡ true
unfolding alternatives
is_unambiguous-filter_expr t src dst src_ports dst_ports w wa wb =
    is_unambiguous-add_ports _ (alternatives false dst_ports)
      (is_unambiguous-add_ports _ (alternatives true src_ports)
        (is_unambiguous-add_host false dst _ (is_unambiguous-add_host true src (proto t) w wa) wb)
        (AllPrimitive-alternatives true src_ports.single_ones src_ports.valentines))
      (AllPrimitive-alternatives false dst_ports.single_ones dst_ports.valentines)
