-- ===== src/Conf/Filter/Laws/Meaning.antt =====
-- Which segments the expression of a filter lets through.
use rsock.Base.{
  ℕ, Option, none, some, ◌>>=◌, append_assoc, ◌≡◌, refl, sym, ap, ◌∙◌, Bool, true, false, ◌&&◌,
  ◌||◌, List, [], ◌∷◌, ◌++◌, map, bytes_eq, arith,
}
use rsock.Conf.PortList.{RPortList, PortPair}
use rsock.Conf.PortList.Raw.{mem, in_ranges, covered}
use rsock.Conf.RConfig.Parse.{is_empty, is_empty_ports}
use rsock.Conf.Filter.{Text, ip_text, ports_text, build_filter_str}
use rsock.Conf.Filter.Laws.{
  Expr, proto, port, portrange, print, Segment, port_of, address_of, lets_through, any_through,
  or_all-any, alternatives, add_ports, add_host, ports_conjunct, ports_text-conjunct,
  print-add_ports, print-add_host, is_word, word_chars, is_unambiguous, filter_expr,
  is_unambiguous-filter_expr,
}

any_through-append :
    (l m : List Expr) (s : Segment) → any_through (l ++ m) s ≡ (any_through l s || any_through m s)
unfolding any_through
any_through-append [] m s = refl
any_through-append (x ∷ l) m s = ground (arith, any_through-append l m s)

any-ports :
    (is_src : Bool) (ps : List ℕ) (s : Segment)
    → any_through (map (port is_src) ps) s ≡ mem (port_of is_src s) ps
unfolding any_through
any-ports is_src [] s = refl
any-ports is_src (p ∷ ps) s = ground (arith, any-ports is_src ps s)

any-ranges :
    (is_src : Bool) (rs : List PortPair) (s : Segment)
    → any_through (map (portrange is_src) rs) s ≡ in_ranges (port_of is_src s) rs
unfolding any_through
any-ranges is_src [] s = refl
any-ranges is_src (r ∷ rs) s = ground (arith, any-ranges is_src rs s)

abbrev no_exprs : List Expr → Bool
no_exprs [] = true
no_exprs _ = false

abbrev pub address_fits : Text → Text → Bool
address_fits ip address = is_empty ip || bytes_eq ip address

abbrev pub port_fits : ℕ → RPortList → Bool
port_fits p ports = is_empty_ports ports || covered p ports

through-add_host :
    (is_src : Bool) (ip : Text) (e : Expr) (s : Segment)
    → lets_through (add_host is_src ip e) s
      ≡ (lets_through e s && address_fits ip (address_of is_src s))
through-add_host is_src [] e s = ground arith
through-add_host is_src (c ∷ ip) e s = refl

through-add_ports :
    (l : List Expr) (e : Expr) (s : Segment)
    → lets_through (add_ports l e) s ≡ (lets_through e s && (no_exprs l || any_through l s))
unfolding add_ports any_through
through-add_ports [] e s = ground arith
through-add_ports (x ∷ l) e s = ap (λ b. lets_through e s && b) (or_all-any x l s)

any-alternatives :
    (is_src : Bool) (ports : RPortList) (s : Segment)
    → (no_exprs (alternatives is_src ports) || any_through (alternatives is_src ports) s)
      ≡ port_fits (port_of is_src s) ports
unfolding alternatives
any-alternatives is_src ports s = by_lists ports.single_ones ports.valentines
  where
    by_lists :
        (ps : List ℕ) (rs : List PortPair)
        → (no_exprs (alternatives is_src (record ports { single_ones = ps; valentines = rs }))
            || any_through
                (alternatives is_src (record ports { single_ones = ps; valentines = rs }))
                s)
          ≡ port_fits (port_of is_src s) (record ports { single_ones = ps; valentines = rs })
    by_lists [] [] = refl
    by_lists [] (r ∷ rs) = any-ranges is_src (r ∷ rs) s
    by_lists (p ∷ ps) rs =
        any_through-append (map (port is_src) (p ∷ ps)) (map (portrange is_src) rs) s
        ∙ ground (arith, any-ports is_src (p ∷ ps) s, any-ranges is_src rs s)

joined :
    (oa ob : Option Text) (a b pre pre2 pre3 : Text)
    → oa ≡ some a
    → ob ≡ some b
    → (do a' ← oa; b' ← ob; some (pre ++ (pre2 ++ (pre3 ++ (a' ++ b')))))
      ≡ some (pre ++ (pre2 ++ (pre3 ++ (a ++ b))))
joined oa ob a b pre pre2 pre3 p q = cc

-- The text for a client, of a protocol and addresses without spaces and parentheses, where the
-- protocol is not empty, is that of an expression that libpcap reads as it is meant, "and" and "or" to
-- the left where no parentheses say otherwise. It lets a segment through exactly if that is of the protocol, comes from the source address and goes to
-- the destination address, where these are given, and its ports are in the lists, where these have
-- any.
pub build_filter_str_lem :
    (t src dst : Text) (src_ports dst_ports : RPortList) (s : Segment)
    → is_word t ≡ true
    → word_chars src ≡ true
    → word_chars dst ≡ true
    → (build_filter_str t src dst src_ports dst_ports false
        ≡ print (filter_expr t src dst src_ports dst_ports))
      × (is_unambiguous (filter_expr t src dst src_ports dst_ports) ≡ true)
      × (lets_through (filter_expr t src dst src_ports dst_ports) s ≡ (
          bytes_eq t s.protocol
          && (address_fits src s.src
              && (address_fits dst s.dst
                  && (port_fits s.sp src_ports && port_fits s.dp dst_ports)))))
unfolding build_filter_str
build_filter_str_lem t src dst src_ports dst_ports s w wa wb =
    let a = ports_conjunct (alternatives true src_ports) in
    let b = ports_conjunct (alternatives false dst_ports) in
    let from = add_host true src (proto t) in
    let hosts = add_host false dst from in
    let with_src = add_ports (alternatives true src_ports) hosts in
    let text : build_filter_str t src dst src_ports dst_ports false
        ≡ t ++ (ip_text true src ++ (ip_text false dst ++ (a ++ b))) =
      ap (λ o. elim o [ none ↦ [] | some x ↦ x ])
        (joined (ports_text true src_ports) (ports_text false dst_ports) a b t (ip_text true src)
          (ip_text false dst) (ports_text-conjunct true src_ports)
          (ports_text-conjunct false dst_ports)) in
    let printed : print (add_ports (alternatives false dst_ports) with_src)
        ≡ (((t ++ ip_text true src) ++ ip_text false dst) ++ a) ++ b =
      print-add_ports (alternatives false dst_ports) with_src
      ∙ ap (λ x. x ++ b)
          (print-add_ports (alternatives true src_ports) hosts
            ∙ ap (λ x. x ++ a)
                (print-add_host false dst from
                  ∙ ap (λ x. x ++ ip_text false dst) (print-add_host true src (proto t)))) in
    (
      text ∙ sym (printed ∙ simp append_assoc),
      is_unambiguous-filter_expr t src dst src_ports dst_ports w wa wb,
      through-add_ports (alternatives false dst_ports) with_src s
          ∙ ground (
            arith,
            through-add_ports (alternatives true src_ports) hosts s,
            through-add_host false dst from s,
            through-add_host true src (proto t) s,
            any-alternatives true src_ports s,
            any-alternatives false dst_ports s,
          ),
    )
