-- ===== src/Conf/PortList/Raw.antt =====
-- The ports of a list, one by one.
use rsock.Base.{
  ℕ, zero, suc, ◌+◌, ◌-◌, ◌<◌, ◌≡◌, refl, sym, ap, subst, ◌∙◌, inl, inr, Bool, Bool-cases, true,
  false, ◌&&◌, ◌||◌, List, [], ◌∷◌, ◌++◌, arith, leb, ltb, ◌==◌,
}
use rsock.Conf.PortList.{
  PortPair, RPortList, add_port16, add_port_range, has_pair, same_pair, count_from, ports_of,
  all_ports_of, rebuild, get_raw_list, from_string,
}

abbrev pub mem : ℕ → List ℕ → Bool
mem p [] = false
mem p (q ∷ qs) = q == p || mem p qs

abbrev pub in_range : ℕ → PortPair → Bool
in_range p r = leb r.source p && leb p r.dest

abbrev pub in_ranges : ℕ → List PortPair → Bool
in_ranges p [] = false
in_ranges p (r ∷ rs) = in_range p r || in_ranges p rs

-- The port is one of the single ones, or in a range.
abbrev pub covered : ℕ → RPortList → Bool
covered p l = mem p l.single_ones || in_ranges p l.valentines

mem-append : (p : ℕ) (ps qs : List ℕ) → mem p (ps ++ qs) ≡ (mem p ps || mem p qs)
mem-append p [] qs = refl
mem-append p (q ∷ ps) qs = ground (arith, mem-append p ps qs)

in_ranges-append :
    (p : ℕ) (rs ss : List PortPair) → in_ranges p (rs ++ ss) ≡ (in_ranges p rs || in_ranges p ss)
in_ranges-append p [] ss = refl
in_ranges-append p (r ∷ rs) ss = ground (arith, in_ranges-append p rs ss)

mem-count_from : (n s p : ℕ) → mem p (count_from n s) ≡ (leb s p && ltb p (s + n))
unfolding count_from
mem-count_from zero s p = ground arith
mem-count_from (suc n) s p = ground (arith, mem-count_from n (s + 1) p)

mem-ports_of : (p : ℕ) (r : PortPair) → mem p (ports_of r) ≡ in_range p r
mem-ports_of p r = ground (arith, mem-count_from (r.dest + 1 - r.source) r.source p)

mem-all_ports_of : (p : ℕ) (rs : List PortPair) → mem p (all_ports_of rs) ≡ in_ranges p rs
mem-all_ports_of p [] = refl
mem-all_ports_of p (r ∷ rs) =
    ground
      (arith, mem-append p (ports_of r) (all_ports_of rs), mem-ports_of p r, mem-all_ports_of p rs)

-- A raw list that is marked as valid is the one that `rebuild` makes.
abbrev pub IsBuilt : Bool → List ℕ → List ℕ → Type 0
IsBuilt false raw built = Unit {0}
IsBuilt true raw built = raw ≡ built

abbrev pub IsCurrent : RPortList → Type 0
IsCurrent l = IsBuilt l.valid l.raw_list (l.single_ones ++ all_ports_of l.valentines)

raw_eq :
    (l : RPortList) → IsCurrent l → (get_raw_list l).1 ≡ l.single_ones ++ all_ports_of l.valentines
unfolding get_raw_list rebuild
raw_eq l c = go l.valid l.raw_list l.single_ones l.valentines c
  where
    go :
        (b : Bool) (raw ss : List ℕ) (rs : List PortPair)
        → IsBuilt b raw (ss ++ all_ports_of rs)
        → (get_raw_list (record { valid = b; raw_list = raw; single_ones = ss; valentines = rs })).1
          ≡ ss ++ all_ports_of rs
    go false raw ss rs c = refl
    go true raw ss rs c = c

mem-get_raw_list : (l : RPortList) (p : ℕ) → IsCurrent l → mem p (get_raw_list l).1 ≡ covered p l
mem-get_raw_list l p c =
    ap (mem p) (raw_eq l c)
    ∙ mem-append p l.single_ones (all_ports_of l.valentines)
    ∙ ap (λ b. mem p l.single_ones || b) (mem-all_ports_of p l.valentines)

in_ranges-has_pair :
    (p : ℕ) (r : PortPair) (rs : List PortPair)
    → has_pair r rs ≡ true
    → (in_ranges p rs || in_range p r) ≡ in_ranges p rs
unfolding has_pair same_pair
in_ranges-has_pair p r [] h = ground (arith, h)
in_ranges-has_pair p r (s ∷ rs) h = elim (Bool-cases (same_pair s r)) [
  | inl e ↦ ground (arith, e)
  | inr e ↦ ground (arith, e, h, in_ranges-has_pair p r rs)
]

-- In a list whose raw list is up to date if it is marked so, the raw list has a port exactly when
-- it is one of the single ports or in one of the ranges; and so it has in the list that adding a
-- port makes, and in the one that adding a range of two ports at least makes. These have the ports of
-- before, and the port, or the range's, and are up to date.
pub get_raw_list-add_port :
    (l : RPortList) (port start end p : ℕ)
    → IsCurrent l
    → start < end
    → (mem p (get_raw_list l).1 ≡ covered p l)
      × (mem p (get_raw_list (add_port16 l port)).1 ≡ (covered p l || port == p))
      × IsCurrent (add_port16 l port)
      × IsCurrent (add_port_range l start end)
      × (mem p (get_raw_list (add_port_range l start end)).1
          ≡ (covered p l || leb start p && leb p end))
unfolding add_port16 add_port_range
get_raw_list-add_port l port start end p c order =
    let r : PortPair = record { source = start; dest = end } in
    let l1 = add_port16 l port in
    let l2 : RPortList = record l { valid = false; valentines = l.valentines ++ (r ∷ []) } in
    let (current, has) : IsCurrent (add_port_range l start end)
        × (mem p (get_raw_list (add_port_range l start end)).1
            ≡ (covered p l || leb start p && leb p end)) =
      elim (Bool-cases (has_pair r l.valentines)) [
        | inl e ↦
            let same : add_port_range l start end ≡ l = ground (arith, e) in
            (
              subst IsCurrent (sym same) c,
              ap (λ x. mem p (get_raw_list x).1) same
                  ∙ mem-get_raw_list l p c
                  ∙ ground (arith, in_ranges-has_pair p r l.valentines e),
            )
        | inr e ↦
            let more : add_port_range l start end ≡ l2 = ground (arith, e, order) in
            (
              subst IsCurrent (sym more) tt,
              ap (λ x. mem p (get_raw_list x).1) more
                  ∙ mem-get_raw_list l2 p tt
                  ∙ ground (arith, in_ranges-append p l.valentines (r ∷ [])),
            )
      ] in
    (
      mem-get_raw_list l p c,
      mem-get_raw_list l1 p tt ∙ ground (arith, mem-append p l.single_ones (port ∷ [])),
      tt,
      current,
      has,
    )

-- A list that has given its raw list gives the same again after it was read from a text, whatever
-- the text is.
pub get_raw_list-from_string :
    (l : RPortList) (s : List ℕ)
    → (get_raw_list (from_string (get_raw_list l).0 s).0).1 ≡ (get_raw_list l).1
unfolding get_raw_list from_string rebuild
get_raw_list-from_string l s = elim (Bool-cases l.valid) [
  | inl e ↦ ground (arith, e)
  | inr e ↦ ground (arith, e)
]
