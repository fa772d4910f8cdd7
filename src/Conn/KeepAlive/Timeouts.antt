-- ===== src/Conn/KeepAlive/Timeouts.antt =====
-- One key's view of the second loop of a flush: a count below 3 is left, and another is dropped.
use rsock.Base.{
  ℕ, ◌<◌, ◌≤◌, ◌≡◌, ◌≢◌, refl, sym, ap, subst, ◌∙◌, inl, inr, Bool, Bool-cases, if_intro, true,
  false, dec_le, ℕ_discrete, List, [], ◌∷◌, arith, if◌then◌else◌, leb, map,
}
use rsock.Conn.NetGroup.{NetConn, NetGroup}
use rsock.Conn.KeepAlive.{
  ReqMap, max_retry, remove_request, with_err, on_net_conn_dead, flush_timeouts,
}
use rsock.Conn.KeepAlive.Requests.{
  counts, AtMostOne, counts_cases, counts-erase, counts-erase_none, counts-erase_self,
}

-- What becomes of a count then.
abbrev pub below : List ℕ → List ℕ
below [] = []
below (n ∷ ns) = if leb max_retry n then [] else n ∷ ns

module _ (k : ℕ) where
  -- In the second loop a count below 3 is left, and another is dropped.
  pub counts-flush_timeouts_none :
      (copy m : ReqMap) (g : NetGroup) → counts k m ≡ [] → counts k (flush_timeouts copy m g).0 ≡ []
  unfolding flush_timeouts
  counts-flush_timeouts_none [] m g h = h
  counts-flush_timeouts_none (p ∷ copy) m g h =
      if_intro (λ (r : ReqMap × NetGroup). counts k r.0 ≡ []) (leb max_retry p.1) _ _
        (counts-flush_timeouts_none copy (remove_request m p.0) (on_net_conn_dead g p.0)
          (counts-erase_none k p.0 m h))
        (counts-flush_timeouts_none copy m g h)

  -- Every TCP connection of the key is dead.
  abbrev pub AllDead : {K : Type 0} → List (K × NetConn) → Type 0
  AllDead [] = Unit {0}
  AllDead (p ∷ conns) = (p.1.int_key ≡ k → p.1.is_udp ≡ false → p.1.alive ≡ false) × AllDead conns

  pub AllDead-with_err :
      {K : Type 0} (conns : List (K × NetConn)) → AllDead (map (λ p. (p.0, with_err k p.1)) conns)
  AllDead-with_err [] = tt
  AllDead-with_err (p ∷ conns) = ((λ e u. ground (arith, e, u)), AllDead-with_err conns)

  pub AllDead-keep :
      {K : Type 0} (j : ℕ) (conns : List (K × NetConn))
      → AllDead conns
      → AllDead (map (λ p. (p.0, with_err j p.1)) conns)
  AllDead-keep j [] h = tt
  AllDead-keep j (p ∷ conns) h = ((λ e u. ground (arith, e, u, h.0)), AllDead-keep j conns h.1)

  pub AllDead-flush_timeouts :
      (copy m : ReqMap) (g : NetGroup) → AllDead g.conns → AllDead (flush_timeouts copy m g).1.conns
  unfolding flush_timeouts on_net_conn_dead
  AllDead-flush_timeouts [] m g h = h
  AllDead-flush_timeouts (p ∷ copy) m g h =
      if_intro (λ (r : ReqMap × NetGroup). AllDead r.1.conns) (leb max_retry p.1) _ _
        (AllDead-flush_timeouts copy (remove_request m p.0) (on_net_conn_dead g p.0)
          (AllDead-keep p.0 g.conns h))
        (AllDead-flush_timeouts copy m g h)

  abbrev pub AllBelow : List ℕ → Type 0
  AllBelow [] = Unit {0}
  AllBelow (n ∷ ns) = (n < 3) × AllBelow ns

  pub counts-flush_timeouts_below :
      (copy m : ReqMap) (g : NetGroup)
      → AllBelow (counts k copy)
      → counts k (flush_timeouts copy m g).0 ≡ counts k m
  unfolding flush_timeouts
  counts-flush_timeouts_below [] m g h = refl
  counts-flush_timeouts_below (p ∷ copy) m g h = elim (Bool-cases (leb max_retry p.1)) [
    | inl e ↦
        let differ : k ≢ p.0 = ground (arith, e, h) in
        let later : AllBelow (counts k copy) = ground (arith, e, h) in
        ap
          (λ (b : Bool).
            counts k
              (if b
                then flush_timeouts copy (remove_request m p.0) (on_net_conn_dead g p.0)
                else flush_timeouts copy m g).0)
          e
        ∙ counts-flush_timeouts_below copy (remove_request m p.0) (on_net_conn_dead g p.0) later
        ∙ counts-erase k p.0 m differ
    | inr e ↦
        let later : AllBelow (counts k copy) = ground (arith, e, h) in
        ap
          (λ (b : Bool).
            counts k
              (if b
                then flush_timeouts copy (remove_request m p.0) (on_net_conn_dead g p.0)
                else flush_timeouts copy m g).0)
          e
        ∙ counts-flush_timeouts_below copy m g later
  ]

  -- The key is dropped, and its TCP connections are dead.
  abbrev pub Dropped : ReqMap × NetGroup → Type 0
  Dropped r = (counts k r.0 ≡ []) × AllDead r.1.conns

  pub Dropped-flush_timeouts :
      (copy m : ReqMap) (g : NetGroup) (n : ℕ)
      → counts k copy ≡ n ∷ []
      → 3 ≤ n
      → Dropped (flush_timeouts copy m g)
  unfolding flush_timeouts on_net_conn_dead
  Dropped-flush_timeouts [] m g n e l = ground (arith, e)
  Dropped-flush_timeouts (p ∷ copy) m g n e l = elim (ℕ_discrete k p.0) [
    | yes q ↦
        let hit : leb max_retry p.1 ≡ true = ground (arith, e, q, l) in
        subst
          (λ (b : Bool). Dropped (
            if b
            then flush_timeouts copy (remove_request m p.0) (on_net_conn_dead g p.0)
            else flush_timeouts copy m g))
          (sym hit)
          (
            counts-flush_timeouts_none copy (remove_request m p.0) (on_net_conn_dead g p.0)
                (subst (λ j. counts k (remove_request m j) ≡ []) q (counts-erase_self k m)),
            AllDead-flush_timeouts copy (remove_request m p.0) (on_net_conn_dead g p.0) (
                subst (λ j. AllDead (map (λ (c : List ℕ × NetConn). (c.0, with_err j c.1)) g.conns))
                  q (AllDead-with_err g.conns)),
          )
    | no q ↦
        if_intro Dropped (leb max_retry p.1) _ _
          (Dropped-flush_timeouts copy (remove_request m p.0) (on_net_conn_dead g p.0) n
            (ground (arith, e, q)) l)
          (Dropped-flush_timeouts copy m g n (ground (arith, e, q)) l)
  ]

  -- Both loops: a count that reaches 3 is dropped.
  pub timeouts_step :
      (m : ReqMap) (g : NetGroup)
      → AtMostOne (counts k m)
      → counts k (flush_timeouts m m g).0 ≡ below (counts k m)
  timeouts_step m g one = elim (counts_cases (counts k m) one) [
    | inl e ↦ ground (arith, e, counts-flush_timeouts_none m m g e)
    | inr (n, e) ↦ elim (dec_le 3 n) [
      | yes l ↦ let dropped = Dropped-flush_timeouts m m g n e l in ground (arith, e, l, dropped.0)
      | no l ↦
          let kept = counts-flush_timeouts_below m m g (subst AllBelow (sym e) (omega arith, tt)) in
          ground (arith, e, l, kept)
    ]
  ]
