-- ===== src/Conn/KeepAlive/Counts.antt =====
-- One key's view of the flushes: how the count of its request goes up, until it is
-- dropped.
use rsock.Base.{ℕ, ◌≡◌, sym, ap, subst, ◌∙◌, true, List, [], ◌∷◌, ◌++◌, arith}
use rsock.Conn.NetGroup.{NetConn, NetGroup}
use rsock.Conn.KeepAlive.{
  ReqMap, has_conn, remove_invalid_request, can_send_request, flush_conns, on_flush,
}
use rsock.Conn.KeepAlive.Requests.{
  counts, AtMostOne, up, AtMostOne-up, NoneOf, counts-flush, counts-remove_invalid_request,
}
use rsock.Conn.KeepAlive.Timeouts.{below, AllDead, Dropped-flush_timeouts, timeouts_step}

module _ (k : ℕ) where
  -- A key whose connection has been used and is due, and that is in the group once.
  pub record IsDue (m : ReqMap) (g : NetGroup) (now : ℕ) : Type 0 where
    pub pre : List (List ℕ × NetConn)
    pub post : List (List ℕ × NetConn)
    pub entry : List ℕ × NetConn
    pub conns : g.conns ≡ pre ++ entry ∷ post
    pub key : entry.1.int_key ≡ k
    pub before : NoneOf k pre
    pub after : NoneOf k post
    pub has : has_conn g k ≡ true
    pub can : can_send_request entry.1 now ≡ true
    pub one : AtMostOne (counts k m)

  flush_up :
      (m : ReqMap) (g : NetGroup) (now : ℕ)
      → IsDue m g now
      → counts k (flush_conns now (remove_invalid_request m g) g.conns).0 ≡ up (counts k m)
  flush_up m g now d =
      let valid = remove_invalid_request m g in
      let same = counts-remove_invalid_request k g m d.has in
      ap (λ conns. counts k (flush_conns now valid conns).0) d.conns
      ∙ counts-flush k now valid d.pre d.post d.entry d.can d.key d.before d.after
          (subst AtMostOne (sym same) d.one)
      ∙ ap up same

  -- One flush while the host is online: for a connection that has been used, whose keep-alive is due
  -- and that is in the group once, the count of unanswered requests goes from none to 0, 1 and 2, and
  -- is dropped by the flush after that.
  pub counts-on_flush :
      (m : ReqMap) (g : NetGroup) (now : ℕ)
      → IsDue m g now
      → counts k (on_flush true m g now).0 ≡ below (up (counts k m))
  unfolding on_flush
  counts-on_flush m g now d =
      let counted = (flush_conns now (remove_invalid_request m g) g.conns).0 in
      timeouts_step k counted g
        (subst AtMostOne (sym (flush_up m g now d)) (AtMostOne-up (counts k m)))
      ∙ ap below (flush_up m g now d)

  -- When the count of such a connection is 2 at a flush while the host is online, every TCP
  -- connection of its key is dead afterwards, and the request is dropped. Such a connection has been used, its
  -- keep-alive is due, and it is in the group once.
  pub on_flush-Dropped :
      (m : ReqMap) (g : NetGroup) (now : ℕ)
      → IsDue m g now
      → counts k m ≡ 2 ∷ []
      → (counts k (on_flush true m g now).0 ≡ []) × AllDead k (on_flush true m g now).1.conns
  unfolding on_flush
  on_flush-Dropped m g now d two =
      let counted = (flush_conns now (remove_invalid_request m g) g.conns).0 in
      Dropped-flush_timeouts k counted counted g 3 (flush_up m g now d ∙ ap up two) (omega arith)
