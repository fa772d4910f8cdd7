-- ===== src/Conn/KeepAlive/Requests.antt =====
-- One key's view of the first loop of a flush: how the count of its request goes up.
use rsock.Base.{
  ℕ, ◌+◌, ◌≡◌, ◌≢◌, refl, sym, ap, subst, ◌∙◌, inl, inr, ◌⊎◌, Bool, Bool-cases, if_intro, true,
  false, none, some, List, [], ◌∷◌, ◌++◌, arith, if◌then◌else◌, ltb, ◌==◌, find, insert_new, assign,
  erase,
}
use rsock.Conn.NetGroup.{NetConn, NetGroup, same_key}
use rsock.Conn.KeepAlive.{
  ReqMap, has_conn, max_retry, remove_invalid_request, can_send_request, count_request, flush_conn,
  flush_conns,
}

-- The counts that a map holds under a key: a `std::map` holds one at most.
abbrev pub counts : ℕ → ReqMap → List ℕ
counts k [] = []
counts k (p ∷ m) = let rest = counts k m in if k == p.0 then p.1 ∷ rest else rest

pub true-false : true ≡ false → ⊥
true-false h = cc

-- A list of one element at most is empty or has one.
abbrev pub AtMostOne : List ℕ → Type 0
AtMostOne [] = Unit {0}
AtMostOne (n ∷ ns) = ns ≡ []

pub counts_cases : (l : List ℕ) → AtMostOne l → (l ≡ []) ⊎ ((n : ℕ) × (l ≡ n ∷ []))
counts_cases [] h = inl refl
counts_cases (n ∷ ns) h = inr (n, ap (λ t. n ∷ t) h)

-- The count of a key goes up from none to 0, 1 and so on.
abbrev pub up : List ℕ → List ℕ
up [] = 0 ∷ []
up (n ∷ ns) = (n + 1) ∷ []

pub AtMostOne-up : (l : List ℕ) → AtMostOne (up l)
AtMostOne-up [] = refl
AtMostOne-up (n ∷ ns) = refl

module _ (k : ℕ) where
  pub counts-insert_new :
      (j v : ℕ) (m : ReqMap) → k ≢ j → counts k (insert_new same_key j v m) ≡ counts k m
  unfolding insert_new
  counts-insert_new j v [] h = ground (arith, h)
  counts-insert_new j v (p ∷ m) h = ground (arith, h, counts-insert_new j v m h)

  pub counts-assign : (j v : ℕ) (m : ReqMap) → k ≢ j → counts k (assign same_key j v m) ≡ counts k m
  unfolding assign
  counts-assign j v [] h = ground (arith, h)
  counts-assign j v (p ∷ m) h = ground (arith, h, counts-assign j v m h)

  pub counts-erase : (j : ℕ) (m : ReqMap) → k ≢ j → counts k (erase same_key j m) ≡ counts k m
  unfolding erase
  counts-erase j [] h = refl
  counts-erase j (p ∷ m) h = ground (arith, h, counts-erase j m h)

  pub counts-erase_self : (m : ReqMap) → counts k (erase same_key k m) ≡ []
  unfolding erase
  counts-erase_self [] = refl
  counts-erase_self (p ∷ m) = ground (arith, counts-erase_self m)

  pub counts-erase_none :
      (j : ℕ) (m : ReqMap) → counts k m ≡ [] → counts k (erase same_key j m) ≡ []
  unfolding erase
  counts-erase_none j [] h = refl
  counts-erase_none j (p ∷ m) h = ground (arith, h, counts-erase_none j m)

  -- A key that is not there is inserted.
  pub insert-none :
      (m : ReqMap)
      → counts k m ≡ []
      → (find same_key k m ≡ none) × (counts k (insert_new same_key k 0 m) ≡ 0 ∷ [])
  unfolding find insert_new
  insert-none [] h = ground arith
  insert-none (p ∷ m) h = ground (arith, h, insert-none m)

  pub assign-some :
      (n v : ℕ) (m : ReqMap)
      → counts k m ≡ n ∷ []
      → (find same_key k m ≡ some (k, n)) × (counts k (assign same_key k v m) ≡ v ∷ [])
  unfolding find assign
  assign-some n v [] h = ground (arith, h)
  assign-some n v (p ∷ m) h = ground (arith, h, assign-some n v m)

  pub counts-remove_invalid_request :
      (g : NetGroup) (m : ReqMap)
      → has_conn g k ≡ true
      → counts k (remove_invalid_request m g) ≡ counts k m
  unfolding remove_invalid_request
  counts-remove_invalid_request g [] h = refl
  counts-remove_invalid_request g (p ∷ m) h = elim (Bool-cases (has_conn g p.0)) [
    | inl e ↦ ground (arith, e, counts-remove_invalid_request g m h)
    | inr e ↦ ground (arith, e, differ p.0 e, counts-remove_invalid_request g m h)
  ]
    where
      differ : (j : ℕ) → has_conn g j ≡ false → k ≢ j
      differ j e q = true-false (sym (subst (λ i. has_conn g i ≡ true) q h) ∙ e)

  pub counts-flush_conn_other :
      (now : ℕ) (m : ReqMap) (c : NetConn)
      → k ≢ c.int_key
      → counts k (flush_conn now m c).0 ≡ counts k m
  unfolding flush_conn count_request
  counts-flush_conn_other now m c h =
      if_intro (λ (r : ReqMap × Bool). counts k r.0 ≡ counts k m) (can_send_request c now) _ _
        (elim (find same_key c.int_key m)
          as (λ o.
            counts k
              (elim o as (λ _. ReqMap × Bool) [
                | none ↦ (insert_new same_key c.int_key 0 m, true)
                | some p ↦ (assign same_key c.int_key (p.1 + 1) m, ltb (p.1 + 1) max_retry)
              ]).0
            ≡ counts k m) [
              | none ↦ counts-insert_new c.int_key 0 m h
              | some p ↦ counts-assign c.int_key (p.1 + 1) m h
            ])
        refl

  -- No connection of the list has the key.
  abbrev pub NoneOf : List (List ℕ × NetConn) → Type 0
  NoneOf [] = Unit {0}
  NoneOf (e ∷ conns) = (k ≢ e.1.int_key) × NoneOf conns

  pub counts-flush_other :
      (now : ℕ) (m : ReqMap) (conns : List (List ℕ × NetConn))
      → NoneOf conns
      → counts k (flush_conns now m conns).0 ≡ counts k m
  unfolding flush_conns
  counts-flush_other now m [] h = refl
  counts-flush_other now m (e ∷ conns) h =
      counts-flush_other now (flush_conn now m e.1).0 conns h.1
      ∙ counts-flush_conn_other now m e.1 h.0

  pub counts-count_request :
      (m : ReqMap) → AtMostOne (counts k m) → counts k (count_request m k).0 ≡ up (counts k m)
  unfolding count_request
  counts-count_request m one = elim (counts_cases (counts k m) one) [
    | inl e ↦ ground (arith, e, insert-none m e)
    | inr (n, e) ↦ ground (arith, e, assign-some n (n + 1) m e)
  ]

  pub counts-flush_conn :
      (now : ℕ) (m : ReqMap) (c : NetConn)
      → can_send_request c now ≡ true
      → c.int_key ≡ k
      → AtMostOne (counts k m)
      → counts k (flush_conn now m c).0 ≡ up (counts k m)
  unfolding flush_conn
  counts-flush_conn now m c can key one =
      ap (λ (b : Bool). counts k (if b then count_request m c.int_key else (m, false)).0) can
      ∙ ap (λ j. counts k (count_request m j).0) key
      ∙ counts-count_request m one

  -- In a list with one connection of the key, which may be asked.
  pub counts-flush :
      (now : ℕ) (m : ReqMap) (pre post : List (List ℕ × NetConn)) (e : List ℕ × NetConn)
      → can_send_request e.1 now ≡ true
      → e.1.int_key ≡ k
      → NoneOf pre
      → NoneOf post
      → AtMostOne (counts k m)
      → counts k (flush_conns now m (pre ++ e ∷ post)).0 ≡ up (counts k m)
  unfolding flush_conns
  counts-flush now m [] post e can key before after one =
      counts-flush_other now (flush_conn now m e.1).0 post after
      ∙ counts-flush_conn now m e.1 can key one
  counts-flush now m (d ∷ pre) post e can key before after one =
      let same = counts-flush_conn_other now m d.1 before.0 in
      counts-flush now (flush_conn now m d.1).0 pre post e can key before.1 after
        (subst AtMostOne (sym same) one)
      ∙ ap up same
