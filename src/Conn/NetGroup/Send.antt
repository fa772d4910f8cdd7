-- ===== src/Conn/NetGroup/Send.antt =====
-- What `doSend` does: it drops the dead connections that it comes upon, and sends over a live one.
use native.Mathlib.Nat.{mod-lt}
use rsock.Wire.KeyGenerator.{str_for_int_key}
use rsock.Base.{
  ℕ, zero, suc, ◌%◌, ◌<◌, ◌≤◌, ◌≡◌, ◌≢◌, refl, sym, ap, subst, ◌∙◌, inl, inr, Bool, Bool-cases,
  true, false, not, ◌&&◌, Option, Option-cases, ◌⊎◌, none, some, ◌>>=◌, List, [], ◌∷◌, arith, ◌==◌,
  if◌then◌else◌, length, get_elem?, map,
}
use rsock.Runtime.Handler.{remove_message}
use rsock.Conn.NetGroup.{
  NetConn, NetGroup, Sent, sent_by, err_no_conn, undecided, child_conn_err_cb, do_send, send_over,
  conn_err, send_by, with_sent,
}
use rsock.Conn.NetGroup.Keyed.{keyed, without, length-without_lt}
use rsock.Conn.NetGroup.Keys.{Holds, string_key, remove_conn_lem}
use rsock.Conn.NetGroup.AfterSend.{after_sent, keyed-after_sent, get_elem?-with_sent}
use rsock.Conn.NetGroup.Posting.{has_callback, callback-remove, send_total}

-- Where a pick below the number of connections finds none, there is none.
pick_none :
    {A : Type 0} (l : List A) (i : ℕ)
    → (0 < length l → i < length l)
    → get_elem? l i ≡ none
    → l ≡ []
pick_none [] i lt e = refl
pick_none (x ∷ l) zero lt e = ground (arith, e)
pick_none (x ∷ []) (suc i) lt e = ground (arith, lt (omega arith))
pick_none (x ∷ y ∷ l) (suc i) lt e =
    ground (arith, pick_none (y ∷ l) i (λ h. ground (arith, lt (omega arith))) e)

abbrev pub is_decided : Sent → Bool
is_decided (sent_by c) = true
is_decided err_no_conn = true
is_decided undecided = false

-- What holds of a group between two calls.
pub record Ready (cs : List NetConn) (g : NetGroup) : Type 0 where
  pub holds : Holds cs g
  pub callback : g.handler.has_callback ≡ true

pub child_conn_err_cb_lem :
    (cs : List NetConn) (g : NetGroup) (c : NetConn) (now : ℕ)
    → Ready cs g
    → (g' : NetGroup) × (child_conn_err_cb g c now ≡ some g') × Ready (without c.int_key cs) g'
unfolding child_conn_err_cb has_callback
child_conn_err_cb_lem cs g c now v =
    let (g', removed, holds, same) = remove_conn_lem cs g c v.holds in
    let (h, sent, sends, cb) =
      send_total (remove_message g'.handler (conn_err g c)).0 (conn_err g c) 0 now
        (callback-remove g'.handler (conn_err g c) ∙ ap has_callback same ∙ v.callback) in
    (
      record g' { handler = h },
      simp (removed, sends) refl,
      record {
        holds = record { by_string = holds.by_string; by_number = holds.by_number };
        callback = cb;
      },
    )

-- How a call may end: over a live connection of the group, which has not the key that it spares and
-- is not new then, or because the group has none left.
abbrev pub SentWell : ℕ → NetGroup → Sent → Type 0
SentWell key g (sent_by c) =
    (c.alive ≡ true)
    × (¬ ((key ≢ 0) × (c.int_key ≡ key)))
    × (c.is_new ≡ false)
    × ((i : ℕ) × (get_elem? g.conns i ≡ some (str_for_int_key c.int_key, c)))
SentWell key g err_no_conn = g.conns ≡ []
SentWell key g undecided = Unit {0}

get_elem?-keyed :
    (cs : List NetConn) (i : ℕ) (p : List ℕ × NetConn)
    → get_elem? (map (keyed (string_key)) cs) i ≡ some p
    → (get_elem? cs i ≡ some p.1) × (p ≡ (str_for_int_key p.1.int_key, p.1))
get_elem?-keyed [] i p h = ground (arith, h)
get_elem?-keyed (c ∷ cs) zero p h = ground (arith, h)
get_elem?-keyed (c ∷ cs) (suc i) p h = get_elem?-keyed cs i p h

-- How a call with `n` connections and `m` values of `rand()` ends.
abbrev Ends : ℕ → ℕ → ℕ → Option (NetGroup × Sent) → Type 0
Ends key n m x =
    (g' : NetGroup) × (o : Sent) × (cs' : List NetConn) × (x ≡ some (g', o))
    × Ready cs' g'
    × SentWell key g' o
    × ((key ≡ 0) → n ≤ m → is_decided o ≡ true)

Ends-mono :
    (key n m n' m' : ℕ) (x : Option (NetGroup × Sent))
    → (n' ≤ m' → n ≤ m ⊎ ((key ≡ 0) → ⊥))
    → Ends key n m x
    → Ends key n' m' x
Ends-mono key n m n' m' x f (g', o, cs', e, v, w, d) =
    (g', o, cs', e, v, w, λ z l. elim (f l) [ inl k ↦ d z k | inr k ↦ absurd (k z) ])

-- The round that sends.
send_by-Ends :
    (send : NetConn → ℕ) (cs : List NetConn) (g : NetGroup) (key m i : ℕ) (p : List ℕ × NetConn)
    → Ready cs g
    → get_elem? g.conns i ≡ some p
    → p ≡ (str_for_int_key p.1.int_key, p.1)
    → p.1.alive ≡ true
    → ¬ ((key ≢ 0) × (p.1.int_key ≡ key))
    → Ends key (length cs) m (some (send_by send g p.1))
unfolding send_by
send_by-Ends send cs g key m i p v h form live other =
    let used : (p.0, with_sent p.1.int_key p.1)
        ≡ (str_for_int_key p.1.int_key, record p.1 { is_new = false }) =
      ground (arith, ap (λ q. q.0) form) in
    (
      (send_by send g p.1).0,
      (send_by send g p.1).1,
      after_sent p.1.int_key cs,
      refl,
      record {
        holds = record {
          by_string =
              ap (λ l. map (λ (q : List ℕ × NetConn). (q.0, with_sent p.1.int_key q.1)) l)
                v.holds.by_string
              ∙ keyed-after_sent str_for_int_key p.1.int_key cs;
          by_number =
              ap (λ l. map (λ (q : ℕ × NetConn). (q.0, with_sent p.1.int_key q.1)) l)
                v.holds.by_number
              ∙ keyed-after_sent (λ k. k) p.1.int_key cs;
        };
        callback = v.callback;
      },
      (
        live,
        other,
        refl,
        (i, get_elem?-with_sent p.1.int_key g.conns i p h ∙ ap (λ q. some q) used),
      ),
      λ z l. refl,
    )

module _ (send : NetConn → ℕ) (removed : NetConn → Option (NetGroup × Sent))
    (spared : Option (NetGroup × Sent)) (cs : List NetConn) (g : NetGroup) (key m i : ℕ)
    (v : Ready cs g)
    (dropped : (c : NetConn)
      → get_elem? cs i ≡ some c
      → Ends key (length (without c.int_key cs)) m (removed c))
    (kept : Ends key (length cs) m spared) where
  -- A round over a connection that is live.
  live_Ends :
      (p : List ℕ × NetConn)
      → get_elem? g.conns i ≡ some p
      → p ≡ (str_for_int_key p.1.int_key, p.1)
      → p.1.alive ≡ true
      → Ends key
          (length cs)
          (suc m)
          (if not (key == 0) && (p.1.int_key == key) then spared else some (send_by send g p.1))
  live_Ends p h form live = elim (Bool-cases (not (key == 0) && (p.1.int_key == key))) [
    | inl e ↦
        subst (λ b. Ends key (length cs) (suc m) (if b then spared else some (send_by send g p.1)))
          (sym e)
          (Ends-mono key (length cs) m (length cs) (suc m) spared
            (λ l. inr (λ z. ground (arith, e, z))) kept)
    | inr e ↦
        subst (λ b. Ends key (length cs) (suc m) (if b then spared else some (send_by send g p.1)))
          (sym e)
          (send_by-Ends send cs g key (suc m) i p v h form live (λ k. k.0 (ground (arith, e, k.1))))
  ]

  send_over-Ends :
      (o : Option (List ℕ × NetConn))
      → get_elem? g.conns i ≡ o
      → (get_elem? g.conns i ≡ none → g.conns ≡ [])
      → Ends key (length cs) (suc m) (send_over send removed spared g key o)
  unfolding send_over
  send_over-Ends none h empty = (g, err_no_conn, cs, refl, v, empty h, λ z l. refl)
  send_over-Ends (some p) h empty =
      let (at, form) =
        get_elem?-keyed cs i p (ap (λ l. get_elem? l i) (sym v.holds.by_string) ∙ h) in
      elim (Bool-cases p.1.alive) [
        | inl e ↦
            subst
              (λ b. Ends key (length cs) (suc m) (
                if not b
                then removed p.1
                else if not (key == 0) && (p.1.int_key == key)
                then spared
                else some (send_by send g p.1)))
              (sym e) (live_Ends p h form e)
        | inr e ↦
            subst
              (λ b. Ends key (length cs) (suc m) (
                if not b
                then removed p.1
                else if not (key == 0) && (p.1.int_key == key)
                then spared
                else some (send_by send g p.1)))
              (sym e)
              (Ends-mono key (length (without p.1.int_key cs)) m (length cs) (suc m) (removed p.1)
                (λ l. inl (omega (arith, length-without_lt i p.1 cs at))) (dropped p.1 at))
      ]

-- A group of no connections has none to pick.
no_pick :
    (cs : List NetConn) (g : NetGroup)
    → Ready cs g
    → (i : ℕ) {p : List ℕ × NetConn} → get_elem? g.conns i ≡ some p
    → ¬ (length cs ≤ 0)
no_pick cs g v i {p = p} e l =
    let (at, form) = get_elem?-keyed cs i p (ap (λ m. get_elem? m i) (sym v.holds.by_string) ∙ e) in
    omega (arith, length-without_lt i p.1 cs at)

-- Each round ends the call, removes a connection, or spares one.
do_send-Ends :
    (send : NetConn → ℕ) (rs : List ℕ) (cs : List NetConn) (g : NetGroup) (key now : ℕ)
    → Ready cs g
    → Ends key (length cs) (length rs) (do_send send rs g key now)
unfolding do_send
do_send-Ends send [] cs g key now v = elim (Option-cases (get_elem? g.conns 0)) [
  | inl e ↦ (g, err_no_conn, cs, rw e, v, pick_none g.conns 0 (omega arith) e, λ z l. refl)
  | inr (p, e) ↦ (g, undecided, cs, rw e, v, tt, λ z l. absurd (no_pick cs g v 0 e l))
]
do_send-Ends send (r ∷ rs) cs g key now v =
    send_over-Ends send _ (do_send send rs g key now) cs g key (length rs) (r % length g.conns) v
      (λ c at.
        let (g', e, v') = child_conn_err_cb_lem cs g c now v in
        subst
          (λ (x : Option NetGroup).
            Ends key (length (without c.int_key cs)) (length rs)
              (x >>= λ g'. do_send send rs g' key now))
          (sym e) (do_send-Ends send rs (without c.int_key cs) g' key now v'))
      (do_send-Ends send rs cs g key now v) (get_elem? g.conns (r % length g.conns)) refl
      (pick_none g.conns (r % length g.conns) (λ h. mod-lt r h))

-- In a group whose two maps agree and whose handler has its callback, `doSend` fails no assertion
-- and throws nothing, whatever `rand()` returns: it sends over a live connection of the group whose
-- key is not the one to spare, and which is not new then, or it finds that none is left, or it has used up the values of
-- `rand()`; the maps agree afterwards.
pub do_send_lem :
    (send : NetConn → ℕ) (rs : List ℕ) (cs : List NetConn) (g : NetGroup) (key now : ℕ)
    → Ready cs g
    → (g' : NetGroup) × (o : Sent) × (cs' : List NetConn) × (do_send send rs g key now
        ≡ some (g', o))
      × Ready cs' g'
      × SentWell key g' o
do_send_lem send rs cs g key now v =
    let (g', o, cs', e, v', w, d) = do_send-Ends send rs cs g key now v in (g', o, cs', e, v', w)

-- In a group whose two maps agree and whose handler has its callback, `Send`, which spares no key,
-- ends within as many rounds as there are connections, whatever `rand()` returns: over a live
-- connection of the group, or with none left.
pub do_send_ends :
    (send : NetConn → ℕ) (rs : List ℕ) (cs : List NetConn) (g : NetGroup) (now : ℕ)
    → Ready cs g
    → length cs ≤ length rs
    → (g' : NetGroup) × (o : Sent) × (do_send send rs g 0 now ≡ some (g', o))
      × SentWell 0 g' o
      × (is_decided o ≡ true)
do_send_ends send rs cs g now v l =
    let (g', o, cs', e, v', w, d) = do_send-Ends send rs cs g 0 now v in (g', o, e, w, d refl l)
