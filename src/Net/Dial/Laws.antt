-- ===== src/Net/Dial/Laws.antt =====
-- What holds of the dials.
use rsock.Base.{
  ℕ, ◌+◌, ◌<◌, ◌≤◌, ◌≡◌, ◌≢◌, refl, ◌⊎◌, Bool, true, false, ◌&&◌, ◌-◌, ◌==◌, leb, if◌then◌else◌,
  List, [], ◌∷◌, ◌++◌, arith,
}
use rsock.Wire.ConnInfo.{ConnInfo}
use rsock.Net.Dial.{DialHelper, dial_failed, flush_one, flush_pending}

-- A dial is retried after 1 s to 60 s.
abbrev pub Backoff : DialHelper → Type 0
Backoff h = (1000 ≤ h.duration_ms) × (h.duration_ms ≤ 60000)

abbrev pub AllBackoff : List DialHelper → Type 0
AllBackoff [] = Unit {0}
AllBackoff (h ∷ pending) = Backoff h × AllBackoff pending

-- It runs, or it is to be tried within a minute from `now`, but not at once.
abbrev pub Waits : ℕ → DialHelper → Type 0
Waits now h = (h.req ≢ 0) ⊎ (now < h.next_retry_ms)

-- It has tries left.
abbrev pub AllLeft : List DialHelper → Type 0
AllLeft [] = Unit {0}
AllLeft (h ∷ pending) = (0 < h.n_retry) × AllLeft pending

-- After a failure at `now` the delay is still between 1 s and 60 s, and the next try is so much
-- later than `now`.
dial_failed-Backoff :
    (h : DialHelper) (now : ℕ)
    → Backoff h
    → Backoff (dial_failed h now)
      × (now + 1000 ≤ (dial_failed h now).next_retry_ms)
      × ((dial_failed h now).next_retry_ms ≤ now + 60000)
unfolding dial_failed
dial_failed-Backoff h now b = ground (arith, b.0, b.1)

flush_one-Waits :
    (connect_tcp : ConnInfo → ℕ) (now : ℕ) (h : DialHelper)
    → Backoff h
    → Backoff (flush_one connect_tcp now h) × Waits now (flush_one connect_tcp now h)
unfolding flush_one
flush_one-Waits connect_tcp now h b = ground (arith, b.0, b.1, dial_failed-Backoff h now b)

-- Whether a dial is due, and what its request is after a flush that tried it if it was.
abbrev pub is_due : ℕ → DialHelper → Bool
is_due now h = h.req == 0 && leb h.next_retry_ms now

abbrev pub tried : (ConnInfo → ℕ) → ℕ → DialHelper → ℕ
tried connect_tcp now h = if is_due now h then connect_tcp h.info else h.req

-- The tries left: one less where a dial was due and its connect failed.
abbrev pub tries : (ConnInfo → ℕ) → ℕ → DialHelper → ℕ
tries connect_tcp now h =
    if is_due now h && (connect_tcp h.info == 0) then h.n_retry - 1 else h.n_retry

-- The dial after a flush beside the one before.
abbrev pub IsTried : (ConnInfo → ℕ) → ℕ → DialHelper → DialHelper → Type 0
IsTried connect_tcp now h h' =
    (h'.info ≡ h.info)
    × (h'.req ≡ tried connect_tcp now h)
    × (h'.n_retry ≡ tries connect_tcp now h)
    × Backoff h'
    × Waits now h'

abbrev pub AllTried : (ConnInfo → ℕ) → ℕ → List DialHelper → List DialHelper → Type 0
AllTried connect_tcp now [] [] = Unit {0}
AllTried connect_tcp now [] (h' ∷ left) = false ≡ true
AllTried connect_tcp now (h ∷ pending) [] = false ≡ true
AllTried connect_tcp now (h ∷ pending) (h' ∷ left) =
    IsTried connect_tcp now h h' × AllTried connect_tcp now pending left

flush_one-IsTried :
    (connect_tcp : ConnInfo → ℕ) (now : ℕ) (h : DialHelper)
    → Backoff h
    → IsTried connect_tcp now h (flush_one connect_tcp now h)
unfolding flush_one dial_failed
flush_one-IsTried connect_tcp now h b =
    let (one, wait) = flush_one-Waits connect_tcp now h b in
    (ground arith, ground arith, ground arith, one, wait)

-- A flush while the network is up, of dials with tries left, gives none up. It keeps them in their
-- order: of each that was due its connect was called, whose request it has then, with one try less
-- where that failed; the others have the request and the tries they had. Each has a request running
-- or is to be tried later, and the delays stay between 1 s and 60 s.
pub flush_pending-AllTried :
    (connect_tcp : ConnInfo → ℕ) (now : ℕ) (pending : List DialHelper)
    → AllBackoff pending
    → AllLeft pending
    → AllTried connect_tcp now pending (flush_pending connect_tcp true now pending).0
      × ((flush_pending connect_tcp true now pending).1 ≡ [])
unfolding flush_pending
flush_pending-AllTried connect_tcp now [] b l = (tt, refl)
flush_pending-AllTried connect_tcp now (h ∷ pending) b l =
    let (rest, none_failed) = flush_pending-AllTried connect_tcp now pending b.1 l.1 in
    let one = flush_one-IsTried connect_tcp now h b.0 in ground (arith, rest, none_failed, one, l.0)

-- While the network is up the dials are flushed one by one.
pub flush_pending-append :
    (connect_tcp : ConnInfo → ℕ) (now : ℕ) (p q : List DialHelper)
    → (flush_pending connect_tcp true now (p ++ q)).0
      ≡ (flush_pending connect_tcp true now p).0 ++ (flush_pending connect_tcp true now q).0
unfolding flush_pending
flush_pending-append connect_tcp now [] q = refl
flush_pending-append connect_tcp now (h ∷ p) q =
    ground (arith, flush_pending-append connect_tcp now p q)

-- A dial that is due gets its request.
pub flush_pending_due :
    (connect_tcp : ConnInfo → ℕ) (now : ℕ) (h : DialHelper)
    → h.req ≡ 0
    → 0 < h.n_retry
    → h.next_retry_ms ≤ now
    → connect_tcp h.info ≢ 0
    → (flush_pending connect_tcp true now (h ∷ [])).0 ≡ record h { req = connect_tcp h.info } ∷ []
unfolding flush_pending flush_one
flush_pending_due connect_tcp now h idle left due gives = ground arith
