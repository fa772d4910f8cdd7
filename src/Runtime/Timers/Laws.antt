-- ===== src/Runtime/Timers/Laws.antt =====
-- What the timers promise.
use rsock.Base.{
  ℕ, zero, suc, ◌+◌, ◌<◌, ◌≤◌, ◌≡◌, refl, ap, ◌∙◌, inl, inr, Bool, Bool-cases, true, false, ◌&&◌,
  some, ◌>>=◌, [], ◌∷◌, ◌++◌, ltb, leb, ◌==◌, if◌then◌else◌, length, arith,
}
use rsock.Runtime.Expiry.{
  insert_sorted, IsSorted, NoneBefore, NoneBefore-le, NoneBefore-insert_sorted,
  IsSorted-insert_sorted,
}
use rsock.Runtime.Service.{Service, contains_observer}
use rsock.Runtime.Timers.{
  ExpireMap, due_at, taken, next_expire_ts, emplace, schedule, take_due, reschedule, flush_timers,
}

-- How many entries are at `ts` or later.
later_count : ℕ → ExpireMap → ℕ
later_count ts [] = 0
later_count ts (p ∷ m) = let rest = later_count ts m in if leb ts p.0 then rest + 1 else rest

later_count_le : (ts : ℕ) (m : ExpireMap) → later_count ts m ≤ length m
unfolding later_count
later_count_le ts [] = omega arith
later_count_le ts (p ∷ m) = ground (arith, later_count_le ts m)

later_count_mono : (ts : ℕ) (m : ExpireMap) → later_count (ts + 1) m ≤ later_count ts m
unfolding later_count
later_count_mono ts [] = omega arith
later_count_mono ts (p ∷ m) = ground (arith, later_count_mono ts m)

later_count-taken :
    (ts : ℕ) (m : ExpireMap) → taken ts m ≡ true → later_count (ts + 1) m < later_count ts m
unfolding later_count taken
later_count-taken ts [] h = ground (arith, h)
later_count-taken ts (p ∷ m) h = ground (arith, h, later_count-taken ts m, later_count_mono ts m)

next_expire_ts_free :
    (fuel : ℕ) (m : ExpireMap) (ts : ℕ)
    → later_count ts m ≤ fuel
    → (free : ℕ) × (next_expire_ts fuel m ts ≡ some free)
      × (taken free m ≡ false)
      × (ts ≤ free)
      × (free ≤ ts + fuel)
unfolding next_expire_ts
next_expire_ts_free zero m ts h = elim (Bool-cases (taken ts m)) [
  | inl e ↦ absurd (omega (arith, later_count-taken ts m e))
  | inr e ↦ (ts, ground (arith, e), e, omega arith, omega arith)
]
next_expire_ts_free (suc fuel) m ts h = elim (Bool-cases (taken ts m)) [
  | inl e ↦
      let (free, f, t, l, u) =
        next_expire_ts_free fuel m (ts + 1) (omega (arith, later_count-taken ts m e)) in
      (free, ground (arith, e, f), t, omega arith, omega arith)
  | inr e ↦ (ts, ground (arith, e), e, omega arith, omega arith)
]

-- The search for a free time ends: within as many rounds as there are entries it finds one that is
-- not taken, not before `start`, and not later than that by more than the number of entries.
pub next_expire_ts_lem :
    (m : ExpireMap) (start : ℕ)
    → (free : ℕ) × (next_expire_ts (length m) m start ≡ some free)
      × (taken free m ≡ false)
      × (start ≤ free)
      × (free ≤ start + length m)
next_expire_ts_lem m start = next_expire_ts_free (length m) m start (later_count_le start m)

-- How many entries an observer has.
abbrev pub entries : ℕ → ExpireMap → ℕ
entries o [] = 0
entries o (p ∷ m) = let rest = entries o m in if o == p.1 then rest + 1 else rest

entries-insert_sorted :
    (o ts p : ℕ) (m : ExpireMap)
    → entries o (insert_sorted due_at (ts, p) m) ≡ entries o ((ts, p) ∷ m)
unfolding insert_sorted
entries-insert_sorted o ts p [] = refl
entries-insert_sorted o ts p (q ∷ m) = ground (arith, entries-insert_sorted o ts p m)

-- An observer is put into a sorted map, not before `start`, and nothing else changes.
schedule_lem :
    (start p : ℕ) (m : ExpireMap) (b : ℕ)
    → b ≤ start
    → IsSorted due_at m
    → NoneBefore due_at b m
    → (m' : ExpireMap) × (schedule start p m ≡ some m')
      × IsSorted due_at m'
      × NoneBefore due_at b m'
      × ((o : ℕ) → entries o m' ≡ entries o ((start, p) ∷ m))
unfolding schedule emplace
schedule_lem start p m b l s n =
    let (free, f, t, lo, hi) = next_expire_ts_lem m start in
    (
      insert_sorted due_at (free, p) m,
      simp (f) (ground (arith, t)),
      IsSorted-insert_sorted due_at (free, p) m s,
      NoneBefore-insert_sorted due_at b (free, p) m (omega arith) n,
      λ o. entries-insert_sorted o free p m,
    )

-- No entry is later than `now`.
abbrev pub AllBy : ℕ → ExpireMap → Type 0
AllBy now [] = Unit {0}
AllBy now (p ∷ m) = (p.0 ≤ now) × AllBy now m

-- Every entry's observer is registered and has an interval.
abbrev pub AllRegistered : (ℕ → ℕ) → Service → ExpireMap → Type 0
AllRegistered interval_ms s [] = Unit {0}
AllRegistered interval_ms s (p ∷ m) =
    (contains_observer s p.1 ≡ true) × (0 < interval_ms p.1) × AllRegistered interval_ms s m

module _ (interval_ms : ℕ → ℕ) where
  registered :
      (s : Service) (o : ℕ)
      → contains_observer s o ≡ true
      → 0 < interval_ms o
      → contains_observer s o && ltb 0 (interval_ms o) ≡ true
  registered s o c i = ground (arith, c, i)

  reschedule_lem :
      (s : Service) (now : ℕ) (due m : ExpireMap)
      → AllRegistered interval_ms s due
      → IsSorted due_at m
      → NoneBefore due_at (now + 1) m
      → (m' : ExpireMap) × (reschedule interval_ms s now due m ≡ some m')
        × IsSorted due_at m'
        × NoneBefore due_at (now + 1) m'
        × ((o : ℕ) → entries o m' ≡ entries o due + entries o m)
  unfolding reschedule
  reschedule_lem s now [] m r so n = (m, refl, so, n, λ o. omega arith)
  reschedule_lem s now (p ∷ due) m r so n =
      let (m1, e1, s1, n1, c1) =
        schedule_lem (now + interval_ms p.1) p.1 m (now + 1) (omega (arith, r.1)) so n in
      let (m2, e2, s2, n2, c2) = reschedule_lem s now due m1 r.2 s1 n1 in
      (
        m2,
        ap
              (λ (b : Bool).
                if b
                then (schedule (now + interval_ms p.1) p.1 m >>= λ m'.
                    reschedule interval_ms s now due m')
                else reschedule interval_ms s now due m)
              (registered s p.1 r.0 r.1)
            ∙ simp (e1, e2) refl,
        s2,
        n2,
        λ o. ground (arith, c1 o, c2 o),
      )

  take_due-AllBy : (now : ℕ) (m : ExpireMap) → AllBy now (take_due now m).0
  unfolding take_due
  take_due-AllBy now [] = tt
  take_due-AllBy now (p ∷ m) = ground (arith, take_due-AllBy now m)

  take_due_lem :
      (now o : ℕ) (m : ExpireMap) (s : Service)
      → IsSorted due_at m
      → AllRegistered interval_ms s m
      → AllRegistered interval_ms s (take_due now m).0
        × IsSorted due_at (take_due now m).1
        × NoneBefore due_at (now + 1) (take_due now m).1
        × (m ≡ (take_due now m).0 ++ (take_due now m).1)
        × (entries o (take_due now m).0 + entries o (take_due now m).1 ≡ entries o m)
  unfolding take_due
  take_due_lem now o [] s so r = (tt, tt, tt, refl, omega arith)
  take_due_lem now o (p ∷ m) s so r =
      let (rs, ss, ns, e, c) = take_due_lem now o m s so.1 r.2 in
      ground (arith, rs, ss, ns, e, c, so, r.0, r.1, NoneBefore-le due_at (now + 1) p.0 m)

  -- A flush at `now` of a sorted map, all of whose observers are registered and have an interval,
  -- ends. It calls the observers of the entries in front, which are due, while the others are later
  -- than `now`; afterwards every observer has as many entries as before, all of them later than `now`,
  -- in a sorted map.
  pub flush_timers_lem :
      (s : Service) (now : ℕ) (m : ExpireMap) (o : ℕ)
      → IsSorted due_at m
      → AllRegistered interval_ms s m
      → (m' : ExpireMap) × (called : ExpireMap) × (rest : ExpireMap) × (flush_timers interval_ms s
            now m
          ≡ some (m', called))
        × (m ≡ called ++ rest)
        × AllBy now called
        × NoneBefore due_at (now + 1) rest
        × IsSorted due_at m'
        × NoneBefore due_at (now + 1) m'
        × (entries o m' ≡ entries o m)
  unfolding flush_timers
  flush_timers_lem s now m o so r =
      let (rs, ss, ns, e, c) = take_due_lem now o m s so r in
      let (m', e', s', n', c') =
        reschedule_lem s now (take_due now m).0 (take_due now m).1 rs ss ns in
      (
        m',
        (take_due now m).0,
        (take_due now m).1,
        simp (e') refl,
        e,
        take_due-AllBy now m,
        ns,
        s',
        n',
        c' o ∙ c,
      )
