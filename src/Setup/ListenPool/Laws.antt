-- ===== src/Setup/ListenPool/Laws.antt =====
-- No `uv_tcp_t` is lost.
use rsock.Base.{
  ℕ, ◌+◌, ◌<◌, ◌≡◌, inl, inr, refl, Bool, Bool-cases, true, false, not, ◌&&◌, some, List, [], ◌∷◌,
  ◌++◌, ◌==◌, if◌then◌else◌, ltb, leb, arith,
}
use rsock.Setup.ListenPool.{
  Listened, is_listening, ListenPool, clear_pool, close, new_conn_cb, without_first,
}

-- How often a list has it.
abbrev pub times : ℕ → List ℕ → ℕ
times h [] = 0
times h (x ∷ l) = times h l + (if x == h then 1 else 0)

times-append : (h : ℕ) (l m : List ℕ) → times h (l ++ m) ≡ times h l + times h m
times-append h [] m = omega arith
times-append h (x ∷ l) m = ground (arith, times-append h l m)

-- It was made from the state on.
abbrev pub made_between : ℕ → ℕ → ℕ → ℕ
made_between h n m = if leb n h && ltb h m then 1 else 0

abbrev pub owned : ℕ → ListenPool → ℕ
owned h s = times h s.pool + times h s.disposed + times h s.passed_on

abbrev pub all_listen : (ℕ → Listened) → List ℕ → Bool
all_listen listen [] = true
all_listen listen (p ∷ ports) = is_listening (listen p) && all_listen listen ports

owned-clear_pool : (h : ℕ) (s : ListenPool) → owned h (clear_pool s) ≡ owned h s
unfolding clear_pool
owned-clear_pool h s = omega (arith, times-append h s.disposed s.pool)

-- `Close` loses none either.
pub owned-close : (h : ℕ) (s : ListenPool) → (owned h (close s) ≡ owned h s) × ((close s).pool ≡ [])
unfolding close clear_pool
owned-close h s = (owned-clear_pool h (record s { has_cb = false }), refl)

times-without_first :
    (x : ℕ) (l : List ℕ) → 0 < times x l → times x (without_first x l) + 1 ≡ times x l
unfolding without_first
times-without_first x [] h = absurd (omega arith)
times-without_first x (y ∷ l) h = ground (arith, times-without_first x l, h)

-- An error of a socket that listens takes it out of the pool, and neither frees nor closes it. An
-- accepted connection, also for a status of UV_ECANCELED, is passed on where there is a callback, and
-- one that is not accepted is freed.
pub new_conn_cb_lem :
    (s : ListenPool) (server : ℕ) (ok cancelled accepted : Bool)
    → s.has_cb ≡ true
    → 0 < times server s.pool
    → (t : ListenPool) × (new_conn_cb server ok cancelled accepted s ≡ some t)
      × ((not ok && not cancelled) ≡ true → owned server t + 1 ≡ owned server s)
      × ((not ok && not cancelled) ≡ false
          → (t.pool ≡ s.pool)
            × ((h : ℕ) → owned h t ≡ owned h s + made_between h s.fresh (s.fresh + 1)))
unfolding new_conn_cb
new_conn_cb_lem s server ok cancelled accepted cb there =
    elim (Bool-cases (not ok && not cancelled)) [
      | inl e ↦ (
        record s { pool = without_first server s.pool },
        ground (arith, e),
        (λ k. omega (arith, times-without_first server s.pool there)),
        λ k. absurd (ground (arith, e, k)),
      )
      | inr e ↦ elim (Bool-cases accepted) [
        | inl f ↦ (
          record s { fresh = s.fresh + 1; passed_on = s.passed_on ++ (s.fresh ∷ []) },
          ground (arith, e, f, cb),
          (λ k. absurd (ground (arith, e, k))),
          λ k. (refl, λ h. ground (arith, times-append h s.passed_on (s.fresh ∷ []))),
        )
        | inr f ↦ (
          record s { fresh = s.fresh + 1; disposed = s.disposed ++ (s.fresh ∷ []) },
          ground (arith, e, f),
          (λ k. absurd (ground (arith, e, k))),
          λ k. (refl, λ h. ground (arith, times-append h s.disposed (s.fresh ∷ []))),
        )
      ]
    ]
