-- ===== src/Runtime/Timers.antt =====
-- src/service/TimerService.cpp: observers that are called at intervals. Each has one time at which it
-- is called next, and no two have the same. `IntervalMs` of an observer is a parameter; the time
-- that a call reads is its argument `now`, one for all reads of a call. What an observer does when it
-- is called does not change the service.
pub mod Laws
use rsock.Base.{
  ℕ, zero, suc, ◌+◌, Bool, true, false, not, ◌&&◌, ◌||◌, Option, none, some, ◌>>=◌, List, [], ◌∷◌,
  ltb, leb, ◌==◌, if◌then◌else◌, length,
}
use rsock.Runtime.Expiry.{insert_sorted}
use rsock.Runtime.Service.{Service, contains_observer, register_observer, un_register_observer}

-- `std::map<uint64_t, ITimerObserver *>`
abbrev pub ExpireMap : Type 0
ExpireMap = List (ℕ × ℕ)

pub record TimerService : Type 0 where
  pub service : Service
  pub expire_map : ExpireMap
  pub timer_set : Bool

abbrev pub due_at : ℕ × ℕ → ℕ
due_at p = p.0

pub taken : ℕ → ExpireMap → Bool
taken ts [] = false
taken ts (p ∷ m) = ts == p.0 || taken ts m

-- `nextExpireTs`, with fuel; `none` is a loop that is not done.
pub next_expire_ts : ℕ → ExpireMap → ℕ → Option ℕ
next_expire_ts zero m ts = if taken ts m then none else some ts
next_expire_ts (suc fuel) m ts =
    let later = next_expire_ts fuel m (ts + 1) in if taken ts m then later else some ts

pub emplace : ℕ → ℕ → ExpireMap → ExpireMap
emplace ts o m = if taken ts m then m else insert_sorted due_at (ts, o) m

-- `mExpireMap.emplace(nextExpireTs(start), o)`
pub schedule : ℕ → ℕ → ExpireMap → Option ExpireMap
schedule start o m = do ts ← next_expire_ts (length m) m start; some (emplace ts o m)

-- The entries that are due, in front of a map, and the others.
pub take_due : ℕ → ExpireMap → ExpireMap × ExpireMap
take_due now [] = ([], [])
take_due now (p ∷ m) =
    let (due, rest) = take_due now m in if leb p.0 now then (p ∷ due, rest) else ([], p ∷ m)

abbrev erase_observer : ℕ → ExpireMap → ExpireMap
erase_observer o [] = []
erase_observer o (p ∷ m) = let rest = erase_observer o m in if p.1 == o then m else p ∷ rest

-- The service after a registration: the new map is taken if the observer was added.
abbrev with_schedule :
    TimerService → Service → Bool → Option ExpireMap → Option (TimerService × Bool)
with_schedule t service false scheduled =
    some (record t { service = service; timer_set = true }, false)
with_schedule t service true none = none
with_schedule t service true (some m) =
    some (record { service = service; expire_map = m; timer_set = true }, true)

module _ (interval_ms : ℕ → ℕ) where
  -- `none` is an exception or a loop that is not done.
  abbrev register_timer : TimerService → ℕ → ℕ → ℕ → Option (TimerService × Bool)
  register_timer t o delay now = if (o == 0) || (interval_ms o == 0) then some (t, false) else (do
    (service, added) ← register_observer t.service o
    with_schedule t service added (schedule (now + delay) o t.expire_map))

  abbrev un_register_timer : TimerService → ℕ → Option (TimerService × Bool)
  un_register_timer t o = do
    (service, removed) ← un_register_observer t.service o
    some (record t { service = service; expire_map = erase_observer o t.expire_map }, removed)

  -- The second loop of `onFlush`, over the entries that were called.
  pub reschedule : Service → ℕ → ExpireMap → ExpireMap → Option ExpireMap
  reschedule s now [] m = some m
  reschedule s now (p ∷ due) m =
      if contains_observer s p.1 && ltb 0 (interval_ms p.1)
      then (do m' ← schedule (now + interval_ms p.1) p.1 m; reschedule s now due m')
      else reschedule s now due m

  -- The map afterwards, and the entries whose observers were called, in this order.
  pub flush_timers : Service → ℕ → ExpireMap → Option (ExpireMap × ExpireMap)
  flush_timers s now m = do
    m' ← reschedule s now (take_due now m).0 (take_due now m).1
    some (m', (take_due now m).0)
