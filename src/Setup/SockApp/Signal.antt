-- ===== src/Setup/SockApp/Signal.antt =====
-- A signal closes the application from inside of its loop.
use rsock.Base.{
  ℕ, zero, suc, ◌≡◌, refl, Bool, true, false, ◌||◌, Option, none, some, List, [], ◌∷◌, arith,
}
use rsock.Setup.SockApp.{loop, loop_running, Event, made, freed, Outcomes, new_app, init, run_main}

-- Whether the loop is deleted between the call of `uv_run` and its return.
pub frees_running : Bool → List Event → Bool
frees_running running [] = false
frees_running running (made loop_running ∷ events) = frees_running true events
frees_running running (freed loop_running ∷ events) = frees_running false events
frees_running running (freed loop ∷ events) = running || frees_running running events
frees_running running (e ∷ events) = frees_running running events

-- What a signal does to the log of a run that was set up.
SignalBreaks : Bool → Outcomes → Type 0
unfolding init
SignalBreaks c o = (init o (new_app c)).1 ≡ 0 → frees_running false (run_main c o true).log ≡ true

run_main-breaks :
    (is_client : Bool)
    (n_startup n_fork n_log n_services n_observers n_pool n_manager n_cap n_btm : ℕ)
    (made_bridge : Option ℕ) (watches_int watches_hup : Bool)
    → SignalBreaks is_client (record {
      startup = n_startup;
      fork = n_fork;
      log = n_log;
      services = n_services;
      observers = n_observers;
      ack_pool = n_pool;
      manager = n_manager;
      cap = n_cap;
      btm = n_btm;
      bridge = made_bridge;
      watches_int = watches_int;
      watches_hup = watches_hup;
    })
unfolding run_main frees_running SignalBreaks
run_main-breaks true (suc n) f l v o k m p t b i h r = absurd (omega arith)
run_main-breaks true zero (suc n) l v o k m p t b i h r = absurd (omega arith)
run_main-breaks true zero zero (suc n) v o k m p t b i h r = absurd (omega arith)
run_main-breaks true zero zero zero (suc n) o k m p t b i h r = absurd (omega arith)
run_main-breaks true zero zero zero zero (suc n) k m p t b i h r = absurd (omega arith)
run_main-breaks true zero zero zero zero zero (suc n) m p t b i h r = absurd (omega arith)
run_main-breaks true zero zero zero zero zero zero (suc n) p t b i h r = absurd (omega arith)
run_main-breaks true zero zero zero zero zero zero zero (suc n) t b i h r = absurd (omega arith)
run_main-breaks true zero zero zero zero zero zero zero zero (suc n) b i h r = absurd (omega arith)
run_main-breaks true zero zero zero zero zero zero zero zero zero none i h r = absurd (omega arith)
run_main-breaks true zero zero zero zero zero zero zero zero zero (some (suc n)) i h r =
    absurd (omega arith)
run_main-breaks true zero zero zero zero zero zero zero zero zero (some zero) true true r = refl
run_main-breaks true zero zero zero zero zero zero zero zero zero (some zero) true false r = refl
run_main-breaks true zero zero zero zero zero zero zero zero zero (some zero) false true r = refl
run_main-breaks true zero zero zero zero zero zero zero zero zero (some zero) false false r = refl
run_main-breaks false (suc n) f l v o k m p t b i h r = absurd (omega arith)
run_main-breaks false zero (suc n) l v o k m p t b i h r = absurd (omega arith)
run_main-breaks false zero zero (suc n) v o k m p t b i h r = absurd (omega arith)
run_main-breaks false zero zero zero (suc n) o k m p t b i h r = absurd (omega arith)
run_main-breaks false zero zero zero zero (suc n) k m p t b i h r = absurd (omega arith)
run_main-breaks false zero zero zero zero zero (suc n) m p t b i h r = absurd (omega arith)
run_main-breaks false zero zero zero zero zero zero (suc n) p t b i h r = absurd (omega arith)
run_main-breaks false zero zero zero zero zero zero zero (suc n) t b i h r = absurd (omega arith)
run_main-breaks false zero zero zero zero zero zero zero zero (suc n) b i h r = absurd (omega arith)
run_main-breaks false zero zero zero zero zero zero zero zero zero none i h r = absurd (omega arith)
run_main-breaks false zero zero zero zero zero zero zero zero zero (some (suc n)) i h r =
    absurd (omega arith)
run_main-breaks false zero zero zero zero zero zero zero zero zero (some zero) true true r = refl
run_main-breaks false zero zero zero zero zero zero zero zero zero (some zero) true false r = refl
run_main-breaks false zero zero zero zero zero zero zero zero zero (some zero) false true r = refl
run_main-breaks false zero zero zero zero zero zero zero zero zero (some zero) false false r = refl

-- When the set-up succeeds and a signal comes while the loop runs, the loop is deleted before `uv_run`
-- returns from it.
pub run_main-signal :
    (is_client : Bool) (o : Outcomes)
    → (init o (new_app is_client)).1 ≡ 0
    → frees_running false (run_main is_client o true).log ≡ true
unfolding SignalBreaks
run_main-signal c o =
    run_main-breaks c o.startup o.fork o.log o.services o.observers o.ack_pool o.manager o.cap o.btm
      o.bridge o.watches_int o.watches_hup
