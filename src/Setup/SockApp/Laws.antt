-- ===== src/Setup/SockApp/Laws.antt =====
-- The parts of an application are closed and deleted once each, and none is used after it was
-- deleted.
use rsock.Base.{
  ℕ, zero, suc, ◌≡◌, refl, Bool, true, false, not, ◌&&◌, ◌||◌, Option, none, some, ◌>>=◌, List, [],
  ◌∷◌, ◌==◌, if◌then◌else◌,
}
use rsock.Setup.SockApp.{
  Part, err_handler, loop, services, handlers, observer, ack_pool, manager, cap, btm, bridge, timer,
  int_signal, hup_signal, loop_running, Event, made, closed, freed, Outcomes, SockApp, run_main,
}

-- What has become of a part.
pub data Life : Type 0 where
  absent live shut gone : Life

abbrev number : Part → ℕ
number err_handler = 0
number loop = 1
number services = 2
number handlers = 3
number observer = 4
number ack_pool = 5
number manager = 6
number cap = 7
number btm = 8
number bridge = 9
number timer = 10
number int_signal = 11
number hup_signal = 12
number loop_running = 13

abbrev pub Lives : Type 0
Lives = Part → Life

abbrev becomes : Lives → Part → Life → Lives
becomes m p l q = if number q == number p then l else m q

abbrev is_live : Life → Bool
is_live live = true
is_live _ = false

-- The parts that the constructor, `Init` and `Close` of a part call.
abbrev needs : Lives → Part → Bool
needs m err_handler = true
needs m loop = true
needs m services = is_live (m loop)
needs m handlers = is_live (m loop)
needs m btm = is_live (m loop)
needs m int_signal = is_live (m loop)
needs m hup_signal = is_live (m loop)
needs m loop_running = is_live (m loop)
needs m _ = is_live (m loop) && is_live (m services)

-- A part is made once, closed when it is live, and deleted when it is closed; whatever a part needs
-- is live when it is made and when it is closed. The handler of errors has nothing to close.
pub obey : Lives → Event → Option Lives
obey m (made p) = elim (m p) [
  | absent ↦ if needs m p then some (becomes m p live) else none
  | _ ↦ none
]
obey m (closed p) = elim (m p) [
  | live ↦ if needs m p then some (becomes m p shut) else none
  | _ ↦ none
]
obey m (freed err_handler) = elim (m err_handler) [
  | live ↦ some (becomes m err_handler gone)
  | _ ↦ none
]
obey m (freed p) = elim (m p) [ shut ↦ some (becomes m p gone) | _ ↦ none ]

pub follow : List Event → Lives → Option Lives
follow [] m = some m
follow (e ∷ events) m = obey m e >>= follow events

abbrev is_over : Life → Bool
is_over absent = true
is_over gone = true
is_over _ = false

abbrev all_over : Lives → Bool
all_over m =
    is_over (m err_handler)
    && (is_over (m loop)
        && (is_over (m services)
            && (is_over (m handlers)
                && (is_over (m observer)
                    && (is_over (m ack_pool)
                        && (is_over (m manager)
                            && (is_over (m cap)
                                && (is_over (m btm)
                                    && (is_over (m bridge)
                                        && (is_over (m timer)
                                            && (is_over (m int_signal)
                                                && (is_over (m hup_signal)
                                                    && is_over (m loop_running)))))))))))))

-- The events obey the rules from the start on, and leave no part that is not deleted.
abbrev pub is_clean : List Event → Bool
is_clean events = elim (follow events (λ p. absent)) [ none ↦ false | some m ↦ all_over m ]

-- No pointer of the application is left.
abbrev pub forgets_all : SockApp → Bool
forgets_all a = not (
    a.err_handler
    || (a.loop
        || (a.services
            || (a.observer
                || (a.ack_pool || (a.manager || (a.cap || (a.btm || (a.bridge || a.timer)))))))))

run_main-clean :
    (is_client : Bool)
    (n_startup n_fork n_log n_services n_observers n_pool n_manager n_cap n_btm : ℕ)
    (made_bridge : Option ℕ) (watches_int watches_hup : Bool)
    → let a =
        run_main is_client
          (record {
            startup = n_startup;
            fork = n_fork;
            log = n_log;
            services = n_services;
            observers = n_observers;
            ack_pool = n_pool;
            manager = n_manager;
            cap = n_cap;
            btm = n_btm;
            bridge = made_bridge;
            watches_int = watches_int;
            watches_hup = watches_hup;
          })
          false in
      (is_clean a.log ≡ true) × (forgets_all a ≡ true)
unfolding run_main follow obey
run_main-clean true (suc n) f l v o k m p t b i h = (refl, refl)
run_main-clean true zero (suc n) l v o k m p t b i h = (refl, refl)
run_main-clean true zero zero (suc n) v o k m p t b i h = (refl, refl)
run_main-clean true zero zero zero (suc n) o k m p t b i h = (refl, refl)
run_main-clean true zero zero zero zero (suc n) k m p t b i h = (refl, refl)
run_main-clean true zero zero zero zero zero (suc n) m p t b i h = (refl, refl)
run_main-clean true zero zero zero zero zero zero (suc n) p t b i h = (refl, refl)
run_main-clean true zero zero zero zero zero zero zero (suc n) t b i h = (refl, refl)
run_main-clean true zero zero zero zero zero zero zero zero (suc n) b i h = (refl, refl)
run_main-clean true zero zero zero zero zero zero zero zero zero none i h = (refl, refl)
run_main-clean true zero zero zero zero zero zero zero zero zero (some (suc n)) i h = (refl, refl)
run_main-clean true zero zero zero zero zero zero zero zero zero (some zero) true true =
    (refl, refl)
run_main-clean true zero zero zero zero zero zero zero zero zero (some zero) true false =
    (refl, refl)
run_main-clean true zero zero zero zero zero zero zero zero zero (some zero) false true =
    (refl, refl)
run_main-clean true zero zero zero zero zero zero zero zero zero (some zero) false false =
    (refl, refl)
run_main-clean false (suc n) f l v o k m p t b i h = (refl, refl)
run_main-clean false zero (suc n) l v o k m p t b i h = (refl, refl)
run_main-clean false zero zero (suc n) v o k m p t b i h = (refl, refl)
run_main-clean false zero zero zero (suc n) o k m p t b i h = (refl, refl)
run_main-clean false zero zero zero zero (suc n) k m p t b i h = (refl, refl)
run_main-clean false zero zero zero zero zero (suc n) m p t b i h = (refl, refl)
run_main-clean false zero zero zero zero zero zero (suc n) p t b i h = (refl, refl)
run_main-clean false zero zero zero zero zero zero zero (suc n) t b i h = (refl, refl)
run_main-clean false zero zero zero zero zero zero zero zero (suc n) b i h = (refl, refl)
run_main-clean false zero zero zero zero zero zero zero zero zero none i h = (refl, refl)
run_main-clean false zero zero zero zero zero zero zero zero zero (some (suc n)) i h = (refl, refl)
run_main-clean false zero zero zero zero zero zero zero zero zero (some zero) true true =
    (refl, refl)
run_main-clean false zero zero zero zero zero zero zero zero zero (some zero) true false =
    (refl, refl)
run_main-clean false zero zero zero zero zero zero zero zero zero (some zero) false true =
    (refl, refl)
run_main-clean false zero zero zero zero zero zero zero zero zero (some zero) false false =
    (refl, refl)

-- Wherever the set-up of a client or a server fails, and also where it does not, the program makes
-- every part once at most, closes and deletes once each part that it made, and calls no part that is
-- not made or that is deleted, among them what the part's constructor and its `Close` need; no pointer
-- of the application is left. This is without a signal.
pub run_main-IsClean :
    (is_client : Bool) (o : Outcomes)
    → (is_clean (run_main is_client o false).log ≡ true)
      × (forgets_all (run_main is_client o false) ≡ true)
run_main-IsClean c o =
    run_main-clean c o.startup o.fork o.log o.services o.observers o.ack_pool o.manager o.cap o.btm
      o.bridge o.watches_int o.watches_hup
