-- ===== src/Tests/Service.antt =====
-- The services (src/service/) on small inputs.
use rsock.Base.{ℕ, ◌≡◌, refl, inl, none, true, false, [], ◌∷◌, arith}
use rsock.Runtime.Expiry.{IsSorted}
use rsock.Runtime.Handler.{Handler}
use rsock.Runtime.Handler.Invariant.{Inv}
use rsock.Runtime.Service.{Service, is_in, contains_observer}
use rsock.Runtime.Timers.{ExpireMap, due_at}
use rsock.Runtime.Timers.Laws.{AllRegistered}
use rsock.Runtime.Route.{RouteService}
use rsock.Runtime.Route.Laws.{IsStep}

abbrev service : Service
service = record { observers = 7 ∷ 8 ∷ []; inited = true; visit_count = 0; block = false }

service-fresh : contains_observer service 9 ≡ false
unfolding contains_observer is_in
service-fresh = refl

abbrev expire_map : ExpireMap
expire_map = (100, 7) ∷ (101, 8) ∷ []

abbrev minute : ℕ → ℕ
minute o = 60000

expire_map-IsSorted : IsSorted due_at expire_map
expire_map-IsSorted = ground arith

expire_map-AllRegistered : AllRegistered minute service expire_map
unfolding contains_observer is_in
expire_map-AllRegistered = (refl, omega arith, (refl, omega arith, tt))

abbrev handler : Handler
handler = record {
  self = 1;
  tasks = [];
  messages = [];
  has_callback = true;
  next_timeout_ms = 0;
  timer = none;
}

handler-Inv : Inv handler
handler-Inv = record {
  lists = record { tasks_sorted = tt; messages_sorted = tt; tasks_pos = tt; messages_pos = tt };
  tasks_after = tt;
  messages_after = tt;
  next_set = λ e. ground (arith, e);
  armed = λ e. ground (arith, e);
}

abbrev route : RouteService
route = record { handler = handler; check_interval_sec = 1; blocked = false; dev = []; ip = [] }

route-IsStep : IsStep route.check_interval_sec
route-IsStep = inl refl
