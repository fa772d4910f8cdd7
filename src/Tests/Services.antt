-- ===== src/Tests/Services.antt =====
-- The services of a program, by their names in order: 1 for the network, 2 for the route, 3 for the
-- timer (src/ISockApp.cpp adds them as 3, 2, 1), and a singleton.
use rsock.Base.{◌≡◌, refl, none, some, ◌>>=◌, [], ◌∷◌, find, erase}
use rsock.Setup.Services.{
  ServiceMap, add_service, init, close, no_instance, get_instance, destroy_instance, calls,
  remove_service,
}

abbrev services : ServiceMap
services = (1, 70) ∷ (2, 80) ∷ (3, 90) ∷ []

added : (do m ← add_service 3 90 []; m ← add_service 2 80 m; add_service 1 70 m) ≡ some services
unfolding add_service find
added = refl

closed_in_order :
    close services ≡ some ((70, (2, 80) ∷ (3, 90) ∷ []) ∷ (80, (3, 90) ∷ []) ∷ (90, []) ∷ [])
unfolding close remove_service find erase
closed_in_order = refl

stops_at_failure : init (λ s. s) services ≡ (70, 70 ∷ [])
unfolding init
stops_at_failure = refl

made_twice : calls (get_instance ∷ destroy_instance ∷ get_instance ∷ []) no_instance ≡ none
unfolding calls
made_twice = refl
