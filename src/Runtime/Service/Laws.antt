-- ===== src/Runtime/Service/Laws.antt =====
-- What the list of observers promises.
use rsock.Base.{ℕ, ◌≡◌, true, false, none, some, List, [], ◌∷◌, ◌++◌, arith}
use rsock.Runtime.Service.{
  Service, is_in, without_first, contains_observer, register_observer, un_register_observer,
  new_iterator,
}

is_in-append : (o : ℕ) (l : List ℕ) → is_in o (l ++ o ∷ []) ≡ true
unfolding is_in
is_in-append o [] = ground arith
is_in-append o (p ∷ l) = ground (arith, is_in-append o l)

without_first-append : (o : ℕ) (l : List ℕ) → is_in o l ≡ false → without_first o (l ++ o ∷ []) ≡ l
unfolding is_in without_first
without_first-append o [] h = ground arith
without_first-append o (p ∷ l) h = ground (arith, h, without_first-append o l)

-- An observer that is new to an initialised service, which no one iterates over, is added, is found
-- afterwards, and is taken out again, which leaves the service as it was.
pub un_register_observer-register_observer :
    (s : Service) (o : ℕ)
    → s.visit_count ≡ 0
    → s.inited ≡ true
    → contains_observer s o ≡ false
    → (s' : Service) × (register_observer s o ≡ some (s', true))
      × (contains_observer s' o ≡ true)
      × (un_register_observer s' o ≡ some (s, true))
unfolding register_observer un_register_observer contains_observer
un_register_observer-register_observer s o v i h = (
  record s { observers = s.observers ++ o ∷ [] },
  ground (arith, v, i, h),
  is_in-append o s.observers,
  ground (arith, v, i, is_in-append o s.observers, without_first-append o s.observers h),
)

-- While there is an iterator, adding or removing any observer throws.
pub new_iterator_blocks :
    (s : Service) (o : ℕ)
    → (register_observer (new_iterator s) o ≡ none)
      × (un_register_observer (new_iterator s) o ≡ none)
unfolding register_observer un_register_observer
new_iterator_blocks s o = (ground arith, ground arith)
