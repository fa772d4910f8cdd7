-- ===== src/Runtime/Service.antt =====
-- src/service/IService.cpp: a list of observers, which must not change while it is iterated over. An
-- observer is its address.
pub mod Laws
use rsock.Base.{
  ℕ, ◌+◌, ◌-◌, Bool, true, false, not, ◌||◌, Option, none, some, List, [], ◌∷◌, ◌++◌, ◌==◌,
  if◌then◌else◌, ltb, get_elem?, take, drop, length,
}

-- `visit_count` is the number of iterators there are.
pub record Service : Type 0 where
  pub observers : List ℕ
  pub inited : Bool
  pub visit_count : ℕ
  pub block : Bool

-- `std::find`
unfoldable pub is_in : ℕ → List ℕ → Bool
is_in o [] = false
is_in o (p ∷ ps) = p == o || is_in o ps

pub without_first : ℕ → List ℕ → List ℕ
without_first o [] = []
without_first o (p ∷ ps) = let rest = without_first o ps in if p == o then ps else p ∷ rest

unfoldable pub contains_observer : Service → ℕ → Bool
contains_observer s o = is_in o s.observers

-- Whether the observer was added; `none` is the exception, or the assertion that `Init` was called.
pub register_observer : Service → ℕ → Option (Service × Bool)
register_observer s o =
    if not (s.visit_count == 0)
    then none
    else if not s.inited
    then none
    else if contains_observer s o
    then some (s, false)
    else some (record s { observers = s.observers ++ o ∷ [] }, true)

pub un_register_observer : Service → ℕ → Option (Service × Bool)
un_register_observer s o =
    if not (s.visit_count == 0)
    then none
    else if not s.inited
    then none
    else if contains_observer s o
    then some (record s { observers = without_first o s.observers }, true)
    else some (s, false)

abbrev pub observer_size : Service → ℕ
observer_size s = length s.observers

abbrev pub set_block : Service → Bool → Service
set_block s block = record s { block = block }

-- A new iterator, and the end of one.
abbrev pub new_iterator : Service → Service
new_iterator s = record s { visit_count = s.visit_count + 1 }

abbrev pub end_iterator : Service → Service
end_iterator s = record s { visit_count = s.visit_count - 1 }

-- An iterator is the place of the observer that `Next` returns; `none` is the exception that it is at
-- the end. `Remove` takes out the observer at this place.
abbrev pub has_next : Service → ℕ → Bool
has_next s i = ltb i (length s.observers)

abbrev pub next : Service → ℕ → Option (ℕ × ℕ)
next s i = elim (get_elem? s.observers i) [ none ↦ none | some o ↦ some (o, i + 1) ]

abbrev pub remove : Service → ℕ → Option Service
remove s i =
    if has_next s i
    then some (record s { observers = take i s.observers ++ drop (i + 1) s.observers })
    else none
