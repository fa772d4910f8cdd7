-- ===== src/Setup/Services.antt =====
-- src/singletons/ServiceManager.cpp and src/singletons/Singleton.cpp. The name of a service is its
-- place among the names in their order, and a service is its address; `none` is a failed assertion.
pub mod Laws
use rsock.Base.{
  ℕ, suc, Bool, true, false, Option, none, some, ◌>>=◌, List, [], ◌∷◌, ◌==◌, if◌then◌else◌, ltb,
  find, erase,
}

-- `std::map<std::string, IService *>`, in the order of the names.
abbrev pub ServiceMap : Type 0
ServiceMap = List (ℕ × ℕ)

abbrev pub same_name : ℕ → ℕ → Bool
same_name a b = a == b

pub emplace : ℕ → ℕ → ServiceMap → ServiceMap
emplace name service [] = (name, service) ∷ []
emplace name service (p ∷ m) =
    let rest = emplace name service m in if ltb name p.0 then (name, service) ∷ p ∷ m else p ∷ rest

abbrev pub get_service : ℕ → ServiceMap → Option ℕ
get_service name m = elim (find same_name name m) [ none ↦ none | some p ↦ some p.1 ]

unfoldable pub add_service : ℕ → ℕ → ServiceMap → Option ServiceMap
unfolding emplace
add_service name service m = elim (get_service name m) [
  | none ↦ some (emplace name service m)
  | some s ↦ none
]

unfoldable pub remove_service : ℕ → ServiceMap → Option ServiceMap
remove_service name m = elim (get_service name m) [
  | none ↦ none
  | some s ↦ some (erase same_name name m)
]

-- What is returned, and the services whose `Init` was called.
unfoldable pub init : (ℕ → ℕ) → ServiceMap → ℕ × List ℕ
init init_service [] = (0, [])
init init_service (p ∷ m) =
    let (ret, rest) = init init_service m in
    if init_service p.1 == 0 then (ret, p.1 ∷ rest) else (init_service p.1, p.1 ∷ [])

-- The loop over the copy. Each service that is closed and deleted, with the map at that time.
pub close_each : ServiceMap → ServiceMap → Option (ServiceMap × List (ℕ × ServiceMap))
unfolding remove_service
close_each [] m = some (m, [])
close_each (p ∷ copy) m = do
  m' ← remove_service p.0 m
  (left, events) ← close_each copy m'
  some (left, (p.1, m') ∷ events)

abbrev is_nil : ServiceMap → Bool
is_nil [] = true
is_nil (p ∷ m) = false

-- With the assertion that the map is empty at the end.
unfoldable pub close : ServiceMap → Option (List (ℕ × ServiceMap))
unfolding close_each
close m = do (left, events) ← close_each m m; (if is_nil left then some events else none)

-- The static members of `Singleton<T>`: the instance and `sDestroyed`, with how many were made and how
-- many closed and deleted.
pub record Singleton : Type 0 where
  pub instance_ : Option ℕ
  pub destroyed : Bool
  pub made : ℕ
  pub deleted : ℕ

abbrev pub no_instance : Singleton
no_instance = record { instance_ = none; destroyed = false; made = 0; deleted = 0 }

pub data Call : Type 0 where
  get_instance : Call
  destroy_instance : Call

-- A call of `GetInstance` or `DestroyInstance`; new instances are numbered.
pub call : Call → Singleton → Option Singleton
call get_instance s = elim s.instance_ [
  | some i ↦ some s
  | none ↦
      if s.destroyed then none else some (record s { instance_ = some s.made; made = suc s.made })
]
call destroy_instance s = elim s.instance_ [
  | none ↦ some s
  | some i ↦ some (record s { instance_ = none; destroyed = true; deleted = suc s.deleted })
]

unfoldable pub calls : List Call → Singleton → Option Singleton
unfolding call
calls [] s = some s
calls (c ∷ rest) s = do s' ← call c s; calls rest s'
