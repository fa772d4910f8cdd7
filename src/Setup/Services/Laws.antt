-- ===== src/Setup/Services/Laws.antt =====
-- Services are closed once each, and a singleton is made once.
use rsock.Base.{
  ℕ, suc, ◌<◌, ◌≤◌, ◌≡◌, refl, inl, inr, Bool, Bool-cases, true, false, Option, Option-cases, sym,
  subst, none, some, List, [], ◌∷◌, arith, ◌==◌, if◌then◌else◌, ltb, find, erase,
}
use rsock.Setup.Services.{
  ServiceMap, same_name, emplace, add_service, remove_service, close_each, close, Singleton, Call,
  get_instance, destroy_instance, call, calls,
}

abbrev pub AllAbove : ℕ → ServiceMap → Type 0
AllAbove name [] = Unit {0}
AllAbove name (p ∷ m) = (name < p.0) × AllAbove name m

abbrev pub IsSorted : ServiceMap → Type 0
IsSorted [] = Unit {0}
IsSorted (p ∷ m) = AllAbove p.0 m × IsSorted m

-- The services in their order, each with those behind it.
abbrev pub with_rest : ServiceMap → List (ℕ × ServiceMap)
with_rest [] = []
with_rest (p ∷ m) = (p.1, m) ∷ with_rest m

emplace-AllAbove :
    (low name service : ℕ) (m : ServiceMap)
    → low < name
    → AllAbove low m
    → AllAbove low (emplace name service m)
unfolding emplace
emplace-AllAbove low name service [] l a = (l, tt)
emplace-AllAbove low name service (p ∷ m) l (h, a) = elim (Bool-cases (ltb name p.0)) [
  | inl e ↦
      subst (λ b. AllAbove low (if b then (name, service) ∷ p ∷ m else p ∷ emplace name service m))
        (sym e) (l, (h, a))
  | inr e ↦
      subst (λ b. AllAbove low (if b then (name, service) ∷ p ∷ m else p ∷ emplace name service m))
        (sym e) (h, emplace-AllAbove low name service m l a)
]

lower-AllAbove : (low name : ℕ) (m : ServiceMap) → low < name → AllAbove name m → AllAbove low m
lower-AllAbove low name [] l a = tt
lower-AllAbove low name (p ∷ m) l (h, a) = (omega arith, lower-AllAbove low name m l a)

emplace-IsSorted :
    (name service : ℕ) (m : ServiceMap)
    → find same_name name m ≡ none
    → IsSorted m
    → IsSorted (emplace name service m)
unfolding emplace find
emplace-IsSorted name service [] f s = (tt, tt)
emplace-IsSorted name service (p ∷ m) f (a, s) =
    let after : find same_name name m ≡ none = ground (arith, f) in
    elim (Bool-cases (ltb name p.0)) [
      | inl e ↦
          let less : name < p.0 = ground (arith, e) in
          subst (λ b. IsSorted (if b then (name, service) ∷ p ∷ m else p ∷ emplace name service m))
            (sym e) ((less, lower-AllAbove name p.0 m less a), (a, s))
      | inr e ↦
          let more : p.0 < name = ground (arith, e, f) in
          subst (λ b. IsSorted (if b then (name, service) ∷ p ∷ m else p ∷ emplace name service m))
            (sym e)
            (emplace-AllAbove p.0 name service m more a, emplace-IsSorted name service m after s)
    ]

-- A service under a new name is added, and the names stay in their order.
pub add_service_lem :
    (name service : ℕ) (m : ServiceMap)
    → find same_name name m ≡ none
    → IsSorted m
    → (m' : ServiceMap) × (add_service name service m ≡ some m') × IsSorted m'
unfolding add_service
add_service_lem name service m f s =
    (emplace name service m, ground (arith, f), emplace-IsSorted name service m f s)

erase_above : (name : ℕ) (m : ServiceMap) → AllAbove name m → erase same_name name m ≡ m
unfolding erase
erase_above name [] a = refl
erase_above name (p ∷ m) (l, a) = ground (arith, l, erase_above name m a)

close_each_lem : (m : ServiceMap) → IsSorted m → close_each m m ≡ some ([], with_rest m)
unfolding close_each remove_service find erase
close_each_lem [] s = refl
close_each_lem (p ∷ m) (a, s) =
    let rest = close_each_lem m s in ground (arith, erase_above p.0 m a, rest)

-- `Close` of services under different names fails no assertion. It closes and deletes each once, in
-- the order of the names, and while one is closed the map has exactly those behind it.
pub close_lem : (m : ServiceMap) → IsSorted m → close m ≡ some (with_rest m)
unfolding close
close_lem m s = ground (arith, close_each_lem m s)

abbrev pub IsSingle : Singleton → Type 0
IsSingle s = elim s.instance_ [
  | none ↦ (s.made ≡ s.deleted) × (s.deleted ≤ 1) × (s.destroyed ≡ (s.deleted == 1))
  | some i ↦ (s.made ≡ 1) × (s.deleted ≡ 0) × (s.destroyed ≡ false)
]

kept : (s t : Singleton) → some s ≡ some t → IsSingle s → IsSingle t
kept s t e = subst IsSingle cc

call-IsSingle :
    (c : Call) (i : Option ℕ) (destroyed : Bool) (made deleted : ℕ) (s' : Singleton)
    → IsSingle (record { instance_ = i; destroyed = destroyed; made = made; deleted = deleted })
    → call c (record { instance_ = i; destroyed = destroyed; made = made; deleted = deleted })
      ≡ some s'
    → IsSingle s'
unfolding call
call-IsSingle get_instance (some i) d made deleted s' h e = kept _ s' e h
call-IsSingle get_instance none true made deleted s' h e = absurd cc
call-IsSingle get_instance none false made deleted s' (a, b, c) e =
    let zero : deleted ≡ 0 = ground (arith, b, c) in
    kept (record { instance_ = some made; destroyed = false; made = suc made; deleted = deleted })
      s' e (omega (arith, a, zero), zero, refl)
call-IsSingle destroy_instance none d made deleted s' h e = kept _ s' e h
call-IsSingle destroy_instance (some i) d made deleted s' (a, b, c) e =
    kept (record { instance_ = none; destroyed = true; made = made; deleted = suc deleted }) s' e
      (omega (arith, a, b), omega (arith, b), ground (arith, b))

-- However often and in whichever order `GetInstance` and `DestroyInstance` are called, with no failed
-- assertion: no more than one instance is made, it is deleted no more than once, and the one that was
-- made is there or deleted.
pub calls-IsSingle :
    (l : List Call) (s s' : Singleton) → IsSingle s → calls l s ≡ some s' → IsSingle s'
unfolding calls
calls-IsSingle [] s s' h e = kept s s' e h
calls-IsSingle (c ∷ l) s s' h e = elim (Option-cases (call c s)) [
  | inl n ↦ absurd (ground (arith, n, e))
  | inr (t, f) ↦
      calls-IsSingle l t s' (call-IsSingle c s.instance_ s.destroyed s.made s.deleted t h f)
        (ground (arith, f, e))
]
