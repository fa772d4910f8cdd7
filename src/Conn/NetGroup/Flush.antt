-- ===== src/Conn/NetGroup/Flush.antt =====
-- A flush of the group takes its dead connections out.
use rsock.Base.{
  ℕ, ◌≡◌, inl, inr, refl, sym, ap, ◌∙◌, none, subst, Bool, Bool-cases, true, false, ◌||◌, some,
  List, [], ◌∷◌, ◌==◌, if◌then◌else◌, map, arith,
}
use rsock.Conn.NetGroup.{NetConn, NetGroup, dead_conns, remove_dead, flush_group}
use rsock.Conn.NetGroup.Keyed.{keyed, without, of_key}
use rsock.Conn.NetGroup.Keys.{string_key}
use rsock.Conn.NetGroup.Send.{Ready, child_conn_err_cb_lem}

has_key : ℕ → List NetConn → Bool
has_key k [] = false
has_key k (c ∷ fails) = let rest = has_key k fails in if k == c.int_key then true else rest

-- Every connection is alive or has the key of one that is to go.
AliveOr : List NetConn → List NetConn → Type 0
AliveOr fails [] = Unit {0}
AliveOr fails (c ∷ cs) = (c.alive || has_key c.int_key fails ≡ true) × AliveOr fails cs

-- Every connection is alive.
abbrev pub AllAlive : List NetConn → Type 0
AllAlive [] = Unit {0}
AllAlive (c ∷ cs) = (c.alive ≡ true) × AllAlive cs

AliveOr-without :
    (f : NetConn) (fails cs : List NetConn)
    → AliveOr (f ∷ fails) cs
    → AliveOr fails (without f.int_key cs)
unfolding AliveOr has_key
AliveOr-without f fails [] a = tt
AliveOr-without f fails (c ∷ cs) a = ground (arith, a.0, AliveOr-without f fails cs a.1)

AliveOr-none : (cs : List NetConn) → AliveOr [] cs → AllAlive cs
unfolding AliveOr has_key
AliveOr-none [] a = tt
AliveOr-none (c ∷ cs) a = (ground (arith, a.0), AliveOr-none cs a.1)

AliveOr-more : (f : NetConn) (fails cs : List NetConn) → AliveOr fails cs → AliveOr (f ∷ fails) cs
unfolding AliveOr has_key
AliveOr-more f fails [] a = tt
AliveOr-more f fails (c ∷ cs) a = (ground (arith, a.0), AliveOr-more f fails cs a.1)

AliveOr-dead_conns :
    (key : NetConn → List ℕ) (cs : List NetConn) → AliveOr (dead_conns (map (keyed key) cs)) cs
unfolding AliveOr has_key dead_conns
AliveOr-dead_conns key [] = tt
AliveOr-dead_conns key (c ∷ cs) = elim (Bool-cases c.alive) [
  | inl e ↦ ground (arith, e, AliveOr-dead_conns key cs)
  | inr e ↦
      ground
        (arith, e, AliveOr-more c (dead_conns (map (keyed key) cs)) cs (AliveOr-dead_conns key cs))
]

remove_dead_lem :
    (fails cs : List NetConn) (g : NetGroup) (now : ℕ)
    → Ready cs g
    → AliveOr fails cs
    → (g' : NetGroup) × (cs' : List NetConn) × (remove_dead fails g now ≡ some g')
      × Ready cs' g'
      × AllAlive cs'
unfolding remove_dead
remove_dead_lem [] cs g now v a = (g, cs, refl, v, AliveOr-none cs a)
remove_dead_lem (f ∷ fails) cs g now v a =
    let (g1, e, v1) = child_conn_err_cb_lem cs g f now v in
    let (g', cs', e', v', alive) =
      remove_dead_lem fails (without f.int_key cs) g1 now v1 (AliveOr-without f fails cs a) in
    (g', cs', simp (e, e') refl, v', alive)

-- A connection that stays: no dead one has its key.
remaining : List NetConn → List NetConn → List NetConn
remaining fails [] = []
remaining fails (c ∷ cs) =
    let rest = remaining fails cs in if has_key c.int_key fails then rest else c ∷ rest

remaining-without :
    (f : NetConn) (fails cs : List NetConn)
    → remaining fails (without f.int_key cs) ≡ remaining (f ∷ fails) cs
unfolding remaining has_key
remaining-without f fails [] = refl
remaining-without f fails (c ∷ cs) = ground (arith, remaining-without f fails cs)

remaining-none : (cs : List NetConn) → remaining [] cs ≡ cs
unfolding remaining has_key
remaining-none [] = refl
remaining-none (c ∷ cs) = ground (arith, remaining-none cs)

-- No two have one key, as in a map.
abbrev pub Distinct : List NetConn → Type 0
Distinct [] = Unit {0}
Distinct (c ∷ cs) = (of_key c.int_key cs ≡ none) × Distinct cs

-- The live ones, in their order.
abbrev pub live_of : List NetConn → List NetConn
live_of [] = []
live_of (c ∷ cs) = let rest = live_of cs in if c.alive then c ∷ rest else rest

remaining-absent :
    (c : NetConn) (fails cs : List NetConn)
    → of_key c.int_key cs ≡ none
    → remaining (c ∷ fails) cs ≡ remaining fails cs
unfolding remaining has_key
remaining-absent c fails [] f = refl
remaining-absent c fails (d ∷ cs) f = ground (arith, f, remaining-absent c fails cs)

has_key-dead_conns :
    (key : NetConn → List ℕ) (k : ℕ) (cs : List NetConn)
    → of_key k cs ≡ none
    → has_key k (dead_conns (map (keyed key) cs)) ≡ false
unfolding has_key dead_conns
has_key-dead_conns key k [] f = refl
has_key-dead_conns key k (d ∷ cs) f = ground (arith, f, has_key-dead_conns key k cs)

remaining-dead_conns :
    (key : NetConn → List ℕ) (cs : List NetConn)
    → Distinct cs
    → remaining (dead_conns (map (keyed key) cs)) cs ≡ live_of cs
unfolding remaining dead_conns has_key
remaining-dead_conns key [] u = refl
remaining-dead_conns key (c ∷ cs) (f, u) = elim (Bool-cases c.alive) [
  | inl e ↦ ground (arith, e, has_key-dead_conns key c.int_key cs f, remaining-dead_conns key cs u)
  | inr e ↦ ground (
    arith,
    e,
    remaining-absent c (dead_conns (map (keyed key) cs)) cs f,
    remaining-dead_conns key cs u,
  )
]

remove_dead-remaining :
    (fails cs : List NetConn) (g : NetGroup) (now : ℕ)
    → Ready cs g
    → (g' : NetGroup) × (remove_dead fails g now ≡ some g') × Ready (remaining fails cs) g'
unfolding remove_dead
remove_dead-remaining [] cs g now v = (g, refl, subst (λ l. Ready l g) (sym (remaining-none cs)) v)
remove_dead-remaining (f ∷ fails) cs g now v =
    let (g1, e, v1) = child_conn_err_cb_lem cs g f now v in
    let (g', e', v') = remove_dead-remaining fails (without f.int_key cs) g1 now v1 in
    (g', simp (e, e') refl, subst (λ l. Ready l g') (remaining-without f fails cs) v')

-- A flush of a group whose two maps hold the same connections, one for each key, and whose handler
-- has its callback, fails no assertion and throws nothing; afterwards both maps hold exactly those
-- that were alive, in their order.
pub flush_group_lem :
    (cs : List NetConn) (g : NetGroup) (now : ℕ)
    → Ready cs g
    → Distinct cs
    → (g' : NetGroup) × (flush_group g now ≡ some g') × Ready (live_of cs) g'
unfolding flush_group
flush_group_lem cs g now v u =
    let (g', done, left) = remove_dead-remaining (dead_conns g.conns) cs g now v in
    let same : remaining (dead_conns g.conns) cs ≡ live_of cs =
      ap (λ m. remaining (dead_conns m) cs) v.holds.by_string
      ∙ remaining-dead_conns string_key cs u in
    (g', done, subst (λ l. Ready l g') same left)

-- A flush of a group whose two maps agree and whose handler has its callback fails no assertion and
-- throws nothing; afterwards the maps agree, and all connections in them are alive.
pub flush_group-AllAlive :
    (cs : List NetConn) (g : NetGroup) (now : ℕ)
    → Ready cs g
    → (g' : NetGroup) × (cs' : List NetConn) × (flush_group g now ≡ some g')
      × Ready cs' g'
      × AllAlive cs'
unfolding flush_group
flush_group-AllAlive cs g now v = remove_dead_lem (dead_conns g.conns) cs g now v (
    subst (λ m. AliveOr (dead_conns m) cs) (sym v.holds.by_string)
      (AliveOr-dead_conns (string_key) cs))
