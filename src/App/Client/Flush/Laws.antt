-- ===== src/App/Client/Flush/Laws.antt =====
-- Which conversations a flush of the client's group leaves.
use rsock.Base.{
  ℕ, ◌≡◌, refl, sym, ap, subst, ◌∙◌, Bool, Bool-cases, inl, inr, false, Option, none, some, ◌>>=◌,
  List, [], ◌∷◌, ◌++◌, arith, if◌then◌else◌, bytes_eq, bytes_eq_refl, bytes_eq_sym, append_assoc,
}
use rsock.Conn.NetGroup.{NetConn, NetGroup, flush_group}
use rsock.Conn.NetGroup.Send.{Ready}
use rsock.Conn.NetGroup.Flush.{AllAlive, flush_group-AllAlive}
use rsock.Conn.Stat.{flush}
use rsock.App.Index.{index, without, without_absent}
use rsock.App.Client.{CConn, ClientGroup, remove_conn}
use rsock.App.Client.Table.{key_of, by_key, Holds, AreListed, conn_of_key_lem}
use rsock.App.Client.Close.{close_conn_lem}
use rsock.App.Client.Flush.{Stats, dead, close_all, flush_conns, flush_app}

-- Those that are alive: they had data both ways between the two flushes before.
abbrev pub kept : Stats → List CConn → List CConn
kept stats [] = []
kept stats (c ∷ cs) = let rest = kept stats cs in if (stats c).alive then c ∷ rest else rest

-- None has the group's own key.
abbrev pub NotOwn : List ℕ → List CConn → Type 0
NotOwn own [] = Unit {0}
NotOwn own (c ∷ cs) = (bytes_eq c.key own ≡ false) × NotOwn own cs

NotOwn-kept :
    (own : List ℕ) (stats : Stats) (cs : List CConn) → NotOwn own cs → NotOwn own (kept stats cs)
NotOwn-kept own stats [] h = tt
NotOwn-kept own stats (c ∷ cs) (e, h) = elim (Bool-cases ((stats c).alive)) [
  | inl t ↦ ground (arith, t, e, NotOwn-kept own stats cs h)
  | inr f ↦ ground (arith, f, NotOwn-kept own stats cs h)
]

absent_before :
    (k : List ℕ) (pre : List CConn) (c : CConn) (cs : List CConn)
    → by_key k (pre ++ (c ∷ cs)) ≡ none
    → bytes_eq k c.key ≡ false
absent_before k [] c cs h = ground (arith, h)
absent_before k (p ∷ pre) c cs h = absent_before k pre c cs (ground (arith, h))

-- In a list of one for each key, the one in the middle is found, and can be taken out.
middle :
    (n : ℕ) (pre : List CConn) (c : CConn) (cs : List CConn)
    → AreListed n (pre ++ (c ∷ cs))
    → (by_key c.key (pre ++ (c ∷ cs)) ≡ some c)
      × (without bytes_eq key_of c.key (pre ++ (c ∷ cs)) ≡ pre ++ cs)
middle n [] c cs (a, e, u, v, m, l) = (
  ground (arith, bytes_eq_refl c.key),
  ground (arith, bytes_eq_refl c.key, without_absent bytes_eq key_of c.key cs u),
)
middle n (p ∷ pre) c cs (a, e, u, v, m, l) =
    let other : bytes_eq c.key p.key ≡ false =
      bytes_eq_sym c.key p.key ∙ absent_before p.key pre c cs u in
    let (found, out) = middle n pre c cs l in
    (ground (arith, other, found), ground (arith, other, out))

-- After the connections before were taken in, and these ones closed where they are dead.
After : Stats → List CConn → List CConn → ClientGroup → Option ClientGroup → Type 0
After stats pre cs g r =
    (g' : ClientGroup) × (r ≡ some g') × Holds (pre ++ kept stats cs) g' × (g'.key ≡ g.key)

one_more :
    (pre : List CConn) (c : CConn) (cs : List CConn) → (pre ++ (c ∷ [])) ++ cs ≡ pre ++ (c ∷ cs)
one_more pre c cs = simp append_assoc

close_all_lem :
    (stats : Stats) (pre cs : List CConn) (g : ClientGroup)
    → Holds (pre ++ cs) g
    → NotOwn g.key cs
    → After stats pre cs g (close_all (dead stats (index key_of cs)) g)
unfolding dead close_all After remove_conn
close_all_lem stats pre [] g h n = (g, refl, h, refl)
close_all_lem stats pre (c ∷ cs) g h (e, n) =
    let next : Bool → List CConn = λ b. if b then c ∷ kept stats cs else kept stats cs in
    let fails : Bool → List CConn =
      λ b. if b then dead stats (index key_of cs) else c ∷ dead stats (index key_of cs) in
    let Goal : Bool → Type 0 = λ b.
      (g' : ClientGroup) × (close_all (fails b) g ≡ some g')
      × Holds (pre ++ next b) g'
      × (g'.key ≡ g.key) in
    elim (Bool-cases ((stats c).alive)) [
      | inl t ↦
          let (g', done, left, own) =
            close_all_lem stats (pre ++ (c ∷ [])) cs g
              (subst (λ l. Holds l g) (sym (one_more pre c cs)) h) n in
          subst Goal (sym t)
            (g', done, subst (λ l. Holds l g') (one_more pre c (kept stats cs)) left, own)
      | inr f ↦
          let (found, out) = middle g.conv_counter pre c cs h.listed in
          let (closed, held, gone, free) =
            close_conn_lem (pre ++ (c ∷ cs)) g c.key c h
              (conn_of_key_lem (pre ++ (c ∷ cs)) g c.key h ∙ found) e in
          let (g', done, left, own) =
            close_all_lem stats pre cs ((remove_conn g c).0)
              (subst (λ l. Holds l (remove_conn g c).0) out held) n in
          subst Goal (sym f) (g', ground (arith, closed, done), left, own)
    ]

flush_conns_lem :
    (stats : Stats) (cs : List CConn) (g : ClientGroup)
    → Holds cs g
    → NotOwn g.key cs
    → (g' : ClientGroup) × (flush_conns stats g ≡ some (g', λ c. flush (stats c)))
      × Holds (kept stats cs) g'
      × (g'.key ≡ g.key)
unfolding flush_conns After
flush_conns_lem stats cs g h n =
    let (g', done, left, own) = close_all_lem stats [] cs g h n in
    (
      g',
      ap (λ m. (do g' ← close_all (dead stats m) g; some (g', λ c. flush (stats c)))) h.conns_eq
          ∙ ap (λ o. (do g' ← o; some (g', λ c. flush (stats c)))) done,
      left,
      own,
    )

-- In a client's group whose maps hold the same conversations, none under the group's own key, with a
-- network group whose maps agree and whose handler has its callback: a flush fails no assertion. It
-- closes exactly the conversations that are not alive, so that both maps hold the others; what each
-- counts is old then. The maps of the network group
-- agree, and its connections are alive.
pub flush_app_lem :
    (stats : Stats) (cs : List CConn) (g : ClientGroup) (conns : List NetConn) (net : NetGroup)
    (now : ℕ)
    → Holds cs g
    → NotOwn g.key cs
    → Ready conns net
    → (g' : ClientGroup) × (net' : NetGroup) × (conns' : List NetConn) × (flush_app stats g net now
        ≡ some (g', (λ c. flush (stats c), net')))
      × Holds (kept stats cs) g'
      × Ready conns' net'
      × AllAlive conns'
unfolding flush_app
flush_app_lem stats cs g conns net now h n r =
    let (g', done, left, own) = flush_conns_lem stats cs g h n in
    let (net', conns', flushed, ready, alive) = flush_group-AllAlive conns net now r in
    (
      g',
      net',
      conns',
      ap (λ o. (do (g', stats') ← o; net' ← flush_group net now; some (g', (stats', net')))) done
          ∙ ap (λ o. (do net' ← o; some (g', (λ c. flush (stats c), net')))) flushed,
      left,
      ready,
      alive,
    )

kept_none :
    (stats : Stats) (cs : List CConn) → ((c : CConn) → (stats c).alive ≡ false) → kept stats cs ≡ []
kept_none stats [] h = refl
kept_none stats (c ∷ cs) h = ground (arith, h c, kept_none stats cs h)

-- Without data in between, three flushes close every conversation of a client's group whose maps hold
-- the same ones, none under the group's own key, and fail no assertion.
pub flush_conns_idle :
    (stats : Stats) (cs : List CConn) (g : ClientGroup)
    → Holds cs g
    → NotOwn g.key cs
    → (g' : ClientGroup) × (stats' : Stats) × ((do
      (g1, s1) ← flush_conns stats g
      (g2, s2) ← flush_conns s1 g1
      flush_conns s2 g2)
        ≡ some (g', stats'))
      × Holds [] g'
flush_conns_idle stats cs g h n =
    let s1 : Stats = λ c. flush (stats c) in
    let s2 : Stats = λ c. flush (s1 c) in
    let (g1, done1, left1, own1) = flush_conns_lem stats cs g h n in
    let not1 = subst (λ k. NotOwn k (kept stats cs)) (sym own1) (NotOwn-kept g.key stats cs n) in
    let (g2, done2, left2, own2) = flush_conns_lem s1 (kept stats cs) g1 left1 not1 in
    let not2 =
      subst (λ k. NotOwn k (kept s1 (kept stats cs))) (sym own2)
        (NotOwn-kept g1.key s1 (kept stats cs) not1) in
    let (g3, done3, left3, own3) = flush_conns_lem s2 (kept s1 (kept stats cs)) g2 left2 not2 in
    (
      g3,
      λ c. flush (s2 c),
      ap (λ o. (do (g1, s1) ← o; (g2, s2) ← flush_conns s1 g1; flush_conns s2 g2)) done1
          ∙ ap (λ o. (do (g2, s2) ← o; flush_conns s2 g2)) done2
          ∙ done3,
      subst (λ l. Holds l g3) (kept_none s2 (kept s1 (kept stats cs)) (λ c. ground arith)) left3,
    )
