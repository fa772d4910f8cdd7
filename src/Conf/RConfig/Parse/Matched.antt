-- ===== src/Conf/RConfig/Parse/Matched.antt =====
-- The device and the address that `Parse` settles on.
use rsock.Base.{
  ℕ, ◌<◌, ◌^◌, ◌≡◌, ◌⊎◌, refl, sym, ap, subst, ◌∙◌, inl, inr, Bool, Bool-cases, true, false, Option,
  Option-cases, none, some, List, [], arith,
}
use rsock.App.ConvKey.{in_addr2ip}
use rsock.Conf.RConfig.{Text, Pton}
use rsock.Conf.RConfig.Json.{RParam}
use rsock.Conf.RConfig.Parse.{
  Outcome, parsed, ◌>>=◌, Flags, World, is_empty, given, set_target, use_wan, set_dev,
  set_self_cap_ip, set_cap_ports, set_local_udp, set_type, set_keep_alive, parse_param_flags,
  fill_self_cap_ip,
}
use rsock.Conf.RConfig.Parse.Laws.{bind-parsed}
use rsock.Setup.Devices.{Device, Gateway, dev_ip_match, ipv4_of_dev, get_wan_info}
use rsock.Setup.Devices.Laws.{
  OnlyAt, AllWords, dev_ip_match-ipv4_of_dev, dev_ip_match-get_wan_info, dev_with_ipv4-match,
}

-- The device and the address are those of before.
abbrev Keeps : RParam → RParam → Type 0
Keeps p q = (q.dev ≡ p.dev) × (q.self_cap_ip ≡ p.self_cap_ip)

-- A step keeps them where it succeeds.
abbrev KeepsBy : RParam → Outcome RParam → Type 0
KeepsBy p o = (q : RParam) → o ≡ parsed q → Keeps p q

set_target-Keeps :
    (w : World) (is_server : Bool) (o : Option Text) (p : RParam)
    → KeepsBy p (set_target w is_server o p)
unfolding set_target
set_target-Keeps w is_server none p q h = cc
set_target-Keeps w is_server (some s) p q h = ground (arith, h)

set_cap_ports-Keeps : (o : Option Text) (p : RParam) → KeepsBy p (set_cap_ports o p)
unfolding set_cap_ports
set_cap_ports-Keeps none p q h = ground (arith, h)
set_cap_ports-Keeps (some s) p q h = ground (arith, h)

set_local_udp-Keeps :
    (w : World) (is_server : Bool) (o : Option Text) (p : RParam)
    → KeepsBy p (set_local_udp w is_server o p)
unfolding set_local_udp
set_local_udp-Keeps w is_server none p q h = ground (arith, h)
set_local_udp-Keeps w is_server (some s) p q h = ground (arith, h)

set_type-Keeps : (o : Option Text) (p : RParam) → KeepsBy p (set_type o p)
unfolding set_type
set_type-Keeps none p q h = ground (arith, h)
set_type-Keeps (some s) p q h = ground (arith, h)

set_keep_alive-Keeps : (o : Option ℕ) (p : RParam) → KeepsBy p (set_keep_alive o p)
unfolding set_keep_alive
set_keep_alive-Keeps none p q h = ground (arith, h)
set_keep_alive-Keeps (some n) p q h = ground (arith, h)

-- The steps after the address.
settled : World → Bool → Flags → RParam → Outcome RParam
settled w is_server f p = do
  p3 ← set_cap_ports f.cap_ports p
  p4 ← set_local_udp w is_server f.local_udp p3
  p5 ← set_type f.type (
      given f.key (λ s p. record p { hash_key = s })
        (given f.duration (λ n p. record p { app_keep_alive_sec = n }) p4))
  set_keep_alive f.keep_alive (given f.cap_timeout (λ n p. record p { cap_timeout = n }) p5)

given-Keeps :
    {V : Type 0} (o : Option V) (set : V → RParam → RParam) (p : RParam)
    → ((v : V) (q : RParam) → Keeps q (set v q))
    → Keeps p (given o set p)
given-Keeps none set p h = (refl, refl)
given-Keeps (some v) set p h = h v p

settled-Keeps :
    (w : World) (is_server : Bool) (f : Flags) (p : RParam) → KeepsBy p (settled w is_server f p)
unfolding settled
settled-Keeps w is_server f p q h =
    let (p3, e3, h3) =
      bind-parsed {A = RParam} (set_cap_ports f.cap_ports p)
        (λ p3. (do
          p4 ← set_local_udp w is_server f.local_udp p3
          p5 ← set_type f.type (
              given f.key (λ s p. record p { hash_key = s })
                (given f.duration (λ n p. record p { app_keep_alive_sec = n }) p4))
          set_keep_alive f.keep_alive
              (given f.cap_timeout (λ n p. record p { cap_timeout = n }) p5)))
        q h in
    let (p4, e4, h4) =
      bind-parsed {A = RParam} (set_local_udp w is_server f.local_udp p3)
        (λ p4. (do
          p5 ← set_type f.type (
              given f.key (λ s p. record p { hash_key = s })
                (given f.duration (λ n p. record p { app_keep_alive_sec = n }) p4))
          set_keep_alive f.keep_alive
              (given f.cap_timeout (λ n p. record p { cap_timeout = n }) p5)))
        q h3 in
    let timed = given f.duration (λ n p. record p { app_keep_alive_sec = n }) p4 in
    let keyed = given f.key (λ s p. record p { hash_key = s }) timed in
    let (p5, e5, h5) =
      bind-parsed {A = RParam} (set_type f.type keyed)
        (λ p5.
          set_keep_alive f.keep_alive
            (given f.cap_timeout (λ n p. record p { cap_timeout = n }) p5))
        q h4 in
    ground (
      arith,
      set_cap_ports-Keeps f.cap_ports p p3 e3,
      set_local_udp-Keeps w is_server f.local_udp p3 p4 e4,
      given-Keeps f.duration (λ n p. record p { app_keep_alive_sec = n }) p4 (λ n q. (refl, refl)),
      given-Keeps f.key (λ s p. record p { hash_key = s }) timed (λ s q. (refl, refl)),
      set_type-Keeps f.type keyed p5 e5,
      given-Keeps f.cap_timeout (λ n p. record p { cap_timeout = n }) p5 (λ n q. (refl, refl)),
      set_keep_alive-Keeps f.keep_alive
          (given f.cap_timeout (λ n p. record p { cap_timeout = n }) p5) q h5,
    )

module _ (inet_addr : Text → ℕ) (reads : (n : ℕ) → n < 2 ^ 32 → inet_addr (in_addr2ip n) ≡ n)
    (owner : ℕ → Text) (l : List Device) (words : AllWords l)
    (distinct : (n : ℕ) → OnlyAt n (owner n) l) (inet_pton : Text → Pton) (id_of : Text → List ℕ)
    (opened : Bool) (route_get : ℕ → Option Gateway) (targets : List Text) where
  -- The machine with these devices and routes.
  abbrev pub machine : World
  machine = record {
    inet_pton = inet_pton;
    inet_addr = inet_addr;
    devices = some l;
    wan_info = get_wan_info (some l) opened route_get inet_addr targets;
    id_of = id_of;
  }

  abbrev pub Matches : RParam → Type 0
  Matches p = (is_empty p.dev ≡ true) ⊎ (dev_ip_match (some l) inet_addr p.dev p.self_cap_ip ≡ true)

  fill-Matches :
      (p q : RParam)
      → (is_empty p.self_cap_ip ≡ false → Matches p)
      → fill_self_cap_ip machine p ≡ parsed q
      → Matches q
  unfolding fill_self_cap_ip
  fill-Matches p q m h = elim (Bool-cases (is_empty p.self_cap_ip)) [
    | inl e ↦ elim (Option-cases (ipv4_of_dev (some l) p.dev)) [
      | inl f ↦ absurd (ground (arith, h, e, f))
      | inr (ip, f) ↦
          let it : record p { self_cap_ip = ip } ≡ q = ground (arith, h, e, f) in
          subst Matches it
            (inr (dev_ip_match-ipv4_of_dev inet_addr reads owner l words distinct p.dev ip f))
    ]
    | inr e ↦ let it : p ≡ q = ground (arith, h, e) in subst Matches it (m e)
  ]

  wan-Matches :
      (o : Option (Text × Text)) (p0 p : RParam)
      → get_wan_info (some l) opened route_get inet_addr targets ≡ o
      → use_wan o p0 ≡ parsed p
      → Matches p
  unfolding use_wan
  wan-Matches none p0 p e h = cc
  wan-Matches (some (name, ip)) p0 p e h = elim (Bool-cases (is_empty name)) [
    | inl f ↦ absurd (ground (arith, h, f))
    | inr f ↦
        let it : record p0 { dev = name; self_cap_ip = ip } ≡ p = ground (arith, h, f) in
        subst Matches it (
          inr (
            dev_ip_match-get_wan_info inet_addr reads owner l words distinct opened route_get
              targets name ip e))
  ]

  given-Matches :
      (p : RParam) (ip : Text) → p.dev ≡ [] → Matches (set_self_cap_ip machine (some ip) p)
  unfolding set_self_cap_ip
  given-Matches p ip empty = elim (dev_with_ipv4-match (some l) inet_addr p.dev ip) [
    | inl e ↦ inl (ap is_empty (e ∙ empty))
    | inr e ↦ inr e
  ]

  chosen-Matches :
      (dev self : Option Text) (p0 p : RParam)
      → (dev ≡ none) ⊎ (self ≡ none)
      → p0.dev ≡ []
      → p0.self_cap_ip ≡ []
      → set_dev machine dev self p0 ≡ parsed p
      → is_empty (set_self_cap_ip machine self p).self_cap_ip ≡ false
      → Matches (set_self_cap_ip machine self p)
  unfolding set_dev set_self_cap_ip
  chosen-Matches (some d) (some ip) p0 p (inl e) no_dev no_ip h full = absurd (cc)
  chosen-Matches (some d) (some ip) p0 p (inr e) no_dev no_ip h full = absurd (cc)
  chosen-Matches (some d) none p0 p one no_dev no_ip h full =
      absurd (ground (arith, h, no_ip, full))
  chosen-Matches none none p0 p one no_dev no_ip h full =
      wan-Matches (get_wan_info (some l) opened route_get inet_addr targets) p0 p refl h
  chosen-Matches none (some ip) p0 p one no_dev no_ip h full =
      let it : p0 ≡ p = ground (arith, h) in
      given-Matches p ip (ap (λ (q : RParam). q.dev) (sym it) ∙ no_dev)

  -- On a machine whose IPv4 addresses are at devices of one name each, whose `inet_addr` reads the text
  -- of an address back, and where the default device is the one that `GetWanInfo` finds, the flags fix
  -- a device and an address that match, unless there is no device at all, or both were given as flags:
  -- then `CheckValidation` does not refuse the two as a mismatch.
  pub parse_param_flags-Matches :
      (is_server : Bool) (f : Flags) (p0 p : RParam)
      → (f.dev ≡ none) ⊎ (f.self_cap_ip ≡ none)
      → p0.dev ≡ []
      → p0.self_cap_ip ≡ []
      → (parse_param_flags machine is_server f p0 >>= fill_self_cap_ip machine) ≡ parsed p
      → Matches p
  unfolding parse_param_flags settled
  parse_param_flags-Matches is_server f p0 p one no_dev no_ip h =
      let (q, e, h') =
        bind-parsed {A = RParam} (parse_param_flags machine is_server f p0)
          (fill_self_cap_ip machine) p h in
      let (p1, e1, h1) =
        bind-parsed {A = RParam} (set_target machine is_server f.target_addr p0)
          (λ p1. (do
            p2 ← set_dev machine f.dev f.self_cap_ip p1
            settled machine is_server f (set_self_cap_ip machine f.self_cap_ip p2)))
          q e in
      let (p2, e2, h2) =
        bind-parsed {A = RParam} (set_dev machine f.dev f.self_cap_ip p1)
          (λ p2. settled machine is_server f (set_self_cap_ip machine f.self_cap_ip p2)) q h1 in
      let kept = set_target-Keeps machine is_server f.target_addr p0 p1 e1 in
      let same =
        settled-Keeps machine is_server f (set_self_cap_ip machine f.self_cap_ip p2) q h2 in
      let chosen =
        chosen-Matches f.dev f.self_cap_ip p1 p2 one (kept.0 ∙ no_dev) (kept.1 ∙ no_ip) e2 in
      fill-Matches q p
        (λ full.
          moved (set_self_cap_ip machine f.self_cap_ip p2) q same
            (chosen (ap is_empty (sym same.1) ∙ full)))
        h'
    where
      moved : (a b : RParam) → Keeps a b → Matches a → Matches b
      moved a b (d, i) (inl e) = inl (ap is_empty d ∙ e)
      moved a b (d, i) (inr e) = inr (
          ap (λ n. dev_ip_match (some l) inet_addr n b.self_cap_ip) d
          ∙ ap (λ n. dev_ip_match (some l) inet_addr a.dev n) i
          ∙ e)
