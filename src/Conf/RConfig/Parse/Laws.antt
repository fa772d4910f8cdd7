-- ===== src/Conf/RConfig/Parse/Laws.antt =====
-- A configuration that `Parse` accepts is one that the program can start with.
use rsock.Base.{
  ◌<◌, ◌≤◌, ◌^◌, ◌↔◌, ◌≡◌, ◌≢◌, refl, ap, sym, ◌∙◌, subst, Bool, true, false, not, ◌||◌, List, [],
  ◌∷◌, arith, ◌==◌,
}
use rsock.Conf.RConfig.{Text}
use rsock.Conf.RConfig.Json.{RConfig}
use rsock.Conf.RConfig.Parse.{
  Failure, Outcome, parsed, failed, ◌>>=◌, Flags, World, Caps, caps_of, is_empty, is_empty_ports,
  is_known, valid_ip4, empty_id_buf, all_pass, validity, check_validation, parse, parse_source,
  param_of, fill_self_cap_ip,
}
use rsock.Setup.Devices.{dev_ip_match}

abbrev AllTrue : List (Bool × Failure) → Type 0
AllTrue [] = Unit {0}
AllTrue ((b, bad) ∷ tests) = (b ≡ true) × AllTrue tests

all_pass-AllTrue :
    {A : Type 0} (tests : List (Bool × Failure)) (a b : A)
    → all_pass tests a ≡ parsed b
    → AllTrue tests × (a ≡ b)
all_pass-AllTrue [] a b h = (tt, cc)
all_pass-AllTrue ((true, bad) ∷ tests) a b h =
    let (all, same) = all_pass-AllTrue tests a b h in ((refl, all), same)
all_pass-AllTrue ((false, bad) ∷ tests) a b h = cc

pub bind-parsed :
    {A B : Type 0} (m : Outcome A) (f : A → Outcome B) (b : B)
    → (m >>= f) ≡ parsed b
    → (a : A) × (m ≡ parsed a) × (f a ≡ parsed b)
bind-parsed (parsed a) f b h = (a, refl, h)
bind-parsed (failed e) f b h = cc

bind_assoc :
    {A B C : Type 0} (m : Outcome A) (f : A → Outcome B) (g : B → Outcome C)
    → (m >>= λ a. (f a >>= g)) ≡ ((m >>= f) >>= g)
bind_assoc (parsed a) f g = refl
bind_assoc (failed e) f g = refl

-- What the program needs of a configuration.
pub record IsValid (w : World) (c : RConfig) (k : Caps) : Type 0 where
  pub device : c.param.dev ≢ []
  pub listens :
      c.is_server ≡ false
      → (c.param.local_udp_ip ≢ [])
        × (valid_ip4 (w.inet_pton c.param.local_udp_ip) ≡ true)
        × (0 < c.param.local_udp_port)
  pub self :
      (c.param.self_cap_ip ≢ [])
      × (valid_ip4 (w.inet_pton c.param.self_cap_ip) ≡ true)
      × (k.self_cap_int ≡ w.inet_addr c.param.self_cap_ip)
  pub target :
      (c.param.target_ip ≢ [])
      × (valid_ip4 (w.inet_pton c.param.target_ip) ≡ true)
      × (k.target_cap_int ≡ w.inet_addr c.param.target_ip)
  pub words : (k.self_cap_int ≢ 0) × (k.target_cap_int ≢ 0)
  pub id : (k.id ≡ w.id_of c.param.hash_key) × (empty_id_buf k.id ≡ false)
  pub ports : is_empty_ports c.param.cap_ports ≡ false
  pub type : is_known c.param.type ≡ true
  pub timeout : (0 < c.param.cap_timeout) × (c.param.cap_timeout < 50)
  pub keep_alive :
      (0 < c.param.keep_alive_interval_sec) × (c.param.keep_alive_interval_sec < 2 ^ 31)
  pub duration : (10 ≤ c.param.app_keep_alive_sec) × (c.param.app_keep_alive_sec ≤ 6000)
  pub matched : dev_ip_match w.devices w.inet_addr c.param.dev c.param.self_cap_ip ≡ true

is_empty_lem : (s : Text) → not (is_empty s) ≡ true → s ≢ []
is_empty_lem [] h = absurd (cc)
is_empty_lem (c ∷ s) h = λ e. cc

or_client : (server b : Bool) → (server || b) ≡ true → server ≡ false → b ≡ true
or_client true b h e = cc
or_client false b h e = h

client_or : (server b : Bool) → (server ≡ false → b ≡ true) → (server || b) ≡ true
client_or true b h = refl
client_or false b h = h refl

not_empty : (s : Text) → s ≢ [] → not (is_empty s) ≡ true
not_empty [] h = absurd (h refl)
not_empty (c ∷ s) h = refl

is_refuted : (b : Bool) → not b ≡ true → b ≡ false
is_refuted true h = cc
is_refuted false h = refl

AllTrue-all_pass :
    {A : Type 0} (tests : List (Bool × Failure)) (a : A)
    → AllTrue tests
    → all_pass tests a ≡ parsed a
AllTrue-all_pass [] a h = refl
AllTrue-all_pass ((b, bad) ∷ tests) a (e, h) = ground (arith, e, AllTrue-all_pass tests a h)

IsValid-AllTrue :
    (w : World) (c : RConfig)
    → IsValid w c (caps_of w c.param)
    → AllTrue (validity w c (caps_of w c.param))
unfolding caps_of
IsValid-AllTrue w c v =
    let p = c.param in
    (
      not_empty p.dev v.device,
      (
        client_or c.is_server (not (is_empty p.local_udp_ip))
            (λ e. not_empty p.local_udp_ip (v.listens e).0),
        (
          client_or c.is_server (valid_ip4 (w.inet_pton p.local_udp_ip)) (λ e. (v.listens e).1),
          (
            client_or c.is_server (not (p.local_udp_port == 0))
                (λ e. (let q = (v.listens e).2 in ground (arith, q))),
            (
              not_empty p.self_cap_ip v.self.0,
              (
                v.self.1,
                (
                  not_empty p.target_ip v.target.0,
                  (
                    v.target.1,
                    (
                      ground (arith, v.ports),
                      (
                        (let q = v.words.0 in ground (arith, q)),
                        (
                          (let q = v.words.1 in ground (arith, q)),
                          (
                            (let q = v.id.1 in ground (arith, q)),
                            (
                              v.type,
                              (
                                (let q = v.timeout in ground (arith, q)),
                                (
                                  (let q = v.keep_alive in ground (arith, q)),
                                  (v.matched, ((let q = v.duration in ground (arith, q)), tt)),
                                ),
                              ),
                            ),
                          ),
                        ),
                      ),
                    ),
                  ),
                ),
              ),
            ),
          ),
        ),
      ),
    )

check_validation-IsValid :
    (w : World) (c : RConfig) (r : RConfig × Caps)
    → check_validation w c (caps_of w c.param) ≡ parsed r
    → IsValid w r.0 r.1
unfolding check_validation caps_of
check_validation-IsValid w c r h =
    let k = caps_of w c.param in
    let p = c.param in
    let (
      (
        dev,
        (
          ip,
          (
            ip_ok,
            (
              port,
              (
                self,
                (
                  self_ok,
                  (
                    target,
                    (
                      target_ok,
                      (
                        ports,
                        (int1, (int2, (id, (known, (timeout, (keep, (matched, (duration, _)))))))),
                      ),
                    ),
                  ),
                ),
              ),
            ),
          ),
        ),
      ),
      same,
    ) =
      all_pass-AllTrue (validity w c k) (c, k) r h in
    subst (λ (q : RConfig × Caps). IsValid w q.0 q.1) same
      (record {
        device = is_empty_lem p.dev dev;
        listens = λ client. (
          is_empty_lem p.local_udp_ip
              (or_client c.is_server (not (is_empty p.local_udp_ip)) ip client),
          or_client c.is_server (valid_ip4 (w.inet_pton p.local_udp_ip)) ip_ok client,
          ground (arith, or_client c.is_server (not (p.local_udp_port == 0)) port client),
        );
        self = (is_empty_lem p.self_cap_ip self, self_ok, refl);
        target = (is_empty_lem p.target_ip target, target_ok, refl);
        words = (ground (arith, int1), ground (arith, int2));
        id = (refl, is_refuted (empty_id_buf k.id) id);
        ports = is_refuted (is_empty_ports p.cap_ports) ports;
        type = known;
        timeout = ground (arith, timeout);
        keep_alive = (ground (arith, keep), ground (arith, keep));
        duration = ground (arith, duration);
        matched = matched;
      })

-- The configuration that `Parse` reads, from the flags or from a file, before it checks it.
abbrev pub read_config : World → Bool → Flags → RConfig → Outcome RConfig
read_config w is_server f c0 = do
  c1 ← parse_source w f f.json (record c0 { is_server = is_server })
  param_of (fill_self_cap_ip w) c1

-- `Parse` accepts exactly what it reads and is valid: a device; on the client's side a local address
-- and port; texts of its own address and of the target's; each of these addresses valid for
-- `ValidIp4`; the words that `inet_addr` reads, which are not 0; an id of the key that is not all
-- zeros; ports; a known type; a capture timeout of 1 to 49 ms, a positive interval of the keep-alive,
-- 10 to 6000 s to stay; and a device that matches the address. It gives that configuration with the
-- words and the id.
pub parse-IsValid_iff :
    (w : World) (is_server : Bool) (f : Flags) (c0 : RConfig) (r : RConfig × Caps)
    → (parse w is_server f c0 ≡ parsed r) ↔ (
        (read_config w is_server f c0 ≡ parsed r.0)
        × (r.1 ≡ caps_of w r.0.param)
        × IsValid w r.0 r.1)
unfolding parse check_validation
parse-IsValid_iff w is_server f c0 (c, k) =
    let source : Outcome RConfig = parse_source w f f.json (record c0 { is_server = is_server }) in
    let read : RConfig → Outcome RConfig = λ c1. param_of (fill_self_cap_ip w) c1 in
    let check : RConfig → Outcome (RConfig × Caps) =
      λ c2. check_validation w c2 (caps_of w c2.param) in
    (
      (λ h.
          let (c2, e, h2) =
            bind-parsed (source >>= read) check (c, k) (sym (bind_assoc source read check) ∙ h) in
          let (all, same) =
            all_pass-AllTrue (validity w c2 (caps_of w c2.param)) (c2, caps_of w c2.param) (c, k)
              h2 in
          (
            e ∙ ap (λ q. parsed q.0) same,
            subst (λ (q : RConfig × Caps). q.1 ≡ caps_of w q.0.param) same refl,
            check_validation-IsValid w c2 (c, k) h2,
          )),
      (λ (e, same, v).
          bind_assoc source read check
          ∙ ap (λ o. o >>= check) e
          ∙ AllTrue-all_pass (validity w c (caps_of w c.param)) (c, caps_of w c.param)
              (IsValid-AllTrue w c (subst (λ x. IsValid w c x) same v))
          ∙ ap (λ x. parsed (c, x)) (sym same)),
    )
