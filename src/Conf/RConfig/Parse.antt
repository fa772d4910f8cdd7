-- ===== src/Conf/RConfig/Parse.antt =====
-- `RConfig::Parse` and `CheckValidation` of bean/RConfig.cpp. What the library args read from the
-- command line is a record of flags, each with its value where it was given.
pub mod Laws
pub mod Matched
use rsock.Base.{
  ℕ, ◌^◌, Bool, true, false, not, ◌&&◌, ◌||◌, Option, none, some, List, [], ◌∷◌, ltb, leb, ◌==◌,
  if◌then◌else◌,
}
use rsock.Conf.PortList.{RPortList, accepted, rejected, thrown, from_string}
use rsock.Conf.RConfig.{
  Text, Pton, valid_ip4, type_of_str, parse_addr, address, refused, stoi_throws, om_pipe_tcp,
  om_pipe_udp, om_pipe_all,
}
use rsock.Conf.RConfig.Json.{RConfig, RParam, Json, Severity, verbose, parse_json}
use rsock.Setup.Devices.{Device, dev_with_ipv4, dev_ip_match, ipv4_of_dev}

-- How a step fails: by an `args::Error`, which `Parse` catches, by an exception that it does not catch,
-- or by a failed assertion. `json_fails` is for either kind of exception.
pub data Failure : Type 0 where
  args_error : Failure
  escapes : Failure
  asserts : Failure
  json_fails : Failure

pub data Outcome (A : Type 0) : Type 0 where
  parsed : A → Outcome A
  failed : Failure → Outcome A

infixl 5 ◌>>=◌
abbrev pub ◌>>=◌ : {A B : Type 0} → Outcome A → (A → Outcome B) → Outcome B
parsed a >>= f = f a
failed e >>= f = failed e

-- `Get` of a flag for a file gives the JSON value in it, and none where it cannot be read. A
-- `uint32_t` and a `uint16_t` are in range, and an `int` is its bit pattern.
pub record Flags : Type 0 where
  pub json : Option (Option Json)
  pub target_addr : Option Text
  pub dev : Option Text
  pub self_cap_ip : Option Text
  pub local_udp : Option Text
  pub cap_ports : Option Text
  pub duration : Option ℕ
  pub key : Option Text
  pub type : Option Text
  pub daemon : Option ℕ
  pub verbose_mode : Bool
  pub log : Option Text
  pub cap_timeout : Option ℕ
  pub keep_alive : Option ℕ

-- What is not under the program's control: libc, libpcap, the routes, and the clock with MD5.
pub record World : Type 0 where
  pub inet_pton : Text → Pton
  pub inet_addr : Text → ℕ
  pub devices : Option (List Device)
  pub wan_info : Option (Text × Text)
  pub id_of : Text → List ℕ

-- The fields that have no place in the JSON value.
pub record Caps : Type 0 where
  pub self_cap_int : ℕ
  pub target_cap_int : ℕ
  pub id : List ℕ

abbrev pub is_empty : Text → Bool
is_empty [] = true
is_empty (c ∷ s) = false

-- A flag that changes the parameters where it is given.
abbrev pub given {ℓ} : {V : Type ℓ} → Option V → (V → RParam → RParam) → RParam → RParam
given none set p = p
given (some v) set p = set v p

abbrev param_of : (RParam → Outcome RParam) → RConfig → Outcome RConfig
param_of f c = f c.param >>= λ p. parsed (record c { param = p })

abbrev pub is_empty_ports : RPortList → Bool
is_empty_ports l = elim l.single_ones [
  | [] ↦ elim l.valentines [ [] ↦ true | p ∷ ps ↦ false ]
  | s ∷ ss ↦ false
]

set_target : World → Bool → Option Text → RParam → Outcome RParam
set_target w is_server none p = failed args_error
set_target w is_server (some s) p = elim (parse_addr w.inet_pton s p.target_port is_server) [
  | address ip port ↦
      if valid_ip4 (w.inet_pton ip)
      then parsed (record p { target_ip = ip; target_port = port })
      else failed args_error
  | refused ↦ failed args_error
  | stoi_throws ↦ failed escapes
]

use_wan : Option (Text × Text) → RParam → Outcome RParam
use_wan none p = failed args_error
use_wan (some (dev, ip)) p =
    if is_empty dev then failed args_error else parsed (record p { dev = dev; self_cap_ip = ip })

-- The device: the one given, or the default one where there is no address either.
set_dev : World → Option Text → Option Text → RParam → Outcome RParam
unfolding use_wan
set_dev w (some d) self p = parsed (record p { dev = d })
set_dev w none none p = use_wan w.wan_info p
set_dev w none (some ip) p = parsed p

-- Here what `devWithIpv4` returns is not read.
set_self_cap_ip : World → Option Text → RParam → RParam
set_self_cap_ip w none p = p
set_self_cap_ip w (some ip) p = record p {
  self_cap_ip = ip;
  dev = (dev_with_ipv4 w.devices w.inet_addr p.dev ip).0;
}

set_cap_ports : Option Text → RParam → Outcome RParam
set_cap_ports none p = parsed p
set_cap_ports (some s) p =
    let (l, r) = from_string p.cap_ports s in
    elim r [
      | accepted ↦ parsed (record p { cap_ports = l })
      | rejected ↦ failed args_error
      | thrown ↦ failed escapes
    ]

set_local_udp : World → Bool → Option Text → RParam → Outcome RParam
set_local_udp w is_server none p = if is_server then parsed p else failed args_error
set_local_udp w is_server (some s) p =
    elim (parse_addr w.inet_pton s p.local_udp_port (not is_server)) [
      | address ip port ↦ parsed (record p { local_udp_ip = ip; local_udp_port = port })
      | refused ↦ failed args_error
      | stoi_throws ↦ failed escapes
    ]

set_type : Option Text → RParam → Outcome RParam
set_type none p = parsed p
set_type (some s) p =
    if type_of_str s == 0 then failed args_error else parsed (record p { type = type_of_str s })

-- 0 and the negative numbers are refused.
set_keep_alive : Option ℕ → RParam → Outcome RParam
set_keep_alive none p = parsed p
set_keep_alive (some n) p =
    if not (ltb 0 n && ltb n (2 ^ 31)) || leb (2 ^ 31) n
    then failed args_error
    else parsed (record p { keep_alive_interval_sec = n })

-- The parameters, when there is no file.
unfoldable pub parse_param_flags : World → Bool → Flags → RParam → Outcome RParam
unfolding set_target set_dev set_self_cap_ip set_cap_ports set_local_udp set_type set_keep_alive
parse_param_flags w is_server f p0 = do
  p1 ← set_target w is_server f.target_addr p0
  p2 ← set_dev w f.dev f.self_cap_ip p1
  p3 ← set_cap_ports f.cap_ports (set_self_cap_ip w f.self_cap_ip p2)
  p4 ← set_local_udp w is_server f.local_udp p3
  p5 ← set_type f.type (
      given f.key (λ s p. record p { hash_key = s })
        (given f.duration (λ n p. record p { app_keep_alive_sec = n }) p4))
  set_keep_alive f.keep_alive (given f.cap_timeout (λ n p. record p { cap_timeout = n }) p5)

set_top : Flags → RConfig → RConfig
set_top f c = record c {
  log_level = if f.verbose_mode then verbose else c.log_level;
  log_path = elim f.log [ none ↦ c.log_path | some s ↦ s ];
  is_daemon = elim f.daemon [ none ↦ c.is_daemon | some n ↦ not (n == 0) ];
}

pub parse_source : World → Flags → Option (Option Json) → RConfig → Outcome RConfig
unfolding set_top
parse_source w f none c = param_of (parse_param_flags w c.is_server f) (set_top f c)
parse_source w f (some none) c = failed args_error
parse_source w f (some (some json)) c =
    elim (parse_json w.inet_pton (λ d ip. (dev_with_ipv4 w.devices w.inet_addr d ip).0) c json) [
      | none ↦ failed json_fails
      | some c' ↦ parsed c'
    ]

unfoldable pub fill_self_cap_ip : World → RParam → Outcome RParam
fill_self_cap_ip w p =
    if is_empty p.self_cap_ip
    then elim (ipv4_of_dev w.devices p.dev) [
      | none ↦ failed args_error
      | some ip ↦ parsed (record p { self_cap_ip = ip })
    ]
    else parsed p

-- `EmptyIdBuf`
abbrev pub empty_id_buf : List ℕ → Bool
empty_id_buf [] = true
empty_id_buf (c ∷ id) = c == 0 && empty_id_buf id

-- The tests in their order, each with how it fails.
abbrev pub all_pass : {A : Type 0} → List (Bool × Failure) → A → Outcome A
all_pass [] a = parsed a
all_pass ((true, bad) ∷ tests) a = all_pass tests a
all_pass ((false, bad) ∷ tests) a = failed bad

abbrev pub is_known : ℕ → Bool
is_known t = t == om_pipe_tcp || (t == om_pipe_udp || t == om_pipe_all)

-- The interval of the keep-alive is an `int`, here as its word of 32 bits.
abbrev pub validity : World → RConfig → Caps → List (Bool × Failure)
validity w c k =
    let p = c.param in
    (not (is_empty p.dev), args_error)
    ∷ (c.is_server || not (is_empty p.local_udp_ip), asserts)
    ∷ (c.is_server || valid_ip4 (w.inet_pton p.local_udp_ip), asserts)
    ∷ (c.is_server || not (p.local_udp_port == 0), asserts)
    ∷ (not (is_empty p.self_cap_ip), asserts)
    ∷ (valid_ip4 (w.inet_pton p.self_cap_ip), asserts)
    ∷ (not (is_empty p.target_ip), asserts)
    ∷ (valid_ip4 (w.inet_pton p.target_ip), asserts)
    ∷ (not (is_empty_ports p.cap_ports), asserts)
    ∷ (not (k.self_cap_int == 0), asserts)
    ∷ (not (k.target_cap_int == 0), asserts)
    ∷ (not (empty_id_buf k.id), asserts)
    ∷ (is_known p.type, asserts)
    ∷ (ltb 0 p.cap_timeout && ltb p.cap_timeout 50, asserts)
    ∷ (ltb 0 p.keep_alive_interval_sec && ltb p.keep_alive_interval_sec (2 ^ 31), asserts)
    ∷ (dev_ip_match w.devices w.inet_addr p.dev p.self_cap_ip, args_error)
    ∷ (leb 10 p.app_keep_alive_sec && leb p.app_keep_alive_sec 6000, args_error)
    ∷ []

unfoldable pub check_validation : World → RConfig → Caps → Outcome (RConfig × Caps)
check_validation w c k = all_pass (validity w c k) (c, k)

pub caps_of : World → RParam → Caps
caps_of w p = record {
  self_cap_int = w.inet_addr p.self_cap_ip;
  target_cap_int = w.inet_addr p.target_ip;
  id = w.id_of p.hash_key;
}

-- `Parse`; it returns 0 where a configuration is parsed, and 1 for an `args::Error`.
unfoldable pub parse : World → Bool → Flags → RConfig → Outcome (RConfig × Caps)
unfolding parse_source fill_self_cap_ip caps_of check_validation
parse w is_server f c0 = do
  c1 ← parse_source w f f.json (record c0 { is_server = is_server })
  c2 ← param_of (fill_self_cap_ip w) c1
  check_validation w c2 (caps_of w c2.param)
