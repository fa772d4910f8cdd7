-- ===== src/Conf/RConfig/Json.antt =====
-- `to_json` and `parseJsonString` of bean/RConfig.cpp. A JSON object is a function on its keys, whose
-- values are `null` where it has none; a number is here the word of 32 bits of the `int` that it is.
-- What json11 reads and prints is not part of this.
pub mod RoundTrip
use Prim.Native.Nat.{bit_or}
use rsock.Base.{
  ℕ, ◌+◌, ◌-◌, ◌%◌, ◌^◌, Bool, true, false, not, ◌&&◌, ◌||◌, Option, none, some, ◌>>=◌, List, [],
  ◌∷◌, ◌++◌, ltb, leb, ◌==◌, if◌then◌else◌, length, all_digits, bytes_eq,
}
use rsock.Base
use rsock.Conf.PortList.{RPortList, Parsed, accepted, rejected, thrown, from_string, stoi}
use rsock.Conf.PortList
use rsock.Conf.RConfig.{
  Text, parse_addr, address, refused, stoi_throws, type_of_str, str_of_type, Pton,
}

pub data Severity : Type 0 where
  debug verbose : Severity

pub record RParam : Type 0 where
  pub dev : Text
  pub self_un_path : Text
  pub local_udp_ip : Text
  pub local_udp_port : ℕ
  pub self_cap_ip : Text
  pub cap_ports : RPortList
  pub target_ip : Text
  pub target_port : ℕ
  pub app_keep_alive_sec : ℕ
  pub hash_key : Text
  pub type : ℕ
  pub cap_timeout : ℕ
  pub keep_alive_interval_sec : ℕ

pub record RConfig : Type 0 where
  pub log_level : Severity
  pub log_path : Text
  pub is_server : Bool
  pub is_daemon : Bool
  pub param : RParam

pub data Leaf : Type 0 where
  null : Leaf
  number : ℕ → Leaf  -- the word of `int_value`
  boolean : Bool → Leaf
  string : Text → Leaf

pub data Top : Type 0 where
  daemon server verbose_key log : Top

pub data Key : Type 0 where
  dev_key un_path ludp lcap_ip ports taddr duration type_key hash keepalive timeout : Key

pub record Json : Type 0 where
  pub top : Top → Leaf
  pub param : Option (Key → Leaf)

-- `ip:port`
abbrev pub with_port : Text → ℕ → Text
with_port ip port = ip ++ (b':' ∷ Base.to_string port)

is_verbose : Severity → Bool
is_verbose debug = false
is_verbose verbose = true

top_json : RConfig → Top → Leaf
unfolding is_verbose
top_json c daemon = boolean c.is_daemon
top_json c server = boolean c.is_server
top_json c verbose_key = boolean (is_verbose c.log_level)
top_json c log = string c.log_path

param_json : Bool → RParam → Key → Leaf
param_json is_server p dev_key = string p.dev
param_json is_server p un_path = string p.self_un_path
param_json is_server p ludp =
    string (if is_server then p.local_udp_ip else with_port p.local_udp_ip p.local_udp_port)
param_json is_server p lcap_ip = string p.self_cap_ip
param_json is_server p ports = string (PortList.to_string p.cap_ports)
param_json is_server p taddr =
    string (if is_server then with_port p.target_ip p.target_port else p.target_ip)
param_json is_server p duration = number p.app_keep_alive_sec
param_json is_server p type_key = string (str_of_type p.type)
param_json is_server p hash = string p.hash_key
param_json is_server p keepalive = number p.keep_alive_interval_sec
param_json is_server p timeout = number p.cap_timeout

pub to_json : RConfig → Json
unfolding top_json param_json
to_json c = record { top = top_json c; param = some (param_json c.is_server c.param) }

-- The fields, by the kind of their values: a value of another kind leaves the field.
set_number : (RParam → ℕ → RParam) → Leaf → RParam → RParam
set_number set (number n) p = set p n
set_number set _ p = p

set_string : (RParam → Text → RParam) → Leaf → RParam → RParam
set_string set (string s) p = set p s
set_string set _ p = p

-- `cap_timeout` is taken where the value is a string, whose `int_value` is 0.
set_timeout : Leaf → RParam → RParam
set_timeout (string s) p = record p { cap_timeout = 0 }
set_timeout _ p = p

-- In these, `none` is an exception.
set_ports : Leaf → RParam → Option RParam
set_ports (string s) p =
    let (l, r) = from_string p.cap_ports s in
    elim r [ accepted ↦ some (record p { cap_ports = l }) | rejected ↦ none | thrown ↦ none ]
set_ports _ p = some p

set_type : Leaf → RParam → Option RParam
set_type (string s) p =
    if type_of_str s == 0 then none else some (record p { type = type_of_str s })
set_type _ p = some p

module _ (inet_pton : Text → Pton) (dev_with_ipv4 : Text → Text → Text) where
  -- `devWithIpv4` is called for the device where none is given.
  set_lcap_ip : Leaf → Leaf → RParam → RParam
  set_lcap_ip (string s) (string d) p = record p { self_cap_ip = s }
  set_lcap_ip (string s) _ p = record p { self_cap_ip = s; dev = dev_with_ipv4 p.dev s }
  set_lcap_ip _ _ p = p

  set_ludp : Bool → Leaf → RParam → Option RParam
  set_ludp is_server (string s) p = elim (parse_addr inet_pton s p.local_udp_port (not is_server)) [
    | address ip port ↦ some (record p { local_udp_ip = ip; local_udp_port = port })
    | refused ↦ none
    | stoi_throws ↦ none
  ]
  set_ludp is_server _ p = some p

  set_taddr : Bool → Leaf → RParam → Option RParam
  set_taddr is_server (string s) p = elim (parse_addr inet_pton s p.target_port is_server) [
    | address ip port ↦ some (record p { target_ip = ip; target_port = port })
    | refused ↦ none
    | stoi_throws ↦ none
  ]
  set_taddr is_server _ p = some p

  -- The last ones of the fields, which throw nothing but for the type.
  set_rest : (Key → Leaf) → RParam → Option RParam
  unfolding set_number set_string set_timeout set_type
  set_rest o p0 =
      let p1 = set_number (λ p n. record p { app_keep_alive_sec = n }) (o duration) p0 in
      let p2 = set_string (λ p s. record p { hash_key = s }) (o hash) p1 in
      (do
        p3 ← set_type (o type_key) p2
        some (
            set_number (λ p n. record p { keep_alive_interval_sec = n }) (o keepalive)
              (set_timeout (o timeout) p3)))

  pub parse_param : Bool → (Key → Leaf) → RParam → Option RParam
  unfolding set_lcap_ip set_ports set_ludp set_taddr set_rest set_string
  parse_param is_server o p0 = do
    p1 ← set_ports (o ports) (
        set_lcap_ip (o lcap_ip) (o dev_key)
          (set_string (λ p s. record p { dev = s }) (o dev_key) p0))
    p2 ←
        set_ludp is_server (o ludp)
          (set_string (λ p s. record p { self_un_path = s }) (o un_path) p1)
    p3 ← set_taddr is_server (o taddr) p2
    set_rest o p3

  set_daemon : Leaf → RConfig → RConfig
  set_daemon (number n) c = record c { is_daemon = not (n == 0) }
  set_daemon _ c = c

  set_verbose : Leaf → RConfig → RConfig
  set_verbose (boolean b) c = record c { log_level = if b then verbose else debug }
  set_verbose _ c = c

  set_log : Leaf → RConfig → RConfig
  set_log (string s) c = record c { log_path = s }
  set_log _ c = c

  set_param : RConfig → Option (Key → Leaf) → Option RConfig
  set_param c none = some c
  set_param c (some o) = do p ← parse_param c.is_server o c.param; some (record c { param = p })

  -- `parseJsonString`, from the value on.
  pub parse_json : RConfig → Json → Option RConfig
  unfolding set_daemon set_verbose set_log set_param
  parse_json c json =
      set_param
        (set_log (json.top log)
          (set_verbose (json.top verbose_key) (set_daemon (json.top daemon) c)))
        json.param
