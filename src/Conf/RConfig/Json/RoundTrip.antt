-- ===== src/Conf/RConfig/Json/RoundTrip.antt =====
-- A configuration is read back from the JSON value that it is printed as.
use rsock.Base.{
  ℕ, ◌^◌, ◌<◌, ◌≡◌, ◌⊎◌, inl, inr, refl, sym, ap, subst, ◌∙◌, Bool, true, false, some, arith, ◌==◌,
  if◌then◌else◌, bytes_eq, lacks,
}
use rsock.Conf.PortList.RoundTrip.{ArePorts, AreRanges, from_string-to_string}
use rsock.Conf.RConfig.{
  Text, Pton, valid_ip4, type_of_str, str_of_type, om_pipe_tcp, om_pipe_udp, om_pipe_all,
}
use rsock.Conf.RConfig.Json.{
  RParam, RConfig, Severity, debug, verbose, to_json, param_json, top_json, is_verbose, set_number,
  set_string, set_timeout, set_ports, set_type, set_lcap_ip, set_ludp, set_taddr, set_rest,
  parse_param, set_daemon, set_verbose, set_log, set_param, parse_json,
}
use rsock.Conf.RConfig.Addr.{parse_addr-with_port, parse_addr-ip}

-- The texts and numbers can be read back. The port that the side does not use is free.
pub record CanPrint (inet_pton : Text → Pton) (is_server : Bool) (p : RParam) : Type 0 where
  pub ludp_lacks : lacks b':' p.local_udp_ip ≡ true
  pub ludp_valid : valid_ip4 (inet_pton p.local_udp_ip) ≡ true
  pub taddr_lacks : lacks b':' p.target_ip ≡ true
  pub taddr_valid : valid_ip4 (inet_pton p.target_ip) ≡ true
  pub port_pos : 0 < (if is_server then p.target_port else p.local_udp_port)
  pub port_fits : (if is_server then p.target_port else p.local_udp_port) < 2 ^ 16
  pub type_known : (p.type ≡ om_pipe_tcp) ⊎ ((p.type ≡ om_pipe_udp) ⊎ (p.type ≡ om_pipe_all))
  pub singles : ArePorts p.cap_ports.single_ones
  pub ranges : AreRanges p.cap_ports.valentines

-- What `p` becomes when it is read into `old`.
abbrev pub restored : Bool → RParam → RParam → RParam
restored is_server old p = record p {
  cap_ports = record (old.cap_ports) {
    single_ones = p.cap_ports.single_ones;
    valentines = p.cap_ports.valentines;
  };
  local_udp_port = if is_server then old.local_udp_port else p.local_udp_port;
  target_port = if is_server then p.target_port else old.target_port;
  cap_timeout = old.cap_timeout;
}

type_of_str-str_of_type :
    (t : ℕ)
    → (t ≡ om_pipe_tcp) ⊎ ((t ≡ om_pipe_udp) ⊎ (t ≡ om_pipe_all))
    → (type_of_str (str_of_type t) ≡ t)
unfolding type_of_str str_of_type bytes_eq
type_of_str-str_of_type t (inl e) = subst (λ x. type_of_str (str_of_type x) ≡ x) (sym e) refl
type_of_str-str_of_type t (inr (inl e)) = subst (λ x. type_of_str (str_of_type x) ≡ x) (sym e) refl
type_of_str-str_of_type t (inr (inr e)) = subst (λ x. type_of_str (str_of_type x) ≡ x) (sym e) refl

type_pos : (t : ℕ) → (t ≡ om_pipe_tcp) ⊎ ((t ≡ om_pipe_udp) ⊎ (t ≡ om_pipe_all)) → (t == 0) ≡ false
type_pos t (inl e) = ap (λ x. x == 0) e
type_pos t (inr (inl e)) = ap (λ x. x == 0) e
type_pos t (inr (inr e)) = ap (λ x. x == 0) e

severity-is_verbose : (s : Severity) → (if is_verbose s then verbose else debug) ≡ s
unfolding is_verbose
severity-is_verbose debug = refl
severity-is_verbose verbose = refl

module _ (inet_pton : Text → Pton) (dev_with_ipv4 : Text → Text → Text) where
  parse_param-param_json :
      (is_server : Bool) (old p : RParam)
      → CanPrint inet_pton is_server p
      → parse_param inet_pton dev_with_ipv4 is_server (param_json is_server p) old
        ≡ some (restored is_server old p)
  unfolding parse_param param_json set_number set_string set_timeout set_ports set_type set_lcap_ip
      set_ludp set_taddr set_rest
  parse_param-param_json true old p v = ground (
    arith,
    from_string-to_string old.cap_ports p.cap_ports v.singles v.ranges,
    parse_addr-ip inet_pton p.local_udp_ip old.local_udp_port v.ludp_lacks v.ludp_valid,
    parse_addr-with_port inet_pton p.target_ip old.target_port p.target_port v.taddr_lacks
        v.taddr_valid v.port_pos v.port_fits,
    type_of_str-str_of_type p.type v.type_known,
    type_pos p.type v.type_known,
  )
  parse_param-param_json false old p v = ground (
    arith,
    from_string-to_string old.cap_ports p.cap_ports v.singles v.ranges,
    parse_addr-with_port inet_pton p.local_udp_ip old.local_udp_port p.local_udp_port v.ludp_lacks
        v.ludp_valid v.port_pos v.port_fits,
    parse_addr-ip inet_pton p.target_ip old.target_port v.taddr_lacks v.taddr_valid,
    type_of_str-str_of_type p.type v.type_known,
    type_pos p.type v.type_known,
  )

  -- A configuration whose addresses have no ':' and pass the test, whose port in use is not 0 and
  -- fits 16 bits, like the ports to capture, and whose type is one of the three, is read back from
  -- its JSON value by the same side: but for the flag of the daemon, the timeout of the capture and
  -- the port that the side does not use, which stay as they were, and for the raw list of the ports.
  pub parse_json-to_json :
      (old c : RConfig)
      → old.is_server ≡ c.is_server
      → CanPrint inet_pton c.is_server c.param
      → parse_json inet_pton dev_with_ipv4 old (to_json c)
        ≡ some (record old {
          log_level = c.log_level;
          log_path = c.log_path;
          param = restored c.is_server old.param c.param;
        })
  unfolding parse_json to_json top_json set_daemon set_verbose set_log set_param is_verbose
  parse_json-to_json old c same v =
      let read =
        ap (λ b. parse_param inet_pton dev_with_ipv4 b (param_json c.is_server c.param) old.param)
          same
        ∙ parse_param-param_json c.is_server old.param c.param v in
      ground (arith, read, severity-is_verbose c.log_level)
