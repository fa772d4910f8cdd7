-- ===== src/Tests/Conf.antt =====
-- Lists of ports (util/RPortList.cpp) and a configuration (bean/RConfig.cpp).
use rsock.Base.{◌≡◌, inl, refl, true, false, some, [], ◌∷◌, arith}
use rsock.Conf.PortList.{RPortList, empty_list, to_string, from_string, accepted}
use rsock.Conf.RConfig.{Text, Pton, converted, om_pipe_tcp}
use rsock.Conf.RConfig.Json.{verbose, RParam, RConfig, parse_json, to_json}
use rsock.Conf.RConfig.Json.RoundTrip.{CanPrint, restored, parse_json-to_json}
use rsock.Conf.PortList.RoundTrip.{from_string-to_string}

-- 10001, 10010-10020.
abbrev ports : RPortList
ports = record {
  valid = true;
  raw_list = 10001 ∷ 10010 ∷ 10011 ∷ [];
  single_ones = 10001 ∷ [];
  valentines = record { source = 10010; dest = 10011 } ∷ [];
}

from_string-to_string_example : from_string empty_list (to_string ports) ≡ (
  record empty_list { single_ones = ports.single_ones; valentines = ports.valentines },
  accepted,
)
from_string-to_string_example =
    from_string-to_string empty_list ports (omega arith, tt)
      (omega arith, omega arith, omega arith, tt)

-- A client's configuration: 127.0.0.1:5000, to 8.8.8.8, by TCP.
abbrev no_pton : Text → Pton
no_pton s = converted

abbrev settings : RParam
settings = record {
  dev = b'e' ∷ b'n' ∷ b'0' ∷ [];
  self_un_path = [];
  local_udp_ip = b'1' ∷ b'.' ∷ b'1' ∷ [];
  local_udp_port = 5000;
  self_cap_ip = b'2' ∷ [];
  cap_ports = ports;
  target_ip = b'8' ∷ b'.' ∷ b'8' ∷ [];
  target_port = 0;
  app_keep_alive_sec = 600;
  hash_key = b'k' ∷ [];
  type = om_pipe_tcp;
  cap_timeout = 20;
  keep_alive_interval_sec = 4;
}

abbrev config : RConfig
config = record {
  log_level = verbose;
  log_path = b'/' ∷ [];
  is_server = false;
  is_daemon = true;
  param = settings;
}

abbrev defaults : RConfig
defaults = record config {
  is_daemon = false;
  param = record settings { cap_timeout = 10; cap_ports = empty_list };
}

settings-CanPrint : CanPrint no_pton false settings
settings-CanPrint = record {
  ludp_lacks = refl;
  ludp_valid = refl;
  taddr_lacks = refl;
  taddr_valid = refl;
  port_pos = omega arith;
  port_fits = omega arith;
  type_known = inl refl;
  singles = (omega arith, tt);
  ranges = (omega arith, omega arith, omega arith, tt);
}

parse_json-to_json_example :
    parse_json no_pton (λ d ip. d) defaults (to_json config)
    ≡ some (record defaults {
      log_level = verbose;
      log_path = b'/' ∷ [];
      param = restored false defaults.param settings;
    })
parse_json-to_json_example =
    parse_json-to_json no_pton (λ d ip. d) defaults config refl settings-CanPrint
