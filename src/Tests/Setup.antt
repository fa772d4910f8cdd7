-- ===== src/Tests/Setup.antt =====
-- The set-up of the programs (src/ISockApp.cpp, bean/RConfig.cpp, cap/ and src/singletons/).
use rsock.Base.{
  ◌↔◌, ℕ, ◌+◌, ◌*◌, ◌%◌, ◌/◌, ◌<◌, ◌^◌, ◌≡◌, refl, true, false, Option, none, some, List, [], ◌∷◌,
  ◌++◌, ◌==◌, if◌then◌else◌, arith, of_digits, of_digits-to_string, lacks, lacks-to_string,
  to_string, bytes_eq,
}
use rsock.App.ConvKey.{in_addr2ip}
use rsock.Conf.PortList.{empty_list, stoi}
use rsock.Conf.RConfig.{Text, parse_addr, Pton, converted, om_pipe_tcp}
use rsock.Conf.RConfig.Json.{RConfig, RParam, debug}
use rsock.Conf.RConfig.Parse.{
  parsed, ◌>>=◌, Flags, World, Caps, parse_param_flags, fill_self_cap_ip, check_validation, parse,
  caps_of,
}
use rsock.Conf.RConfig.Parse.Laws.{IsValid, read_config, parse-IsValid_iff}
use rsock.Conf.RConfig.Parse.Matched.{machine}
use rsock.Setup.Capture.{
  Capture, new_capture, no_thread, looping, net_init, connected_anew, init_starts, Reach, here,
  next,
}
use rsock.Setup.Capture.Safe.{Reach-IsSafe}
use rsock.Setup.Devices.{Device, Gateway, connect_target, get_wan_info, dev_ip_match}
use rsock.Setup.Devices.Laws.{OnlyAt}
use rsock.Setup.SockApp.{Outcomes, run_main, init, new_app}
use rsock.Setup.SockApp.Laws.{is_clean, forgets_all, run_main-IsClean}

-- The server's capture cannot be started.
abbrev no_cap : Outcomes
no_cap = record {
  startup = 0;
  fork = 0;
  log = 0;
  services = 0;
  observers = 0;
  ack_pool = 0;
  manager = 0;
  cap = 4294967295;
  btm = 0;
  bridge = some 0;
  watches_int = true;
  watches_hup = true;
}

run_main-IsClean_example :
    (is_clean (run_main false no_cap false).log ≡ true)
    × (forgets_all (run_main false no_cap false) ≡ true)
run_main-IsClean_example = run_main-IsClean false no_cap

all_well-init : (init (record no_cap { cap = 0 }) (new_app true)).1 ≡ 0
unfolding init
all_well-init = refl

-- The text up to a character, and what follows it.
before : ℕ → List ℕ → List ℕ × List ℕ
before x [] = ([], [])
before x (c ∷ s) = let (a, b) = before x s in if c == x then ([], s) else (c ∷ a, b)

before-append : (x : ℕ) (s t : List ℕ) → lacks x s ≡ true → before x (s ++ (x ∷ t)) ≡ (s, t)
unfolding before
before-append x [] t h = ground arith
before-append x (c ∷ s) t h = ground (arith, h, before-append x s t)

-- An `inet_addr` for four numbers with dots.
read_ip : List ℕ → ℕ
unfolding before
read_ip s =
    let (a, s1) = before b'.' s in
    let (b, s2) = before b'.' s1 in
    let (c, d) = before b'.' s2 in
    of_digits a 0 + 256 * (of_digits b 0 + 256 * (of_digits c 0 + 256 * of_digits d 0))

before-number : (n : ℕ) (t : List ℕ) → before b'.' (to_string n ++ (b'.' ∷ t)) ≡ (to_string n, t)
before-number n t = before-append b'.' (to_string n) t (lacks-to_string b'.' n refl)

read_ip-dots :
    (a b c d : ℕ)
    → read_ip
        (to_string a ++ (b'.' ∷ (to_string b ++ (b'.' ∷ (to_string c ++ (b'.' ∷ to_string d))))))
      ≡ a + 256 * (b + 256 * (c + 256 * d))
unfolding read_ip
read_ip-dots a b c d = simp (before-number, of_digits-to_string)

read_ip-in_addr2ip : (n : ℕ) → n < 2 ^ 32 → read_ip (in_addr2ip n) ≡ n
unfolding in_addr2ip
read_ip-in_addr2ip n h = omega (
  arith,
  read_ip-dots (n % 256) (n / 256 % 256) (n / 256 / 256 % 256) (n / 256 / 256 / 256 % 256),
)

abbrev en0 : List ℕ
en0 = b'e' ∷ b'n' ∷ b'0' ∷ []

-- One device, 192.168.1.4, with a gateway in its network.
abbrev devices : List Device
devices =
    record {
      name = en0;
      addresses = record { is_inet = true; addr = 67217600; netmask = 16777215 } ∷ [];
    }
    ∷ []

abbrev gateway : ℕ → Option Gateway
gateway target = some (record { is_ip = true; ip = 16885952 })

abbrev key_id : Text → List ℕ
key_id key = 1 ∷ 2 ∷ []

abbrev any_pton : Text → Pton
any_pton s = converted

devices-OnlyAt : (n : ℕ) → OnlyAt n en0 devices
devices-OnlyAt n = ((λ a h. refl), tt)

abbrev host : World
host =
    machine read_ip read_ip-in_addr2ip (λ n. en0) devices (omega arith, tt) devices-OnlyAt any_pton
      key_id true gateway (connect_target [])

-- A client to 8.8.8.8 that listens on 127.0.0.1:5000, with the default device and ports.
abbrev flags : Flags
flags = record {
  json = none;
  target_addr = some (b'8' ∷ b'.' ∷ b'8' ∷ b'.' ∷ b'8' ∷ b'.' ∷ b'8' ∷ []);
  dev = none;
  self_cap_ip = none;
  local_udp = some (b'1' ∷ b':' ∷ b'5' ∷ b'0' ∷ []);
  cap_ports = none;
  duration = none;
  key = none;
  type = none;
  daemon = none;
  verbose_mode = false;
  log = none;
  cap_timeout = none;
  keep_alive = none;
}

abbrev default_param : RParam
default_param = record {
  dev = [];
  self_un_path = [];
  local_udp_ip = [];
  local_udp_port = 0;
  self_cap_ip = [];
  cap_ports = record empty_list { valentines = record { source = 10001; dest = 10010 } ∷ [] };
  target_ip = [];
  target_port = 0;
  app_keep_alive_sec = 600;
  hash_key = b'k' ∷ [];
  type = om_pipe_tcp;
  cap_timeout = 10;
  keep_alive_interval_sec = 4;
}

abbrev client_param : RParam
client_param = record default_param {
  dev = en0;
  self_cap_ip = in_addr2ip 67217600;
  local_udp_ip = b'1' ∷ [];
  local_udp_port = 50;
  target_ip = b'8' ∷ b'.' ∷ b'8' ∷ b'.' ∷ b'8' ∷ b'.' ∷ b'8' ∷ [];
}

flags-parsed :
    (parse_param_flags host false flags default_param >>= fill_self_cap_ip host)
    ≡ parsed client_param
unfolding parse_param_flags fill_self_cap_ip get_wan_info parse_addr stoi of_digits in_addr2ip
    to_string
flags-parsed = refl

abbrev default_config : RConfig
default_config = record {
  log_level = debug;
  log_path = [];
  is_server = false;
  is_daemon = false;
  param = default_param;
}

abbrev client_config : RConfig × Caps
client_config = (
  record default_config { param = client_param },
  record { self_cap_int = 67217600; target_cap_int = 134744072; id = 1 ∷ 2 ∷ [] },
)

flags-accepted : parse host false flags default_config ≡ parsed client_config
unfolding parse parse_param_flags fill_self_cap_ip check_validation get_wan_info parse_addr
    dev_ip_match bytes_eq stoi of_digits in_addr2ip to_string read_ip
flags-accepted = refl

parse-IsValid_iff_example : (parse host false flags default_config ≡ parsed client_config) ↔ (
    (read_config host false flags default_config ≡ parsed client_config.0)
    × (client_config.1 ≡ caps_of host client_config.0.param)
    × IsValid host client_config.0 client_config.1)
parse-IsValid_iff_example = parse-IsValid_iff host false flags default_config client_config

accepted-IsValid : IsValid host client_config.0 client_config.1
accepted-IsValid = (parse-IsValid_iff_example.0 flags-accepted).2

-- A capture whose thread runs.
abbrev running : Capture
running = record new_capture { cap = some 0; opened = some 0; thread = looping 0; fresh = 1 }

running-Reach : Reach running
running-Reach =
    next (next {t = record new_capture { pc = net_init }} here (connected_anew refl refl refl))
      (init_starts refl refl)

Reach-IsSafe_example :
    ((h : ℕ) → running.thread ≡ looping h → running.opened ≡ some h)
    × (running.pc ≡ net_init → running.thread ≡ no_thread)
Reach-IsSafe_example = Reach-IsSafe running running-Reach refl
