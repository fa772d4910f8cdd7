-- ===== src/Setup/SockApp.antt =====
-- src/ISockApp.cpp with client/CSockApp.cpp, and the runs of client/csock.cpp and server/ssock.cpp: the
-- parts of an application in the order in which they are made, closed and deleted. What the parts
-- themselves return is an argument; an `int` is its bit pattern, 0 for success.
pub mod Laws
pub mod Signal
use rsock.Base.{
  ℕ, zero, suc, Bool, true, false, not, ◌&&◌, Option, none, some, List, [], ◌∷◌, ◌++◌,
  if◌then◌else◌,
}

-- `loop_running` is the time that `uv_run` takes.
pub data Part : Type 0 where
  err_handler loop services handlers observer ack_pool manager cap btm bridge timer : Part
  int_signal hup_signal loop_running : Part

-- `made`, `closed` and `freed` are `new`, the call of `Close` and `delete`.
pub data Event : Type 0 where
  made : Part → Event
  closed : Part → Event
  freed : Part → Event

-- What the calls return, in the order of `doInit`. `bridge` is none for the null pointer.
pub record Outcomes : Type 0 where
  pub startup : ℕ
  pub fork : ℕ
  pub log : ℕ
  pub services : ℕ
  pub observers : ℕ
  pub ack_pool : ℕ
  pub manager : ℕ
  pub cap : ℕ
  pub btm : ℕ
  pub bridge : Option ℕ
  pub watches_int : Bool
  pub watches_hup : Bool

-- A pointer is whether it is not null. `log` has the events so far.
pub record SockApp : Type 0 where
  pub is_client : Bool
  pub err_handler : Bool
  pub loop : Bool
  pub services : Bool
  pub observer : Bool
  pub ack_pool : Bool
  pub manager : Bool
  pub cap : Bool
  pub btm : Bool
  pub bridge : Bool
  pub timer : Bool
  pub exit_signals : List Part
  pub inited : Bool
  pub closing : Bool
  pub log : List Event

-- The constructors of `CSockApp` and `SSockApp`.
abbrev pub new_app : Bool → SockApp
new_app is_client = record {
  is_client = is_client;
  err_handler = false;
  loop = false;
  services = false;
  observer = false;
  ack_pool = false;
  manager = false;
  cap = false;
  btm = false;
  bridge = false;
  timer = false;
  exit_signals = [];
  inited = false;
  closing = false;
  log = [];
}

abbrev said : SockApp → List Event → SockApp
said a events = record a { log = a.log ++ events }

abbrev pub minus_one : ℕ
minus_one = 4294967295

-- `if (n) { return fail; }`, and what follows.
abbrev or_return : SockApp → ℕ → ℕ → (SockApp → SockApp × ℕ) → SockApp × ℕ
or_return a zero fail rest = rest a
or_return a (suc n) fail rest = (a, fail)

abbrev watched : Bool → Part → List Part
watched true s = s ∷ []
watched false s = []

abbrev all_made : List Part → List Event
all_made [] = []
all_made (s ∷ signals) = made s ∷ all_made signals

watch_exit_signals : Outcomes → SockApp → SockApp
watch_exit_signals o a =
    let signals = watched o.watches_int int_signal ++ watched o.watches_hup hup_signal in
    record a { exit_signals = signals; log = a.log ++ all_made signals }

-- From `CreateBridgeConn` on.
init_bridge : Outcomes → Option ℕ → SockApp → SockApp × ℕ
unfolding watch_exit_signals
init_bridge o none a = (a, minus_one)
init_bridge o (some n) a =
    or_return (said (record a { bridge = true }) (made bridge ∷ [])) n minus_one
      λ a. (record (watch_exit_signals o a) { inited = true }, 0)

pub do_init : Outcomes → SockApp → SockApp × ℕ
unfolding init_bridge
do_init o a = or_return a o.fork minus_one λ a.
    or_return (said (record a { loop = true }) (made loop ∷ [])) o.log minus_one λ a.
      or_return (said (record a { services = true }) (made services ∷ made handlers ∷ []))
        o.services minus_one
        λ a.
          or_return (said (record a { observer = true }) (made observer ∷ [])) o.observers
            o.observers
            λ a.
              or_return (said (record a { ack_pool = true }) (made ack_pool ∷ [])) o.ack_pool
                o.ack_pool
                λ a.
                  or_return (said (record a { manager = true }) (made manager ∷ [])) o.manager
                    minus_one
                    λ a.
                      or_return (said (record a { cap = true }) (made cap ∷ [])) o.cap minus_one
                        λ a.
                          or_return (said (record a { btm = true }) (made btm ∷ [])) o.btm o.btm
                            λ a. init_bridge o o.bridge a

-- `ISockApp::Init`: `os_init_onstartup` first.
abbrev init_app : Outcomes → SockApp → SockApp × ℕ
init_app o a = or_return a o.startup o.startup (do_init o)

-- `CSockApp::Init` makes its handler of errors first. The target that it adds to the routes
-- afterwards is no part of this.
unfoldable pub init : Outcomes → SockApp → SockApp × ℕ
unfolding do_init
init o a = init_app o (
    if a.is_client && not a.err_handler
    then said (record a { err_handler = true }) (made err_handler ∷ [])
    else a)

abbrev all_closed : List Part → List Event
all_closed [] = []
all_closed (s ∷ signals) = closed s ∷ freed s ∷ all_closed signals

destroy_signals : SockApp → SockApp
destroy_signals a = record a { exit_signals = []; log = a.log ++ all_closed a.exit_signals }

-- `Close` and `delete` where the pointer is not null.
abbrev end_of : Part → Bool → List Event
end_of p true = closed p ∷ freed p ∷ []
end_of p false = []

destroy_observers : SockApp → SockApp
destroy_observers a = record a {
  observer = false;
  timer = false;
  log = a.log ++ (end_of observer a.observer ++ end_of timer a.timer);
}

close_cap : SockApp → SockApp
close_cap a = record a { cap = false; log = a.log ++ end_of cap a.cap }

-- The group closes the connection below it and deletes it: `IGroup::Close`.
close_bridge : SockApp → SockApp
close_bridge a =
    if a.bridge
    then record a {
      bridge = false;
      btm = false;
      log = a.log ++ (closed bridge ∷ closed btm ∷ freed btm ∷ freed bridge ∷ []);
    }
    else a

close_rest : SockApp → SockApp
close_rest a = record a {
  btm = false;
  manager = false;
  ack_pool = false;
  log = a.log ++ (end_of btm a.btm ++ (end_of manager a.manager ++ end_of ack_pool a.ack_pool));
}

destroy_singletons : SockApp → SockApp
destroy_singletons a = record a {
  services = false;
  log = a.log ++ (end_of services a.services ++ end_of handlers a.services);
}

close_loop : SockApp → SockApp
close_loop a = record a { loop = false; log = a.log ++ end_of loop a.loop }

close_app : SockApp → SockApp
unfolding destroy_signals destroy_observers close_cap close_bridge close_rest destroy_singletons
    close_loop
close_app a =
    if a.closing
    then a
    else close_loop (
        destroy_singletons (
          close_rest (
            close_bridge
              (close_cap (destroy_observers (destroy_signals (record a { closing = true })))))))

-- `CSockApp::Close` deletes its handler of errors too.
pub close : SockApp → SockApp
unfolding close_app
close a =
    let b = close_app a in
    if b.err_handler then said (record b { err_handler = false }) (freed err_handler ∷ []) else b

start_timer : SockApp → SockApp
start_timer a = if not a.timer then said (record a { timer = true }) (made timer ∷ []) else a

-- `uv_run` returns; a signal that comes while it runs closes the application from inside of it.
pub start : Bool → SockApp → SockApp
unfolding start_timer close
start signal a =
    let running = said (start_timer a) (made loop_running ∷ []) in
    let handled = if signal then close running else running in
    said handled (closed loop_running ∷ freed loop_running ∷ [])

abbrev started : Bool → SockApp × ℕ → SockApp
started signal (a, zero) = start signal a
started signal (a, suc n) = a

-- `csock_main` and `ssock_main`, when the command line was read.
pub run_main : Bool → Outcomes → Bool → SockApp
unfolding init start close
run_main is_client o signal = close (started signal (init o (new_app is_client)))
