-- ===== src/Setup/Capture.antt =====
-- cap/RCap.cpp: the thread that captures packets and the main thread, a step of one of them at a time.
-- A `pcap_t` is a number. Which network events come, what opening a device gives and when libpcap
-- leaves its loop is left open.
pub mod Safe
use rsock.Base.{ℕ, ◌+◌, ◌≡◌, Bool, true, false, Option, none, some}

-- The capture thread: `mCapThread` is 0, or it is inside of `pcap_loop` with a handle, or it has
-- returned and has not been joined.
pub data Thread : Type 0 where
  no_thread : Thread
  looping : ℕ → Thread
  returned : Thread

-- Where the main thread stands: outside, in `OnNetConnected` before `pcap_breakloop`,
-- `joinPcapThread`, `pcap_close` and `doInit`, or in `WaitAndClose` before `pcap_breakloop`,
-- `pcap_close`, `joinPcapThread`, or behind it.
pub data Pc : Type 0 where
  idle net_break net_join net_close net_init : Pc
  end_break end_close end_join finished : Pc

-- `cap` is `mCap`, and `opened` the handle that libpcap holds open; `breaking` is the flag that
-- `pcap_breakloop` sets. `fresh` is the next handle.
pub record Capture : Type 0 where
  pub cap : Option ℕ
  pub opened : Option ℕ
  pub thread : Thread
  pub breaking : Bool
  pub is_done : Bool
  pub fresh : ℕ
  pub pc : Pc

abbrev pub new_capture : Capture
new_capture = record {
  cap = none;
  opened = none;
  thread = no_thread;
  breaking = false;
  is_done = false;
  fresh = 0;
  pc = idle;
}

-- `doInit` opens a handle. It can still fail afterwards, and then leaves the handle open.
abbrev opens : Capture → Capture
opens s = record s {
  cap = some s.fresh;
  opened = some s.fresh;
  breaking = false;
  fresh = s.fresh + 1;
  pc = idle;
}

pub data Step (s t : Capture) : Type 0 where
  -- The main thread. `Init` is `doInit` from the start, as an event without a handle is.
  connected : {h : ℕ} → s.pc ≡ idle → s.cap ≡ some h → t ≡ record s { pc = net_break } → Step s t
  connected_anew : s.pc ≡ idle → s.cap ≡ none → t ≡ record s { pc = net_init } → Step s t
  break_loop : s.pc ≡ net_break → t ≡ record s { breaking = true; pc = net_join } → Step s t
  join_none : s.pc ≡ net_join → s.thread ≡ no_thread → t ≡ record s { pc = net_close } → Step s t
  join_thread :
      s.pc ≡ net_join
      → s.thread ≡ returned
      → t ≡ record s { thread = no_thread; pc = net_close }
      → Step s t
  close_handle :
      s.pc ≡ net_close → t ≡ record s { cap = none; opened = none; pc = net_init } → Step s t
  init_no_handle : s.pc ≡ net_init → t ≡ record s { pc = idle } → Step s t
  init_fails : s.pc ≡ net_init → t ≡ opens s → Step s t
  init_starts : s.pc ≡ net_init → t ≡ record (opens s) { thread = looping s.fresh } → Step s t
  -- `Start` in the set-up.
  starts :
      {h : ℕ}
      → s.pc ≡ idle
      → s.cap ≡ some h
      → s.thread ≡ no_thread
      → t ≡ record s { thread = looping h }
      → Step s t
  wait_and_close :
      {h : ℕ} → s.pc ≡ idle → s.cap ≡ some h → t ≡ record s { pc = end_break } → Step s t
  wait_and_close_none :
      s.pc ≡ idle → s.cap ≡ none → t ≡ record s { is_done = true; pc = end_join } → Step s t
  end_breaks : s.pc ≡ end_break → t ≡ record s { breaking = true; pc = end_close } → Step s t
  end_closes :
      s.pc ≡ end_close
      → t ≡ record s { cap = none; opened = none; is_done = true; pc = end_join }
      → Step s t
  end_joins_none :
      s.pc ≡ end_join → s.thread ≡ no_thread → t ≡ record s { pc = finished } → Step s t
  end_joins :
      s.pc ≡ end_join
      → s.thread ≡ returned
      → t ≡ record s { thread = no_thread; pc = finished }
      → Step s t
  -- The capture thread reads a packet, which it passes on or, where `mDone` is set, answers with
  -- `pcap_breakloop`; or the loop ends.
  reads : {h : ℕ} → s.thread ≡ looping h → s.is_done ≡ false → t ≡ s → Step s t
  reads_done :
      {h : ℕ}
      → s.thread ≡ looping h
      → s.is_done ≡ true
      → t ≡ record s { breaking = true }
      → Step s t
  leaves : {h : ℕ} → s.thread ≡ looping h → t ≡ record s { thread = returned } → Step s t

pub data Reach : Capture → Type 0 where
  here : Reach new_capture
  next : {s t : Capture} → Reach s → Step s t → Reach t

pub data Leads (s : Capture) : Capture → Type 0 where
  stay : Leads s s
  then_ : {t u : Capture} → Leads s t → Step t u → Leads s u

-- `WaitAndClose` has closed the handle.
abbrev pub has_ended : Pc → Bool
has_ended end_join = true
has_ended finished = true
has_ended _ = false
