-- ===== src/Tests/Handler.antt =====
-- A handler (util/Handler.cpp) with one task and two messages.
use rsock.Base.{ℕ, ◌≡◌, refl, true, false, some, [], ◌∷◌, arith}
use rsock.Runtime.Handler.{Handler, Task, Message, Calls, remove_messages, has_messages, on_timeout}
use rsock.Runtime.Handler.Invariant.{Inv}
use rsock.Runtime.Handler.Timeout.{CallsDue, on_timeout-CallsDue}
use rsock.Runtime.Handler.Removal.{others, remove_messages_lem}

abbrev ping : Task
ping = record { key = 11; runs = true; expire_ms = 100 }

abbrev message : ℕ → ℕ → Message
message what expire = record {
  what = what;
  arg1 = 0;
  msg = [];
  obj = 0;
  handler = 1;
  expire_ms = expire;
}

abbrev busy : Handler
busy = record {
  self = 1;
  tasks = ping ∷ [];
  messages = message 3 105 ∷ message 4 500 ∷ message 3 600 ∷ [];
  has_callback = true;
  next_timeout_ms = 100;
  timer = some 100;
}

busy-Inv : Inv busy
busy-Inv = record {
  lists = record {
    tasks_sorted = ground arith;
    messages_sorted = ground arith;
    tasks_pos = ground arith;
    messages_pos = ground arith;
  };
  tasks_after = ground arith;
  messages_after = ground arith;
  next_set = λ e. omega arith;
  armed = λ e. refl;
}

on_timeout-CallsDue_example :
    (h' : Handler) × (c : Calls) × (on_timeout busy 98 ≡ some (h', c))
    × CallsDue busy 98 h' c
    × Inv h'
on_timeout-CallsDue_example = on_timeout-CallsDue busy 98 busy-Inv

remove_messages_lem_example :
    (remove_messages busy 3
      ≡ (record busy { messages = others 3 busy.messages }, has_messages busy 3))
    × (has_messages (remove_messages busy 3).0 3 ≡ false)
remove_messages_lem_example = remove_messages_lem busy 3
