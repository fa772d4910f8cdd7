-- ===== src/Runtime/Handler/Timeout.antt =====
-- A timeout of the handler's timer.
use rsock.Base.{
  ℕ, ◌+◌, ◌≤◌, ◌<◌, ◌≡◌, refl, inl, inr, Bool-cases, true, false, some, none, ◌++◌, arith, dec_lt,
}
use rsock.Runtime.Expiry.{
  split_due, NoneBefore, AllDue, NoneBefore-le, NoneBefore-split_due, IsSorted-split_due,
  AllDue-split_due, rest-split_due, append-split_due,
}
use rsock.Runtime.Handler.{
  Handler, task_expire, message_expire, setup_one_shot_timer, destroy_timer,
  update_next_ms_and_timer, on_timeout, Calls, no_calls,
}
use rsock.Runtime.Handler.Invariant.{Inv, Lists, is_idle, update-Inv}

-- The calls are of the entries in front, all of which are due, and none of the rest is.
abbrev pub CallsDue : Handler → ℕ → Handler → Calls → Type 0
CallsDue h now h' c =
    (h.tasks ≡ c.called_tasks ++ h'.tasks)
    × (h.messages ≡ c.called_messages ++ h'.messages)
    × AllDue task_expire now c.called_tasks
    × AllDue message_expire now c.called_messages
    × NoneBefore task_expire (now + 10) h'.tasks
    × NoneBefore message_expire (now + 10) h'.messages

abbrev Spec : Handler → ℕ → Type 0
Spec h now =
    (h' : Handler) × (c : Calls) × (on_timeout h now ≡ some (h', c)) × CallsDue h now h' c × Inv h'

-- What is left of a handler after a timeout at `now`.
left_over : Handler → ℕ → Handler
left_over h now = record h {
  tasks = (split_due task_expire now h.tasks).1;
  messages = (split_due message_expire now h.messages).1;
  timer = none;
}

left_over-Lists : (h : Handler) (now : ℕ) → Lists h → Lists (left_over h now)
unfolding left_over
left_over-Lists h now v = record {
  tasks_sorted = IsSorted-split_due task_expire now h.tasks v.tasks_sorted;
  messages_sorted = IsSorted-split_due message_expire now h.messages v.messages_sorted;
  tasks_pos = NoneBefore-split_due task_expire 1 now h.tasks v.tasks_pos;
  messages_pos = NoneBefore-split_due message_expire 1 now h.messages v.messages_pos;
}

update_keeps :
    (h : Handler) (now : ℕ)
    → ((update_next_ms_and_timer h now).tasks ≡ h.tasks)
      × ((update_next_ms_and_timer h now).messages ≡ h.messages)
unfolding update_next_ms_and_timer destroy_timer setup_one_shot_timer
update_keeps h now = ground arith

-- Without entries the timer is dropped and nothing is called.
when_idle : (h : Handler) (now : ℕ) → Inv h → is_idle h ≡ true → Spec h now
unfolding on_timeout destroy_timer
when_idle h now v e = (
  record h { timer = none },
  no_calls,
  ground arith,
  (refl, refl, tt, tt, ground arith, ground arith),
  ground (arith, v),
)

-- Before its time the timer is set anew, and nothing is called.
when_early :
    (h : Handler) (now : ℕ) → Inv h → is_idle h ≡ false → now + 10 < h.next_timeout_ms → Spec h now
unfolding on_timeout destroy_timer
when_early h now v e lt = (
  update_next_ms_and_timer h0 now,
  no_calls,
  ground arith,
  rw ((update_keeps h0 now).0, (update_keeps h0 now).1)
      (
        refl,
        refl,
        tt,
        tt,
        NoneBefore-le task_expire (now + 10) h.next_timeout_ms h.tasks (omega arith) v.tasks_after,
        NoneBefore-le message_expire (now + 10) h.next_timeout_ms h.messages (omega arith)
            v.messages_after,
      ),
  update-Inv h0 now (ground (arith, v.lists)),
)
  where
    h0 : Handler
    h0 = record h { timer = none }

when_due :
    (h : Handler) (now : ℕ) → Inv h → is_idle h ≡ false → h.next_timeout_ms ≤ now + 10 → Spec h now
unfolding on_timeout destroy_timer left_over
when_due h now v e le = (
  update_next_ms_and_timer (left_over h now) now,
  record {
    called_tasks = (split_due task_expire now h.tasks).0;
    called_messages = (split_due message_expire now h.messages).0;
  },
  ground arith,
  rw ((update_keeps (left_over h now) now).0, (update_keeps (left_over h now) now).1)
      (
        append-split_due task_expire now h.tasks v.lists.tasks_sorted,
        append-split_due message_expire now h.messages v.lists.messages_sorted,
        AllDue-split_due task_expire now h.tasks,
        AllDue-split_due message_expire now h.messages,
        rest-split_due task_expire now h.tasks,
        rest-split_due message_expire now h.messages,
      ),
  update-Inv (left_over h now) now (left_over-Lists h now v.lists),
)

-- In a handler with the invariant a timeout at `now` fails no assertion. It calls the tasks and
-- messages that expire before `now` + 10 ms, in their order, and no others; these stay, and the
-- invariant holds again.
pub on_timeout-CallsDue :
    (h : Handler) (now : ℕ)
    → Inv h
    → (h' : Handler) × (c : Calls) × (on_timeout h now ≡ some (h', c))
      × CallsDue h now h' c
      × Inv h'
on_timeout-CallsDue h now v = elim (Bool-cases (is_idle h)) [
  | inl e ↦ when_idle h now v e
  | inr e ↦ elim (dec_lt (now + 10) h.next_timeout_ms) [
    | yes lt ↦ when_early h now v e lt
    | no ge ↦ when_due h now v e (omega arith)
  ]
]
