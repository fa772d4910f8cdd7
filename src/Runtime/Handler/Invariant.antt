-- ===== src/Runtime/Handler/Invariant.antt =====
-- What holds of a handler between two calls: its lists are sorted, its next time is not after any
-- entry, and a timer is set whenever there is an entry.
use rsock.Base.{
  ℕ, ◌<◌, ◌≡◌, refl, inl, inr, Bool, Bool-cases, if_intro, true, false, not, ◌&&◌, ◌==◌, Option,
  some, none, List, [], ◌∷◌, arith,
}
use rsock.Runtime.Expiry.{
  insert_sorted, NoneBefore, IsSorted, NoneBefore-le, NoneBefore-insert_sorted,
  IsSorted-insert_sorted,
}
use rsock.Runtime.Handler.{
  Handler, Task, Message, task_expire, message_expire, is_empty, front_ms, setup_one_shot_timer,
  destroy_timer, update_next_ms_and_timer, do_post, send_message_at_time, remove_task,
  remove_message, erase_first, same_task, same_message, found, max_ms,
}

abbrev pub is_idle : Handler → Bool
is_idle h = is_empty h.tasks && is_empty h.messages

abbrev pub is_some {ℓ} : {A : Type ℓ} → Option A → Bool
is_some none = false
is_some (some a) = true

pub record Lists (h : Handler) : Type 0 where
  pub tasks_sorted : IsSorted task_expire h.tasks
  pub messages_sorted : IsSorted message_expire h.messages
  pub tasks_pos : NoneBefore task_expire 1 h.tasks
  pub messages_pos : NoneBefore message_expire 1 h.messages

pub record Inv (h : Handler) : Type 0 where
  pub lists : Lists h
  pub tasks_after : NoneBefore task_expire h.next_timeout_ms h.tasks
  pub messages_after : NoneBefore message_expire h.next_timeout_ms h.messages
  pub next_set : is_idle h ≡ false → 0 < h.next_timeout_ms
  pub armed : is_idle h ≡ false → is_some h.timer ≡ true

front_ms_lower :
    (ts : List Task) (ms : List Message)
    → IsSorted task_expire ts
    → IsSorted message_expire ms
    → NoneBefore task_expire 1 ts
    → NoneBefore message_expire 1 ms
    → NoneBefore task_expire (front_ms ts ms) ts
      × NoneBefore message_expire (front_ms ts ms) ms
      × (is_empty ts && is_empty ms ≡ false → 0 < front_ms ts ms)
unfolding front_ms
front_ms_lower [] [] s t p q = (tt, tt, λ e. cc)
front_ms_lower (x ∷ ts) [] s t p q = ((omega arith, s.0), tt, λ e. p.0)
front_ms_lower [] (m ∷ ms) s t p q = (tt, (omega arith, t.0), λ e. q.0)
front_ms_lower (x ∷ ts) (m ∷ ms) s t p q = ground (
  arith,
  NoneBefore-le task_expire m.expire_ms x.expire_ms ts,
  NoneBefore-le message_expire x.expire_ms m.expire_ms ms,
)

pub setup_armed :
    (h : Handler) (ts prev now : ℕ)
    → (is_some (setup_one_shot_timer h ts prev now).timer ≡ true)
      × ((setup_one_shot_timer h ts prev now).tasks ≡ h.tasks)
      × ((setup_one_shot_timer h ts prev now).messages ≡ h.messages)
unfolding setup_one_shot_timer
setup_armed h ts prev now = ground arith

-- Setting the next time and the timer establishes the invariant from the lists alone.
pub update-Inv : (h : Handler) (now : ℕ) → Lists h → Inv (update_next_ms_and_timer h now)
unfolding update_next_ms_and_timer destroy_timer
update-Inv h now v = ground (
  arith,
  front_ms_lower h.tasks h.messages v.tasks_sorted v.messages_sorted v.tasks_pos v.messages_pos,
  setup_armed h (front_ms h.tasks h.messages) h.next_timeout_ms now,
)

with_task : Handler → Task → ℕ → Handler
with_task h t ts = record h {
  tasks = insert_sorted task_expire (record t { expire_ms = ts }) h.tasks;
}

with_message : Handler → Message → ℕ → Handler
with_message h m ts = record h {
  messages =
      insert_sorted message_expire (record m { expire_ms = ts; handler = h.self }) h.messages;
}

with_task-Lists : (h : Handler) (t : Task) (ts : ℕ) → 0 < ts → Lists h → Lists (with_task h t ts)
unfolding with_task
with_task-Lists h t ts pos v = record {
  tasks_sorted = IsSorted-insert_sorted task_expire _ h.tasks v.tasks_sorted;
  messages_sorted = v.messages_sorted;
  tasks_pos = NoneBefore-insert_sorted task_expire 1 _ h.tasks pos v.tasks_pos;
  messages_pos = v.messages_pos;
}

with_message-Lists :
    (h : Handler) (m : Message) (ts : ℕ) → 0 < ts → Lists h → Lists (with_message h m ts)
unfolding with_message
with_message-Lists h m ts pos v = record {
  tasks_sorted = v.tasks_sorted;
  messages_sorted = IsSorted-insert_sorted message_expire _ h.messages v.messages_sorted;
  tasks_pos = v.tasks_pos;
  messages_pos = NoneBefore-insert_sorted message_expire 1 _ h.messages pos v.messages_pos;
}

max_ms_pos : (ts now : ℕ) → 0 < now → 0 < max_ms ts now
max_ms_pos ts now pos = ground arith

-- Posting a task at a time after 0 keeps the invariant, also when it is refused.
pub do_post-Inv :
    (h : Handler) (t : Task) (ts now : ℕ) → 0 < now → Inv h → Inv (do_post h t ts now).0
unfolding do_post with_task
do_post-Inv h t ts now pos v =
    if_intro (λ (r : Handler × Bool). Inv r.0) (not t.runs) _ _ v
      (if_intro (λ (r : Handler × Bool). Inv r.0) (found same_task t h.tasks) _ _ v
        (update-Inv (with_task h t (max_ms ts now)) now
          (with_task-Lists h t (max_ms ts now) (max_ms_pos ts now pos) v.lists)))

-- Sending a message at a time after 0, in a handler with the invariant and a callback, does not
-- throw, and keeps the invariant.
pub send_message_at_time-Inv :
    (h : Handler) (m : Message) (ts now : ℕ)
    → 0 < now
    → Inv h
    → h.has_callback ≡ true
    → (h' : Handler) × (sent : Bool) × (send_message_at_time h m ts now ≡ some (h', sent)) × Inv h'
unfolding send_message_at_time with_message
send_message_at_time-Inv h m ts now pos v cb =
    elim (Bool-cases
      (found same_message (record m { expire_ms = max_ms ts now; handler = h.self }) h.messages)) [
        | inl f ↦ (h, false, rw (cb, send_message_at_time) (rw f), v)
        | inr f ↦ (
          update_next_ms_and_timer (with_message h m (max_ms ts now)) now,
          true,
          rw (cb, send_message_at_time) (rw f),
          update-Inv (with_message h m (max_ms ts now)) now
              (with_message-Lists h m (max_ms ts now) (max_ms_pos ts now pos) v.lists),
        )
      ]

module _ {A : Type 0} (same : A → A → Bool) (expire : A → ℕ) (x : A) where
  NoneBefore-erase :
      (b : ℕ) (l : List A) → NoneBefore expire b l → NoneBefore expire b (erase_first same x l)
  unfolding erase_first
  NoneBefore-erase b [] n = tt
  NoneBefore-erase b (y ∷ l) n = ground (arith, NoneBefore-erase b l n.1)

  IsSorted-erase : (l : List A) → IsSorted expire l → IsSorted expire (erase_first same x l)
  unfolding erase_first
  IsSorted-erase [] s = tt
  IsSorted-erase (y ∷ l) s = ground (arith, IsSorted-erase l s.1, NoneBefore-erase (expire y) l s.0)

  -- A list with nothing in it has nothing to erase.
  not_empty-erase : (l : List A) → is_empty (erase_first same x l) ≡ false → is_empty l ≡ false
  unfolding erase_first
  not_empty-erase [] e = e
  not_empty-erase (y ∷ l) e = refl

-- Removing a task keeps the invariant: the next time may be early, never late.
pub remove_task-Inv : (h : Handler) (t : Task) → Inv h → Inv (remove_task h t).0
unfolding remove_task
remove_task-Inv h t v =
    if_intro (λ (r : Handler × Bool). Inv r.0) (found same_task t h.tasks) _ _
      (record {
        lists = record {
          tasks_sorted = IsSorted-erase same_task task_expire t h.tasks v.lists.tasks_sorted;
          messages_sorted = v.lists.messages_sorted;
          tasks_pos = NoneBefore-erase same_task task_expire t 1 h.tasks v.lists.tasks_pos;
          messages_pos = v.lists.messages_pos;
        };
        tasks_after =
            NoneBefore-erase same_task task_expire t h.next_timeout_ms h.tasks v.tasks_after;
        messages_after = v.messages_after;
        next_set = λ e. v.next_set (still_busy e);
        armed = λ e. v.armed (still_busy e);
      })
      v
  where
    still_busy :
        is_empty (erase_first same_task t h.tasks) && is_empty h.messages ≡ false
        → is_idle h ≡ false
    still_busy e = ground (arith, not_empty-erase same_task task_expire t h.tasks)

-- Removing a message keeps the invariant, also when there is none to remove.
pub remove_message-Inv : (h : Handler) (m : Message) → Inv h → Inv (remove_message h m).0
unfolding remove_message
remove_message-Inv h m v =
    if_intro (λ (r : Handler × Bool). Inv r.0)
      (not (m.handler == 0) && found same_message m h.messages) _ _
      (record {
        lists = record {
          tasks_sorted = v.lists.tasks_sorted;
          messages_sorted =
              IsSorted-erase same_message message_expire m h.messages v.lists.messages_sorted;
          tasks_pos = v.lists.tasks_pos;
          messages_pos =
              NoneBefore-erase same_message message_expire m 1 h.messages v.lists.messages_pos;
        };
        tasks_after = v.tasks_after;
        messages_after =
            NoneBefore-erase same_message message_expire m h.next_timeout_ms h.messages
              v.messages_after;
        next_set = λ e. v.next_set (still_busy e);
        armed = λ e. v.armed (still_busy e);
      })
      v
  where
    still_busy :
        is_empty h.tasks && is_empty (erase_first same_message m h.messages) ≡ false
        → is_idle h ≡ false
    still_busy e = ground (arith, not_empty-erase same_message message_expire m h.messages)
