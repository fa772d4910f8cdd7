-- ===== src/Runtime/Handler.antt =====
-- util/Handler.h and util/Handler.cpp. The time that a call reads is its argument `now`, one for
-- all reads of a call; times do not reach 2 ^ 63, where `uint64_t` differences would change sign.
-- The mutex makes each call one step. A timer of the loop is the time at which it fires.
pub mod Removal
pub mod Invariant
pub mod Timeout
use rsock.Base.{
  ℕ, zero, suc, ◌+◌, ◌-◌, ◌≡◌, Bool, true, false, not, ◌&&◌, ◌||◌, Option, none, some, List, [],
  ◌∷◌, ◌++◌, ltb, ◌==◌, if◌then◌else◌, length, get_elem?, bytes_eq,
}
use rsock.Runtime.Expiry.{insert_sorted, split_due, interval}

-- `mTask` is the function that a task calls; here only whether there is one, and the random key
-- by which tasks are compared.
pub record Task : Type 0 where
  pub key : ℕ
  pub runs : Bool
  pub expire_ms : ℕ

-- `handler` and `obj` are addresses, 0 for null.
pub record Message : Type 0 where
  pub what : ℕ
  pub arg1 : ℕ
  pub msg : List ℕ
  pub obj : ℕ
  pub handler : ℕ
  pub expire_ms : ℕ

pub record Handler : Type 0 where
  pub self : ℕ
  pub tasks : List Task
  pub messages : List Message
  pub has_callback : Bool
  pub next_timeout_ms : ℕ
  pub timer : Option ℕ

abbrev pub task_expire : Task → ℕ
task_expire t = t.expire_ms

abbrev pub message_expire : Message → ℕ
message_expire m = m.expire_ms

abbrev pub same_task : Task → Task → Bool
same_task t u = t.key == u.key

abbrev pub same_message : Message → Message → Bool
same_message m n =
    (m.what == n.what)
    && (m.arg1 == n.arg1)
    && bytes_eq m.msg n.msg
    && (m.obj == n.obj)
    && (m.handler == n.handler)

module _ {A : Type 0} (same : A → A → Bool) where
  -- `std::find`
  abbrev pub found : A → List A → Bool
  found x [] = false
  found x (y ∷ ys) = same y x || found x ys

  -- `erase` at what `std::find` finds.
  pub erase_first : A → List A → List A
  erase_first x [] = []
  erase_first x (y ∷ ys) = if same y x then ys else y ∷ erase_first x ys

abbrev is_empty {ℓ} : {A : Type ℓ} → List A → Bool
is_empty [] = true
is_empty (x ∷ xs) = false

abbrev pub max_ms : ℕ → ℕ → ℕ
max_ms ts now = if ltb ts now then now else ts

unfoldable pub destroy_timer : Handler → Handler
destroy_timer h = record h { timer = none }

-- A timer that is set stays, unless the new time is earlier by more than the interval.
unfoldable pub setup_one_shot_timer : Handler → ℕ → ℕ → ℕ → Handler
setup_one_shot_timer h ts prev now =
    let armed = record h { timer = some (max_ms ts now) } in
    elim h.timer [ none ↦ armed | some t ↦ if ltb (ts + interval) prev then armed else h ]

-- `ts` of `updateNextMsAndTimer`; 0 stands for no time.
pub front_ms : List Task → List Message → ℕ
front_ms [] [] = 0
front_ms (t ∷ ts) [] = t.expire_ms
front_ms [] (m ∷ ms) = m.expire_ms
front_ms (t ∷ ts) (m ∷ ms) =
    if t.expire_ms == 0
    then m.expire_ms
    else if ltb t.expire_ms m.expire_ms
    then t.expire_ms
    else m.expire_ms

unfoldable pub update_next_ms_and_timer : Handler → ℕ → Handler
update_next_ms_and_timer h now =
    let ts = front_ms h.tasks h.messages in
    if is_empty h.tasks && is_empty h.messages
    then destroy_timer (record h { next_timeout_ms = 0 })
    else record (setup_one_shot_timer h ts h.next_timeout_ms now) { next_timeout_ms = ts }

-- Whether the task was posted, and the handler afterwards.
pub do_post : Handler → Task → ℕ → ℕ → Handler × Bool
do_post h task ts now =
    let new_task = record task { expire_ms = max_ms ts now } in
    let h' = record h { tasks = insert_sorted task_expire new_task h.tasks } in
    if not task.runs
    then (h, false)
    else if found same_task task h.tasks
    then (h, false)
    else (update_next_ms_and_timer h' now, true)

-- `none` is the exception that there is no callback.
unfoldable pub send_message_at_time : Handler → Message → ℕ → ℕ → Option (Handler × Bool)
send_message_at_time h msg ts now =
    let message = record msg { expire_ms = max_ms ts now; handler = h.self } in
    let h' = record h { messages = insert_sorted message_expire message h.messages } in
    if not h.has_callback
    then none
    else if found same_message message h.messages
    then some (h, false)
    else some (update_next_ms_and_timer h' now, true)

unfoldable pub send_message_delayed : Handler → Message → ℕ → ℕ → Option (Handler × Bool)
send_message_delayed h msg delay now = send_message_at_time h msg (now + delay) now

-- The next time is left as it is, and so is the timer.
pub remove_task : Handler → Task → Handler × Bool
remove_task h task =
    if found same_task task h.tasks
    then (record h { tasks = erase_first same_task task h.tasks }, true)
    else (h, false)

unfoldable pub remove_message : Handler → Message → Handler × Bool
remove_message h msg =
    if not (msg.handler == 0) && found same_message msg h.messages
    then (record h { messages = erase_first same_message msg h.messages }, true)
    else (h, false)

abbrev remove_all : Handler → Handler
remove_all h = destroy_timer (record h { tasks = []; messages = [] })

abbrev pub size : Handler → ℕ
size h = length h.tasks + length h.messages

abbrev pub has_what : ℕ → Message → Bool
has_what w m = m.what == w

pub any_what : ℕ → List Message → Bool
any_what w [] = false
any_what w (m ∷ ms) = has_what w m || any_what w ms

pub has_messages : Handler → ℕ → Bool
has_messages h w = any_what w h.messages

-- `std::swap` of the entries at `i + 1` and `i`.
pub swap_at : ℕ → List Message → List Message
swap_at i [] = []
swap_at i (x ∷ []) = x ∷ []
swap_at zero (x ∷ y ∷ l) = y ∷ x ∷ l
swap_at (suc i) (x ∷ y ∷ l) = x ∷ swap_at i (y ∷ l)

-- `for (int j = i; j > k; j--)`, with `n = j - k` rounds left.
pub move_down : ℕ → ℕ → List Message → List Message
move_down zero k l = l
move_down (suc n) k l = move_down n k (swap_at (n + k) l)

abbrev what_at : ℕ → ℕ → List Message → Bool
what_at w i l = elim (get_elem? l i) [ none ↦ false | some m ↦ has_what w m ]

-- `for (int i = 1, k = 0; i < size; i++)`, with `n` rounds left.
pub gather : ℕ → ℕ → ℕ → ℕ → List Message → List Message
gather zero w i k l = l
gather (suc n) w i k l =
    let hit = what_at w i l in
    gather n w (i + 1) (if hit then k + 1 else k) (if hit then move_down (i - k) k l else l)

-- `while (front().what == what) pop_front()`
pub pop_what : ℕ → List Message → List Message × Bool
pop_what w [] = ([], false)
pop_what w (m ∷ ms) =
    let rest = (pop_what w ms).0 in if has_what w m then (rest, true) else (m ∷ ms, false)

pub remove_messages : Handler → ℕ → Handler × Bool
remove_messages h w =
    let (ms, found_any) = pop_what w (gather (length h.messages - 1) w 1 0 h.messages) in
    (record h { messages = ms }, found_any)

-- What a timeout calls: the tasks and messages that are due, in this order. `none` is a failed
-- assertion.
pub record Calls : Type 0 where
  pub called_tasks : List Task
  pub called_messages : List Message

abbrev pub no_calls : Calls
no_calls = record { called_tasks = []; called_messages = [] }

pub on_timeout : Handler → ℕ → Option (Handler × Calls)
on_timeout h0 now =
    let h = destroy_timer h0 in
    let (due_tasks, tasks) = split_due task_expire now h.tasks in
    let (due_messages, messages) = split_due message_expire now h.messages in
    let h' = record h { tasks = tasks; messages = messages } in
    if is_empty h.messages && is_empty h.tasks
    then some (h, no_calls)
    else if ltb (now + interval) h.next_timeout_ms
    then some (update_next_ms_and_timer h now, no_calls)
    else if h.next_timeout_ms == 0
    then none
    else some (
      update_next_ms_and_timer h' now,
      record { called_tasks = due_tasks; called_messages = due_messages },
    )
