-- ===== src/Setup/Capture/Safe.antt =====
-- The capture thread and its handle.
use rsock.Base.{ℕ, ◌≡◌, refl, ap, ◌∙◌, true, false, Option, none, some, arith}
use rsock.Setup.Capture.{
  Thread, no_thread, looping, returned, Pc, idle, net_close, net_init, end_join, Capture, Step,
  connected, connected_anew, break_loop, join_none, join_thread, close_handle, init_no_handle,
  init_fails, init_starts, starts, wait_and_close, wait_and_close_none, end_breaks, end_closes,
  end_joins_none, end_joins, reads, reads_done, leaves, Reach, here, next, Leads, stay, then_,
  has_ended,
}

-- The handle that the thread is in the loop with is open, there is a thread only where there is a
-- handle, and none where a new handle is to be opened.
abbrev HasThread : Thread → Option ℕ → Type 0
HasThread no_thread o = Unit {0}
HasThread (looping h) o = o ≡ some h
HasThread returned o = (h : ℕ) × (o ≡ some h)

abbrev Joined : Pc → Thread → Type 0
Joined net_close th = th ≡ no_thread
Joined net_init th = th ≡ no_thread
Joined _ th = Unit {0}

record Inv (s : Capture) : Type 0 where
  same : s.cap ≡ s.opened
  held : has_ended s.pc ≡ false → HasThread s.thread s.opened
  joined : Joined s.pc s.thread

Step-Inv : {s t : Capture} → Step s t → Inv s → Inv t
Step-Inv (connected p c e) i = ground (arith, e, p, c)
Step-Inv (connected_anew p c e) i = ground (arith, e, p, c)
Step-Inv (break_loop p e) i = ground (arith, e, p)
Step-Inv (join_none p th e) i = ground (arith, e, p, th)
Step-Inv (join_thread p th e) i = ground (arith, e, p, th)
Step-Inv (close_handle p e) i = ground (arith, e, p)
Step-Inv (init_no_handle p e) i = ground (arith, e, p)
Step-Inv (init_fails p e) i = ground (arith, e, p)
Step-Inv (init_starts p e) i = ground (arith, e, p)
Step-Inv (starts p c th e) i = ground (arith, e, p, c, th)
Step-Inv (wait_and_close p c e) i = ground (arith, e, p, c)
Step-Inv (wait_and_close_none p c e) i = ground (arith, e, p, c)
Step-Inv (end_breaks p e) i = ground (arith, e, p)
Step-Inv (end_closes p e) i = ground (arith, e, p)
Step-Inv (end_joins_none p th e) i = ground (arith, e, p, th)
Step-Inv (end_joins p th e) i = ground (arith, e, p, th)
Step-Inv (reads th d e) i = ground (arith, e, th, d)
Step-Inv (reads_done th d e) i = ground (arith, e, th, d)
Step-Inv (leaves th e) i = ground (arith, e, th)

Reach-Inv : {s : Capture} → Reach s → Inv s
Reach-Inv here = record { same = refl; held = λ e. tt; joined = tt }
Reach-Inv (next r st) = Step-Inv st (Reach-Inv r)

-- In every state that is reached, before `WaitAndClose` has closed the handle, a thread that is in the
-- loop of libpcap is there with a handle that is open; and where `OnNetConnected` is about to start a
-- thread, there is none, as `Start` asserts.
pub Reach-IsSafe :
    (s : Capture)
    → Reach s
    → has_ended s.pc ≡ false
    → ((h : ℕ) → s.thread ≡ looping h → s.opened ≡ some h)
      × (s.pc ≡ net_init → s.thread ≡ no_thread)
Reach-IsSafe s r e =
    let i = Reach-Inv r in
    let held = i.held e in
    let joined = i.joined in ((λ h th. ground (arith, held, th)), λ p. ground (arith, joined, p))

-- From every state that is reached, in which the main thread is outside and the thread is in the loop of
-- libpcap, `WaitAndClose` gets to one in which the thread still is there and the handle is closed.
pub wait_and_close-closed :
    (s : Capture) (h : ℕ)
    → Reach s
    → s.pc ≡ idle
    → s.thread ≡ looping h
    → (t : Capture) × Leads s t × (t.pc ≡ end_join) × (t.thread ≡ looping h) × (t.opened ≡ none)
wait_and_close-closed s h r p th =
    let i = Reach-Inv r in
    let held = i.held (ap has_ended p) in
    let open_ : s.opened ≡ some h = ground (arith, held, th) in
    (
      record s { cap = none; opened = none; breaking = true; is_done = true; pc = end_join },
      then_ (then_ (then_ stay (wait_and_close p (i.same ∙ open_) refl)) (end_breaks refl refl))
          (end_closes refl refl),
      refl,
      th,
      refl,
    )
