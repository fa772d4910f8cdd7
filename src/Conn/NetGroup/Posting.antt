-- ===== src/Conn/NetGroup/Posting.antt =====
-- Posting an error to the handler succeeds where it has a callback, which it keeps.

use rsock.Base.{
  ℕ, ◌+◌, ◌≡◌, refl, sym, subst, ◌∙◌, inl, inr, Bool, if_intro, true, false, not, Option,
  Option-cases, none, some, arith, if◌then◌else◌,
}
use rsock.Runtime.Handler.{
  found, max_ms, message_expire, Handler, Message, same_message, remove_message,
  send_message_delayed, send_message_at_time, update_next_ms_and_timer, setup_one_shot_timer,
  destroy_timer,
}
use rsock.Runtime.Expiry.{insert_sorted}

unfoldable pub has_callback : Handler → Bool
has_callback h = h.has_callback

callback-setup :
    (h : Handler) (ts prev now : ℕ)
    → (setup_one_shot_timer h ts prev now).has_callback ≡ h.has_callback
unfolding setup_one_shot_timer
callback-setup h ts prev now = elim (Option-cases h.timer) [
  | inl e ↦ ground (arith, e)
  | inr (t, e) ↦ ground (arith, e)
]

callback-update :
    (h : Handler) (now : ℕ) → (update_next_ms_and_timer h now).has_callback ≡ h.has_callback
unfolding update_next_ms_and_timer destroy_timer
callback-update h now =
    if_intro (λ (r : Handler). r.has_callback ≡ h.has_callback) _ _ _ refl
      (callback-setup h _ h.next_timeout_ms now)

pub callback-remove :
    (h : Handler) (m : Message) → (remove_message h m).0.has_callback ≡ h.has_callback
unfolding remove_message
callback-remove h m = ground arith

-- The handler took the message, and still has its callback.
abbrev Sends : Option (Handler × Bool) → Type 0
Sends o = (h' : Handler) × (sent : Bool) × (o ≡ some (h', sent)) × (h'.has_callback ≡ true)

pub send_total :
    (h : Handler) (m : Message) (delay now : ℕ)
    → h.has_callback ≡ true
    → Sends (send_message_delayed h m delay now)
unfolding send_message_delayed send_message_at_time
send_total h m delay now cb =
    let message = record m { expire_ms = max_ms (now + delay) now; handler = h.self } in
    let h' = record h { messages = insert_sorted message_expire message h.messages } in
    subst
      (λ b. Sends (
        if not b
        then none
        else if found same_message message h.messages
        then some (h, false)
        else some (update_next_ms_and_timer h' now, true)))
      (sym cb)
      (if_intro Sends (found same_message message h.messages) _ _ (h, false, refl, cb)
        (update_next_ms_and_timer h' now, true, refl, callback-update h' now ∙ cb))
