-- ===== src/Runtime/Route/Laws.antt =====
-- What the watch on the network promises.
use rsock.Base.{
  ℕ, ◌+◌, ◌*◌, ◌<◌, ◌≡◌, ◌⊎◌, inl, inr, refl, Bool-cases, true, false, some, List, ◌∷◌, arith,
  bytes_eq_iff,
}
use rsock.Runtime.Handler.{has_messages, send_message_delayed}
use rsock.Runtime.Handler.Invariant.{Inv, send_message_at_time-Inv}
use rsock.Runtime.Route.{
  RouteService, quiet, msg_check, check_message, double_interval_sec, check_network_status_delayed,
  check_network_status_now, same_network,
}

-- The delays between checks, in seconds.
abbrev pub IsStep : ℕ → Type 0
IsStep n = (n ≡ 1) ⊎ ((n ≡ 2) ⊎ ((n ≡ 4) ⊎ ((n ≡ 8) ⊎ (n ≡ 16))))

double_interval_sec-IsStep : (n : ℕ) → IsStep n → IsStep (double_interval_sec n)
unfolding double_interval_sec
double_interval_sec-IsStep n s = ground (arith, s)

-- Putting off a check, at a time after 0, with a handler that has its invariant and its callback and
-- with a delay that is one of 1, 2, 4, 8 and 16 s, does not throw; the next delay is one of these
-- again, and the handler has its invariant.
pub check_network_status_delayed-IsStep :
    (r : RouteService) (now : ℕ)
    → 0 < now
    → Inv r.handler
    → r.handler.has_callback ≡ true
    → IsStep r.check_interval_sec
    → (r' : RouteService) × (check_network_status_delayed r now ≡ some r')
      × IsStep r'.check_interval_sec
      × Inv r'.handler
unfolding check_network_status_delayed send_message_delayed
check_network_status_delayed-IsStep r now pos v cb s =
    let (h, sent, e, v') =
      send_message_at_time-Inv r.handler (check_message r) (now + r.check_interval_sec * 1000) now
        pos v cb in
    elim (Bool-cases r.blocked) [
      | inl b ↦ (r, ground (arith, b), s, v)
      | inr b ↦ elim (Bool-cases (has_messages r.handler msg_check)) [
        | inl m ↦ (r, ground (arith, b, m), s, v)
        | inr m ↦ (
          record r { handler = h; check_interval_sec = double_interval_sec r.check_interval_sec },
          ground (arith, b, m, e),
          double_interval_sec-IsStep r.check_interval_sec s,
          v',
        )
      ]
    ]

same_network_refl : (dev ip : List ℕ) → same_network dev ip dev ip ≡ true
unfolding same_network
same_network_refl dev ip =
    ground (arith, (bytes_eq_iff dev dev).1 refl, (bytes_eq_iff ip ip).1 refl)

-- After a check that finds a device with an address, in a service that is not blocked, another check
-- that finds the same tells the observers nothing, and changes nothing.
pub check_network_status_now_twice :
    (r : RouteService) (d i : ℕ) (dev ip : List ℕ)
    → r.blocked ≡ false
    → check_network_status_now
        (check_network_status_now r 0 (d ∷ dev) (i ∷ ip)).0
        0
        (d ∷ dev)
        (i ∷ ip)
      ≡ ((check_network_status_now r 0 (d ∷ dev) (i ∷ ip)).0, quiet)
unfolding check_network_status_now
check_network_status_now_twice r d i dev ip b =
    elim (Bool-cases (same_network r.dev r.ip (d ∷ dev) (i ∷ ip))) [
      | inl e ↦ ground (arith, b, e)
      | inr e ↦ ground (arith, b, e, same_network_refl (d ∷ dev) (i ∷ ip))
    ]
