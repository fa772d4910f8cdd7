-- ===== src/Sync/BufSize.antt =====
-- src/sync/ISyncConn.cpp: the loops of `trySetGoodBufSize`, one for each of the two buffers of the two
-- kinds of arguments. Sizes are `int`s that are not negative; what setting one returns is an argument.
pub mod Laws
use rsock.Base.{
  ℕ, zero, suc, ◌*◌, ◌/◌, ◌^◌, Bool, true, false, Option, none, some, ltb, if◌then◌else◌,
}

-- RSOCK_SOCK_BUF_TIMES is an argument of the calls. The size that is set, `none` for none; an inner
-- `none` is the end of the fuel.
pub try_sizes : ℕ → (ℕ → Bool) → ℕ → ℕ → Option (Option ℕ)
try_sizes zero set orig size = none
try_sizes (suc fuel) set orig size =
    let rest = try_sizes fuel set orig (size / 2) in
    if ltb orig size then (if set size then some (some size) else rest) else some none

-- `got` is none where the size cannot be read: then nothing is set, as -1 or an error says. The
-- product of the sizes is an `int`.
unfoldable pub try_set_good_buf_size : (ℕ → Bool) → ℕ → Option ℕ → Option (Option ℕ)
unfolding try_sizes
try_set_good_buf_size set n_times none = some none
try_set_good_buf_size set n_times (some orig) =
    try_sizes (suc (n_times * orig)) set orig (n_times * orig)
