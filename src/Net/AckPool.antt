-- ===== src/Net/AckPool.antt =====
-- net/TcpAckPool.cpp: the sequence numbers captured from handshakes, until a net manager takes
-- them. The mutex makes each call one step; while a call waits on the condition variable, others
-- run. `rsk_now_ms()` is the argument `now`.
pub mod Laws
pub mod Taken
use Prim.Native.Nat.{bit_and}
use rsock.Base.{
  ℕ, ◌+◌, Bool, true, false, ◌||◌, Option, none, some, List, [], ◌∷◌, ltb, leb, ◌==◌, if◌then◌else◌,
  length, find, contains, assign, erase,
}
use rsock.Wire.TcpInfo.{TcpInfo, equals, th_syn}

-- `std::map<TcpInfo, uint64_t, TcpCmpFn>`
abbrev pub InfoPool : Type 0
InfoPool = List (TcpInfo × ℕ)

pub add_info_from_peer : ℕ → InfoPool → TcpInfo → ℕ → ℕ → InfoPool × Bool
add_info_from_peer persist pool info flags now =
    if (info.conn.sp == 0) || (info.conn.dp == 0) || (bit_and flags th_syn == 0)
    then (pool, false)
    else (assign equals info (now + persist) pool, true)

-- With the number of entries erased.
unfoldable pub remove_info : InfoPool → TcpInfo → InfoPool × ℕ
remove_info pool info = (erase equals info pool, if contains equals info pool then 1 else 0)

unfoldable pub get_info_if_exists : InfoPool → TcpInfo → Option TcpInfo
get_info_if_exists pool info = elim (find equals info pool) [
  | none ↦ none
  | some p ↦ some (record info { seq = p.0.seq; ack = p.0.ack })
]

-- `wakes` are the pools that the call finds each time that it is woken before its timeout. The
-- pool afterwards, and what `info` becomes.
unfoldable pub wait2_transfer_info : InfoPool → List InfoPool → TcpInfo → InfoPool × Option TcpInfo
wait2_transfer_info pool [] info = elim (get_info_if_exists pool info) [
  | none ↦ (pool, none)
  | some i ↦ ((remove_info pool i).0, some i)
]
wait2_transfer_info pool (next ∷ wakes) info =
    let later = wait2_transfer_info next wakes info in
    elim (get_info_if_exists pool info) [ none ↦ later | some i ↦ ((remove_info pool i).0, some i) ]

abbrev contains_info : InfoPool → List InfoPool → TcpInfo → Bool
contains_info pool [] info = contains equals info pool
contains_info pool (next ∷ wakes) info = contains equals info pool || contains_info next wakes info

unfoldable pub on_flush : InfoPool → ℕ → InfoPool
on_flush [] timestamp = []
on_flush (p ∷ pool) timestamp =
    let rest = on_flush pool timestamp in if leb p.1 timestamp then rest else p ∷ rest
