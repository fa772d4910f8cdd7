-- ===== src/Net/AckPool/Taken.antt =====
-- A record that was taken is gone.
use rsock.Base.{ℕ, ◌≡◌, ◌∙◌, true, Option, none, some, List, [], ◌∷◌, find, find-erase}
use rsock.Wire.TcpInfo.{TcpInfo, equals}
use rsock.Net.AckPool.{InfoPool, remove_info, get_info_if_exists, wait2_transfer_info}
use rsock.Net.AckPool.Laws.{find-equals, equals_numbers, with_numbers}

pub find-remove_info :
    (pool : InfoPool) (info : TcpInfo) → find equals info (remove_info pool info).0 ≡ none
unfolding remove_info
find-remove_info pool info = find-erase equals info pool

find-taken :
    (pool : InfoPool) (info from : TcpInfo)
    → find equals info (remove_info pool (with_numbers info from)).0 ≡ none
find-taken pool info from =
    find-equals info (with_numbers info from) (remove_info pool (with_numbers info from)).0
      (equals_numbers info from)
    ∙ find-remove_info pool (with_numbers info from)

-- The record is gone from the pool, and the ends are those that were asked for.
abbrev pub Gone : TcpInfo → InfoPool × Option TcpInfo → Type 0
Gone info (pool, none) = Unit {0}
Gone info (pool, some i) = (find equals info pool ≡ none) × (equals info i ≡ true)

taken-Gone :
    (pool : InfoPool) (info : TcpInfo) (found : Option (TcpInfo × ℕ))
    (r : InfoPool × Option TcpInfo)
    → Gone info r
    → Gone info
        (elim (elim found as (λ _. Option TcpInfo) [
          | none ↦ none
          | some p ↦ some (record info { seq = p.0.seq; ack = p.0.ack })
        ])
          as (λ _. InfoPool × Option TcpInfo) [
            | none ↦ r
            | some i ↦ ((remove_info pool i).0, some i)
          ])
taken-Gone pool info none r g = g
taken-Gone pool info (some p) r g = (find-taken pool info p.0, equals_numbers info p.0)

pub wait2_transfer_info-Gone :
    (pool : InfoPool) (wakes : List InfoPool) (info : TcpInfo)
    → Gone info (wait2_transfer_info pool wakes info)
unfolding wait2_transfer_info get_info_if_exists
wait2_transfer_info-Gone pool [] info = taken-Gone pool info (find equals info pool) (pool, none) tt
wait2_transfer_info-Gone pool (n ∷ wakes) info =
    taken-Gone pool info (find equals info pool) (wait2_transfer_info n wakes info)
      (wait2_transfer_info-Gone n wakes info)
