-- ===== src/Net/AckPool/Laws.antt =====
-- What the pool promises the net managers.
use rsock.Base.{
  ℕ, ◌+◌, ◌<◌, ◌≡◌, ◌≢◌, refl, ap, ◌∙◌, inl, inr, true, Option, some, none, List, [], ◌∷◌, arith,
  dec_le, Bool-cases, find, erase, assign, find-erase, find-assign,
}
use Prim.Native.Nat.{bit_and}
use rsock.Wire.TcpInfo.{TcpInfo, equals, th_syn}
use rsock.Net.AckPool.{
  InfoPool, add_info_from_peer, remove_info, get_info_if_exists, wait2_transfer_info, on_flush,
}

pub equals_refl : (i : TcpInfo) → equals i i ≡ true
unfolding equals
equals_refl i = ground arith

equals_trans : (i j k : TcpInfo) → equals i j ≡ true → equals k i ≡ true → equals k j ≡ true
unfolding equals
equals_trans i j k h e = ground arith

-- Keys that are equal find the same.
pub find-equals :
    {V : Type 0} (i j : TcpInfo) (pool : List (TcpInfo × V))
    → equals i j ≡ true
    → find equals i pool ≡ find equals j pool
unfolding find equals
find-equals i j [] h = refl
find-equals i j (p ∷ pool) h = ground (arith, find-equals i j pool h)

-- What a taker gets from a captured info.
abbrev pub with_numbers : TcpInfo → TcpInfo → TcpInfo
with_numbers info from = record info { seq = from.seq; ack = from.ack }

pub equals_numbers : (i j : TcpInfo) → equals i (with_numbers i j) ≡ true
unfolding equals
equals_numbers i j = ground arith

-- The key under which the pool holds an info.
abbrev pub stored_key : InfoPool → TcpInfo → TcpInfo
stored_key pool info = elim (find equals info pool) [ none ↦ info | some p ↦ p.0 ]

pub stored_key_fresh :
    (pool : InfoPool) (info : TcpInfo) → find equals info pool ≡ none → stored_key pool info ≡ info
stored_key_fresh pool info h = ap (λ o. elim o [ none ↦ info | some p ↦ p.0 ]) h

add_accepted :
    (persist now flags : ℕ) (pool : InfoPool) (info : TcpInfo)
    → info.conn.sp ≢ 0
    → info.conn.dp ≢ 0
    → bit_and flags th_syn ≢ 0
    → add_info_from_peer persist pool info flags now
      ≡ (assign equals info (now + persist) pool, true)
unfolding add_info_from_peer
add_accepted persist now flags pool info s d f = ground arith

wait_found :
    (pool : InfoPool) (wakes : List InfoPool) (info : TcpInfo) (p : TcpInfo × ℕ)
    → find equals info pool ≡ some p
    → wait2_transfer_info pool wakes info
      ≡ (erase equals (with_numbers info p.0) pool, some (with_numbers info p.0))
unfolding wait2_transfer_info get_info_if_exists remove_info
wait_found pool [] info p h = ground (arith, h)
wait_found pool (n ∷ wakes) info p h = ground (arith, h)

key_or :
    (k : TcpInfo) (v : ℕ) (o : Option (TcpInfo × ℕ))
    → elim o as (λ _. Option (TcpInfo × ℕ)) [ none ↦ some (k, v) | some p ↦ some (p.0, v) ]
      ≡ some (elim o [ none ↦ k | some p ↦ p.0 ], v)
key_or k v none = refl
key_or k v (some p) = refl

stored_key-assign :
    (pool : InfoPool) (peer : TcpInfo) (expire : ℕ)
    → find equals peer (assign equals peer expire pool) ≡ some (stored_key pool peer, expire)
stored_key-assign pool peer expire =
    find-assign equals peer expire pool (equals_refl peer)
    ∙ key_or peer expire (find equals peer pool)

-- A handshake that is captured with SYN and with both ports set, is handed at once to whoever
-- waits for the same four addresses, and to one taker only: it is no longer in the pool. Where the
-- pool held no info of these addresses, the taker gets the new sequence numbers; where it held one,
-- the taker gets the old numbers, since the assignment keeps the key that is there.
pub wait2_transfer_info-add_info_from_peer :
    (persist now flags : ℕ) (pool : InfoPool) (peer info : TcpInfo) (wakes : List InfoPool)
    → peer.conn.sp ≢ 0
    → peer.conn.dp ≢ 0
    → bit_and flags th_syn ≢ 0
    → equals info peer ≡ true
    → (rest : InfoPool) × (wait2_transfer_info
          (add_info_from_peer persist pool peer flags now).0
          wakes
          info
        ≡ (rest, some (with_numbers info (stored_key pool peer))))
      × (find equals info rest ≡ none)
wait2_transfer_info-add_info_from_peer persist now flags pool peer info wakes s d f e =
    let pool' = assign equals peer (now + persist) pool in
    let taken = with_numbers info (stored_key pool peer) in
    let found = find-equals info peer pool' e ∙ stored_key-assign pool peer (now + persist) in
    (
      erase equals taken pool',
      ap (λ r. wait2_transfer_info r.0 wakes info) (add_accepted persist now flags pool peer s d f)
          ∙ wait_found pool' wakes info (stored_key pool peer, now + persist) found,
      find-equals info taken (erase equals taken pool') (equals_numbers info (stored_key pool peer))
          ∙ find-erase equals taken pool',
    )

-- A flush at `t` keeps an entry that expires after `t`: it is found as before.
pub on_flush_keeps :
    (pool : InfoPool) (t : ℕ) (info : TcpInfo) (p : TcpInfo × ℕ)
    → find equals info pool ≡ some p
    → t < p.1
    → find equals info (on_flush pool t) ≡ some p
unfolding find on_flush
on_flush_keeps [] t info p h l = h
on_flush_keeps (q ∷ pool) t info p h l = elim (Bool-cases (equals info q.0)) [
  | inl e ↦ ground (arith, e)
  | inr e ↦ ground (arith, e, on_flush_keeps pool t info p)
]

-- What is found after a flush at `t` expires after `t`.
pub on_flush_drops :
    (pool : InfoPool) (t : ℕ) (info : TcpInfo) (p : TcpInfo × ℕ)
    → find equals info (on_flush pool t) ≡ some p
    → t < p.1
unfolding find on_flush
on_flush_drops [] t info p h = ground (arith, h)
on_flush_drops (q ∷ pool) t info p h = elim (dec_le q.1 t) [
  | yes l ↦ on_flush_drops pool t info p (ground arith)
  | no l ↦ elim (Bool-cases (equals info q.0)) [
    | inl e ↦ ground (arith, e)
    | inr e ↦ on_flush_drops pool t info p (ground (arith, e))
  ]
]
