-- ===== src/Net/ConnPool/Laws.antt =====
-- What the pool of connections promises.
use Prim.Native.Nat.{bit_and}
use rsock.Base.{
  ℕ, ◌+◌, ◌<◌, ◌≡◌, ◌≢◌, refl, ap, ◌∙◌, Bool, true, none, some, List, [], ◌∷◌, arith, ◌==◌,
  if◌then◌else◌, find, insert_new, erase, find-insert_new, insert_new-found,
}
use rsock.Wire.TcpInfo.{TcpInfo, equals, th_syn}
use rsock.Net.AckPool.{InfoPool, add_info_from_peer, wait2_transfer_info}
use rsock.Net.AckPool.Laws.{
  wait2_transfer_info-add_info_from_peer, with_numbers, stored_key_fresh, find-equals, equals_refl,
}
use rsock.Net.ConnPool.{ConnHelper, ServerNetManager, add2_pool, get_tcp, flush_pool}

get_tcp_found :
    (s : ServerNetManager) (info i : TcpInfo) (wakes : List InfoPool) (p : TcpInfo × ConnHelper)
    (ack : InfoPool)
    → find equals info s.pool ≡ some p
    → p.1.conn ≢ 0
    → wait2_transfer_info s.ack_pool wakes info ≡ (ack, some i)
    → get_tcp s info wakes ≡ (
      record { pool = erase equals info s.pool; ack_pool = ack; closed = s.closed },
      some (p.1.conn, i),
    )
unfolding get_tcp
get_tcp_found s info i wakes p ack h n w = ground (arith, h, n, w, ap (λ x. x.0) w, ap (λ x. x.1) w)

module _ (get_tcp_info : ℕ → TcpInfo × Bool) where
  add2_pool_ok :
      (s : ServerNetManager) (tcp persist now : ℕ) (local : TcpInfo)
      → get_tcp_info tcp ≡ (local, true)
      → add2_pool get_tcp_info persist s tcp now ≡ record s {
        pool = insert_new equals local (record { conn = tcp; expire_ms = now + persist }) s.pool;
      }
  unfolding add2_pool
  add2_pool_ok s tcp persist now local ok = ground (arith, ap (λ x. x.0) ok, ap (λ x. x.1) ok)

  -- An accepted connection that is not null, and whose addresses are neither in the pool nor in the
  -- pool of captures, is handed to whoever asks for these addresses, once its handshake was captured
  -- with SYN and with both ports set: with the sequence numbers of the capture, and it is not closed.
  pub get_tcp-add2_pool :
      (s : ServerNetManager) (tcp now accepted persist expire flags : ℕ) (local peer info : TcpInfo)
      (wakes : List InfoPool)
      → get_tcp_info tcp ≡ (local, true)
      → tcp ≢ 0
      → find equals local s.pool ≡ none
      → find equals peer s.ack_pool ≡ none
      → equals info local ≡ true
      → equals info peer ≡ true
      → peer.conn.sp ≢ 0
      → peer.conn.dp ≢ 0
      → bit_and flags th_syn ≢ 0
      → (s' : ServerNetManager) × (get_tcp
            (record (add2_pool get_tcp_info persist s tcp accepted) {
              ack_pool = (add_info_from_peer expire s.ack_pool peer flags now).0;
            })
            info
            wakes
          ≡ (s', some (tcp, with_numbers info peer)))
        × (s'.closed ≡ s.closed)
  get_tcp-add2_pool s tcp now accepted persist expire flags local peer info wakes ok n fresh fresh'
        el ep sp dp syn =
      let helper : ConnHelper = record { conn = tcp; expire_ms = accepted + persist } in
      let pool = insert_new equals local helper s.pool in
      let ack' = (add_info_from_peer expire s.ack_pool peer flags now).0 in
      let s2 : ServerNetManager = record s { pool = pool; ack_pool = ack' } in
      let (rest, waited, gone) =
        wait2_transfer_info-add_info_from_peer expire now flags s.ack_pool peer info wakes sp dp syn
          ep in
      (
        record { pool = erase equals info pool; ack_pool = rest; closed = s.closed },
        ap (λ (x : ServerNetManager). get_tcp (record x { ack_pool = ack' }) info wakes)
              (add2_pool_ok s tcp persist accepted local ok)
            ∙ get_tcp_found s2 info (with_numbers info peer) wakes (local, helper) rest
                (find-equals info local pool el
                  ∙ find-insert_new equals local helper s.pool (equals_refl local)
                  ∙ rw fresh)
                n
                (waited
                  ∙ ap (λ t. (rest, some (with_numbers info t)))
                      (stored_key_fresh s.ack_pool peer fresh')),
        refl,
      )

  -- A second connection of the same addresses is neither put into the pool nor closed.
  pub add2_pool_again :
      (s : ServerNetManager) (tcp persist now : ℕ) (local : TcpInfo) (p : TcpInfo × ConnHelper)
      → get_tcp_info tcp ≡ (local, true)
      → find equals local s.pool ≡ some p
      → add2_pool get_tcp_info persist s tcp now ≡ s
  add2_pool_again s tcp persist now local p ok h =
      add2_pool_ok s tcp persist now local ok
      ∙ ap (λ (m : List (TcpInfo × ConnHelper)). record s { pool = m })
          (insert_new-found equals local _ p s.pool h)

-- How often an address stands in a list, and in a pool.
abbrev pub times : ℕ → List ℕ → ℕ
times t [] = 0
times t (x ∷ xs) = let rest = times t xs in if t == x then rest + 1 else rest

abbrev pub held : ℕ → List (TcpInfo × ConnHelper) → ℕ
held t [] = 0
held t (p ∷ pool) = let rest = held t pool in if t == p.1.conn then rest + 1 else rest

-- Every entry has a connection and expires after `now`.
abbrev pub AllAfter : ℕ → List (TcpInfo × ConnHelper) → Type 0
AllAfter now [] = Unit {0}
AllAfter now (p ∷ pool) = (p.1.conn ≢ 0) × (now < p.1.expire_ms) × AllAfter now pool

-- A flush leaves the entries that have a connection and expire later, and each connection of the
-- pool is afterwards in the pool or closed, as often as it was in the pool before: none is lost, and
-- none is closed twice.
pub flush_pool_lem :
    (now t : ℕ) (pool : List (TcpInfo × ConnHelper))
    → t ≢ 0
    → AllAfter now (flush_pool now pool).0
      × (held t (flush_pool now pool).0 + times t (flush_pool now pool).1 ≡ held t pool)
unfolding flush_pool
flush_pool_lem now t [] h = (tt, refl)
flush_pool_lem now t (p ∷ pool) h =
    let (after, kept) = flush_pool_lem now t pool h in
    (ground (arith, after), ground (arith, kept, h))
