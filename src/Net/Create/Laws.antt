-- ===== src/Net/Create/Laws.antt =====
-- What a dial leaves behind.
use rsock.Base.{
  subst, ℕ, ◌≡◌, ◌≢◌, refl, inl, inr, Bool, Bool-cases, true, Option, Option-cases, none, some,
  List, ◌∷◌, arith, find,
}
use rsock.Wire.TcpInfo.{TcpInfo, equals}
use rsock.Wire.KeyGenerator.{type_tcp, key_for_ports, key_for_tcp}
use rsock.Net.AckPool.{InfoPool, remove_info, wait2_transfer_info}
use rsock.Net.AckPool.Taken.{find-remove_info, Gone, wait2_transfer_info-Gone}
use rsock.Net.Create.{Dialer, NewTcp, create_inet_conn, dial_tcp_sync}

-- A connection of this socket, with the key of the ends that the socket has, or none, and then the
-- socket is closed.
abbrev pub Dialed : ℕ → TcpInfo → List ℕ → Dialer → Option NewTcp → Type 0
Dialed tcp local closed s none = s.closed ≡ (tcp ∷ closed)
Dialed tcp local closed s (some c) =
    (s.closed ≡ closed)
    × (c.tcp ≡ tcp)
    × (equals local c.info ≡ true)
    × (key_for_tcp c.info ≡ some c.key)

-- The same ends give a key where one of them does.
key_for_equals :
    (local i : TcpInfo)
    → equals local i ≡ true
    → local.conn.sp ≢ 0
    → local.conn.dp ≢ 0
    → (key : ℕ) × (key_for_tcp i ≡ some key)
unfolding key_for_tcp equals
key_for_equals local i e sp dp =
    (key_for_ports type_tcp i.conn.sp i.conn.dp, ground (arith, e, sp, dp))

module _ (get_tcp_info : ℕ → TcpInfo × Bool) where
  -- A dial over a socket whose ports are set leaves no record of the ends of the socket in the pool. It
  -- gives a connection of these ends, with the key of its ports and the socket open, or none, and then
  -- the socket is closed.
  pub dial_tcp_sync_lem :
      (s : Dialer) (wakes : List InfoPool) (tcp : ℕ)
      → tcp ≢ 0
      → (get_tcp_info tcp).0.conn.sp ≢ 0
      → (get_tcp_info tcp).0.conn.dp ≢ 0
      → (s' : Dialer) × (made : Option NewTcp) × (dial_tcp_sync get_tcp_info s wakes tcp
          ≡ some (s', made))
        × (find equals (get_tcp_info tcp).0 s'.ack_pool ≡ none)
        × Dialed tcp (get_tcp_info tcp).0 s.closed s' made
  unfolding dial_tcp_sync create_inet_conn
  dial_tcp_sync_lem s wakes tcp n sp dp =
      let local = (get_tcp_info tcp).0 in
      let waited = wait2_transfer_info s.ack_pool wakes local in
      let failed = (remove_info waited.0 local).0 in
      let gone = wait2_transfer_info-Gone s.ack_pool wakes local in
      elim (Bool-cases (get_tcp_info tcp).1) [
        | inr ok ↦ (
          record { ack_pool = (remove_info s.ack_pool local).0; closed = tcp ∷ s.closed },
          none,
          ground (arith, n, ok),
          find-remove_info s.ack_pool local,
          refl,
        )
        | inl ok ↦ elim (Option-cases waited.1) [
          | inl t ↦ (
            record { ack_pool = failed; closed = tcp ∷ s.closed },
            none,
            ground (arith, n, ok, t),
            find-remove_info waited.0 local,
            refl,
          )
          | inr (i, t) ↦
              let (free, ends) = subst (λ o. Gone local (waited.0, o)) t gone in
              let (key, keyed) = key_for_equals local i ends sp dp in
              (
                record s { ack_pool = waited.0 },
                some (record { tcp = tcp; key = key; info = i }),
                ground (arith, n, ok, t, keyed, ends),
                free,
                (refl, refl, ends, keyed),
              )
        ]
      ]
