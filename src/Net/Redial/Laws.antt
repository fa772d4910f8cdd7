-- ===== src/Net/Redial/Laws.antt =====
-- A connection that failed comes back.
use rsock.Base.{
  ℕ, ◌+◌, ◌≤◌, ◌≡◌, ◌≢◌, refl, ap, ◌∙◌, true, false, Option, some, ◌>>=◌, List, [], ◌∷◌, ◌++◌,
  arith, find, erase,
}
use rsock.Runtime.Handler.{Message}
use rsock.Wire.ConnInfo.{ConnInfo}
use rsock.Net.Dial.{DialHelper, flush_pending, on_tcp_connect, max_retry}
use rsock.Net.Dial.Laws.{flush_pending-append, flush_pending_due}
use rsock.Net.Redial.{
  EndInfo, Client, on_net_conn_err, net_conn_err, handle_message, flush_dials, has_request,
  tcp_dial_async_cb, tcp_connected,
}
use rsock.Conn.NetGroup.{NetConn, NetGroup, msg_conn_err, same_key}
use rsock.Conn.NetGroup.Keyed.{put}
use rsock.Conn.NetGroup.Keys.{Holds, add_net_conn_lem}

-- The ends that are dialed again: any local port.
abbrev pub redialed : EndInfo → ConnInfo
redialed i = record (i.info) { sp = 0 }

abbrev dial : EndInfo → ℕ → DialHelper
dial i now = record {
  info = redialed i;
  n_retry = max_retry;
  next_retry_ms = now + 1000;
  duration_ms = 1000;
  req = 0;
}

-- The request of the last dial is served.
has_request_last : (h : DialHelper) (p : List DialHelper) → has_request h.req (p ++ h ∷ []) ≡ true
has_request_last h [] = ground arith
has_request_last h (d ∷ p) = ground (arith, has_request_last h p)

on_tcp_connect_last :
    (now : ℕ) (h : DialHelper) (p : List DialHelper)
    → has_request h.req p ≡ false
    → on_tcp_connect h.req 0 true now (p ++ h ∷ []) ≡ p
on_tcp_connect_last now h [] e = ground arith
on_tcp_connect_last now h (d ∷ p) e = ground (arith, e, on_tcp_connect_last now h p)

-- The message of the failure of a TCP connection, which is still allocated, at a client that is not
-- closing: the connection is freed, and it is to be dialed in a second.
handle_message_lem :
    (s : Client) (m : Message) (a : ℕ × EndInfo) (now : ℕ)
    → m.what ≡ msg_conn_err
    → find same_key m.obj s.objects ≡ some a
    → a.1.is_udp ≡ false
    → s.err_handler ≡ some (record { closing = false })
    → handle_message s m now
      ≡ some (record s {
        objects = erase same_key m.obj s.objects;
        pending = s.pending ++ dial a.1 now ∷ [];
      })
unfolding handle_message net_conn_err on_net_conn_err
handle_message_lem s m a now what there tcp working = ground (arith, what, there, tcp, working)

-- The dial's flush a second later.
flush_dials_lem :
    (connect_tcp : ConnInfo → ℕ) (p : List DialHelper) (i : EndInfo) (now later : ℕ)
    → now + 1000 ≤ later
    → connect_tcp (redialed i) ≢ 0
    → (flush_pending connect_tcp true later (p ++ dial i now ∷ [])).0
      ≡ (flush_pending connect_tcp true later p).0
        ++ record (dial i now) { req = connect_tcp (redialed i) } ∷ []
flush_dials_lem connect_tcp p i now later wait gives =
    flush_pending-append connect_tcp later p (dial i now ∷ [])
    ∙ ap (λ q. (flush_pending connect_tcp true later p).0 ++ q)
        (flush_pending_due connect_tcp later (dial i now) refl (omega arith) wait gives)

module _ (init : NetConn → ℕ) (connect_tcp : ConnInfo → ℕ) where
  -- The callback adds the connection that the last dial gave.
  tcp_connected_lem :
      (cs : List NetConn) (s : Client) (p : List DialHelper) (h : DialHelper) (c : NetConn)
      (now : ℕ)
      → s.pending ≡ p ++ h ∷ []
      → has_request h.req p ≡ false
      → init c ≡ 0
      → Holds cs s.group
      → (g : NetGroup) × (tcp_connected init h.req 0 (some c) now s
          ≡ some (record s { pending = p; group = g }))
        × Holds (put c cs) g
  unfolding tcp_connected tcp_dial_async_cb
  tcp_connected_lem cs s p h c now last fresh ok holds =
      let (g, added, held) = add_net_conn_lem cs s.group c holds in
      let has = ap (λ q. has_request h.req q) last ∙ has_request_last h p in
      let left =
        ap (λ q. on_tcp_connect h.req 0 true now q) last ∙ on_tcp_connect_last now h p fresh in
      (g, ground (arith, added, has, left, ok), held)

  -- A TCP connection fails at a client that is not closing, and the message of it arrives; at the
  -- next flush of the dials, a second later or more and with the network up, the connect gets a
  -- request that no other dial has; it succeeds with a connection that can be initialised. Then the
  -- one that failed has been freed, its dial is not pending any more, the other dials are as their
  -- flush left them, and the group holds the new connection, or the one that had its key, in both
  -- maps beside those that it held.
  pub handle_message-tcp_connected :
      (cs : List NetConn) (s : Client) (m : Message) (a : ℕ × EndInfo) (c : NetConn)
      (now later done : ℕ)
      → m.what ≡ msg_conn_err
      → find same_key m.obj s.objects ≡ some a
      → a.1.is_udp ≡ false
      → s.err_handler ≡ some (record { closing = false })
      → now + 1000 ≤ later
      → connect_tcp (redialed a.1) ≢ 0
      → has_request (connect_tcp (redialed a.1)) (flush_pending connect_tcp true later s.pending).0
        ≡ false
      → init c ≡ 0
      → Holds cs s.group
      → (g : NetGroup) × ((do
        lost ← handle_message s m now
        tcp_connected init
            (connect_tcp (redialed a.1))
            0
            (some c)
            done
            (flush_dials connect_tcp true later lost))
          ≡ some (record s {
            objects = erase same_key m.obj s.objects;
            pending = (flush_pending connect_tcp true later s.pending).0;
            group = g;
          }))
        × Holds (put c cs) g
  handle_message-tcp_connected cs s m a c now later done what there tcp working wait gives fresh ok
        holds =
      let lost = record s {
        objects = erase same_key m.obj s.objects;
        pending = s.pending ++ dial a.1 now ∷ [];
      } in
      let (g, connected, held) =
        tcp_connected_lem cs (flush_dials connect_tcp true later lost)
          (flush_pending connect_tcp true later s.pending).0
          (record (dial a.1 now) { req = connect_tcp (redialed a.1) }) c done
          (flush_dials_lem connect_tcp s.pending a.1 now later wait gives) fresh ok holds in
      (
        g,
        ap
              (λ (r : Option Client). (do
                l ← r
                tcp_connected init (connect_tcp (redialed a.1)) 0 (some c) done
                    (flush_dials connect_tcp true later l)))
              (handle_message_lem s m a now what there tcp working)
            ∙ connected,
        held,
      )

-- When the connect of the last dial succeeds with a connection whose `Init` fails, no dial is left for
-- it and no connection has come to the group: it is not tried again.
pub tcp_connected_lost :
    (init : NetConn → ℕ) (s : Client) (p : List DialHelper) (h : DialHelper) (c : NetConn) (now : ℕ)
    → s.pending ≡ p ++ h ∷ []
    → has_request h.req p ≡ false
    → init c ≢ 0
    → tcp_connected init h.req 0 (some c) now s ≡ some (record s { pending = p })
unfolding tcp_connected tcp_dial_async_cb
tcp_connected_lost init s p h c now last fresh fails =
    let has = ap (λ q. has_request h.req q) last ∙ has_request_last h p in
    let left =
      ap (λ q. on_tcp_connect h.req 0 true now q) last ∙ on_tcp_connect_last now h p fresh in
    ground (arith, has, left, fails)
