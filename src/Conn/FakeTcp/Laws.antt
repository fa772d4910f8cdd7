-- ===== src/Conn/FakeTcp/Laws.antt =====
-- Whether what one side acknowledges is what the other has sent.
use rsock.Base.{ℕ, ◌+◌, ◌%◌, ◌^◌, ◌≤◌, ◌<◌, ◌≡◌, ◌↔◌, refl, ◌∙◌, true, List, [], ◌∷◌, arith, length}
use rsock.Wire.TcpInfo.{TcpInfo}
use rsock.Packet.RawTcp.Laws.{received}
use rsock.Conn.FakeTcp.{head_size, init, set_isn, set_ack_isn, output, on_recv}

-- The number that the peer started with has no part in what a connection acknowledges at first:
-- that is its own number with 1 more, which is 2 more than the handshake acknowledged.
pub init-seq :
    (own : TcpInfo) (seq : ℕ)
    → (init (record own { seq = seq }) ≡ init own)
      × ((init own).seq ≡ (own.ack + 1) % 2 ^ 32)
      × ((init own).ack ≡ (own.ack + 2) % 2 ^ 32)
unfolding init set_isn set_ack_isn
init-seq own seq = (refl, refl, omega arith)

-- The payloads are sent one after the other, and each arrives in a packet with a head, as the
-- capture hands it on.
abbrev pub exchange : TcpInfo → TcpInfo → List (List ℕ) → TcpInfo × TcpInfo
exchange a b [] = (a, b)
exchange a b (packet ∷ packets) =
    exchange (output a (length packet) true)
      (on_recv b ((a.seq + (head_size + length packet)) % 2 ^ 32) true) packets

abbrev pub total : List (List ℕ) → ℕ
total [] = 0
total (packet ∷ packets) = head_size + length packet + total packets

-- A side that acknowledges what the other has sent does so after one more packet exactly when the
-- other's number does not wrap.
pub on_recv-output_iff :
    (a b : TcpInfo) (packet bytes : List ℕ)
    → a.seq < 2 ^ 32
    → b.ack ≡ a.seq
    → length bytes ≡ head_size + length packet
    → length bytes < 2 ^ 32
    → ((on_recv b (received a bytes).seq true).ack ≡ (output a (length packet) true).seq)
      ↔ (a.seq + length bytes < 2 ^ 32)
unfolding on_recv output
on_recv-output_iff a b packet bytes fits same len small =
    ((λ e. ground (arith, e)), (λ e. ground (arith, e)))

-- After packets that arrive in order, at a side that acknowledged no more than had been sent, that
-- side acknowledges all that was sent, while the numbers do not wrap.
pub exchange_lem :
    (a b : TcpInfo) (packet : List ℕ) (packets : List (List ℕ))
    → b.ack ≤ a.seq
    → a.seq + total (packet ∷ packets) < 2 ^ 32
    → ((exchange a b (packet ∷ packets)).0.seq ≡ a.seq + total (packet ∷ packets))
      × ((exchange a b (packet ∷ packets)).1.ack ≡ a.seq + total (packet ∷ packets))
unfolding on_recv output
exchange_lem a b packet [] below room = (omega arith, ground arith)
exchange_lem a b packet (next ∷ packets) below room =
    let sent : (output a (length packet) true).seq ≡ a.seq + (head_size + length packet) =
      omega arith in
    let got : (on_recv b ((a.seq + (head_size + length packet)) % 2 ^ 32) true).ack
        ≡ a.seq + (head_size + length packet) =
      ground arith in
    let (p, q) =
      exchange_lem (output a (length packet) true)
        (on_recv b ((a.seq + (head_size + length packet)) % 2 ^ 32) true) next packets
        (omega (arith, sent, got)) (omega (arith, sent)) in
    (p ∙ omega (arith, sent), q ∙ omega (arith, sent))
