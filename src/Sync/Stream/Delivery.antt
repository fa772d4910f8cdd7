-- ===== src/Sync/Stream/Delivery.antt =====
-- However the stream is cut into reads, the receiver gets the packets that were sent.
use rsock.Base.{
  ℕ, suc, zero, ◌<◌, ◌≡◌, refl, subst, sym, ap, ◌∙◌, inl, some, List, [], ◌∷◌, ◌++◌, arith, length,
  le_bytes, length-append, length-le_bytes, of_le_bytes, of_le_bytes-le_bytes, append_assoc,
  append-nil, dec_lt, ℕ_discrete,
}
use rsock.Sync.Stream.{Stream, done, deliver_all, and_then, empty, contents, mark_temp_buf, run}
use rsock.Sync.Stream.Step.{IsValid, loop_partial, raw_input-loop, contents_pos, contents_zero}
use rsock.Sync.Stream.Packets.{
  send_all, AreSendable, AreReads, joined, stream, send_all-stream, append_split, Leaves, kept,
  passed,
}

-- The loop at a stream that begins with a packet, by what it does behind the packet.
at_packet :
    (k : ℕ) (f : List ℕ) (fs : List (List ℕ)) (r q : List ℕ)
    → AreSendable (f ∷ fs)
    → ((t : List ℕ) → length t < k → t ++ q ≡ stream fs → Leaves k t q fs)
    → r ++ q ≡ f ++ stream fs
    → length r < k
    → Leaves (suc k) (le_bytes 4 (length f) ++ r) q (f ∷ fs)
at_packet k f fs r q h behind e lt = elim (dec_lt (length r) (length f)) [
  | yes short ↦ kept k f fs r q h short e
  | no long ↦
      let (t, e3, e4) = append_split f r q (stream fs) e (omega arith) in
      subst (λ x. Leaves (suc k) (le_bytes 4 (length f) ++ x) q (f ∷ fs)) (sym e3)
        (passed k f fs t q h (behind t (omega (arith, ap length e3, length-append f t)) e4))
]

loop_prefix :
    (fs : List (List ℕ))
    → AreSendable fs
    → (k : ℕ) (p q : List ℕ) → length p < k
    → p ++ q ≡ stream fs
    → Leaves k p q fs
unfolding mark_temp_buf
loop_prefix fs h zero p q lt e = absurd (omega arith)
loop_prefix [] h (suc k) p q lt e = (
  record { next_len = 0; temp_buf = p },
  [],
  [],
  loop_partial k p (omega (arith, ap length e, length-append p q)),
  refl,
  e,
  ground (arith, ap length e, length-append p q),
  tt,
)
loop_prefix (f ∷ fs) h (suc k) p q lt e = elim (dec_lt (length p) 4) [
  | yes short ↦ (
    record { next_len = 0; temp_buf = p },
    [],
    f ∷ fs,
    loop_partial k p short,
    refl,
    e,
    ground arith,
    h,
  )
  | no long ↦
      let (r, e1, e2) =
        append_split (le_bytes 4 (length f)) p q (f ++ stream fs) e
          (omega (arith, length-le_bytes 4 (length f))) in
      subst (λ x. Leaves (suc k) x q (f ∷ fs)) (sym e1)
        (at_packet k f fs r q h (λ t. loop_prefix fs h.1 k t q) e2
          (omega (
            arith,
            ap length e1,
            length-append (le_bytes 4 (length f)) r,
            length-le_bytes 4 (length f),
          )))
]

-- A length that was kept, and that of the packet at which the stream stands, are one.
kept_length :
    (n : ℕ) (t f d : List ℕ)
    → n < 1500
    → length f < 1500
    → le_bytes 4 n ++ t ≡ le_bytes 4 (length f) ++ d
    → (n ≡ length f) × (length t ≡ length d)
kept_length n t f d hn hf e =
    let (r, e1, e2) =
      append_split (le_bytes 4 (length f)) (le_bytes 4 n) t d e
        (omega (arith, length-le_bytes 4 n, length-le_bytes 4 (length f))) in
    let none_left : r ≡ [] = nil r (
      omega (
        arith,
        ap length e1,
        length-append (le_bytes 4 (length f)) r,
        length-le_bytes 4 n,
        length-le_bytes 4 (length f),
      )) in
    let same : le_bytes 4 n ≡ le_bytes 4 (length f) = e1 ∙ (rw none_left (append-nil _)) in
    (
      omega (
        arith,
        ap of_le_bytes same,
        of_le_bytes-le_bytes 4 n (omega arith),
        of_le_bytes-le_bytes 4 (length f) (omega arith),
      ),
      omega (arith, ap length e2, ap length none_left, length-append r t),
    )
  where
    nil : (r : List ℕ) → length r ≡ 0 → r ≡ []
    nil [] k = refl
    nil (x ∷ r) k = absurd (omega arith)

-- All packets are out at the end of the stream.
at_end :
    (s : Stream) (fs : List (List ℕ))
    → IsValid s
    → AreSendable fs
    → contents s ++ [] ≡ stream fs
    → done s [] ≡ done empty fs
at_end s [] v h e = elim (ℕ_discrete s.next_len 0) [
  | yes z ↦
      let t : s.temp_buf ≡ [] = sym (contents_zero s z) ∙ sym (append-nil (contents s)) ∙ e in
      ground (arith, z, t)
  | no p ↦ absurd (
      omega (
        arith,
        ap length e,
        length-append (contents s) [],
        ap length (contents_pos s (omega arith)),
        length-append (le_bytes 4 s.next_len) s.temp_buf,
        length-le_bytes 4 s.next_len,
      ))
]
at_end s (f ∷ fs) v h e = elim (ℕ_discrete s.next_len 0) [
  | yes z ↦ absurd (
      ground (
        arith,
        v.partial,
        z,
        ap length e,
        length-append (contents s) [],
        ap length (contents_zero s z),
        length-append (le_bytes 4 (length f)) (f ++ stream fs),
        length-le_bytes 4 (length f),
      ))
  | no p ↦
      let (n, l) =
        kept_length s.next_len s.temp_buf f (f ++ stream fs) v.next_fits (omega arith)
          (sym (contents_pos s (omega arith)) ∙ sym (append-nil (contents s)) ∙ e) in
      absurd (ground (arith, v.partial, n, l, length-append f (stream fs)))
]

deliver_all-done :
    (gs rest : List (List ℕ)) (s : Stream) → deliver_all gs (done s rest) ≡ done s (gs ++ rest)
deliver_all-done [] rest s = refl
deliver_all-done (g ∷ gs) rest s = rw (deliver_all-done gs rest s)

-- The invariant of the reads: what was kept, and what is still to be read, is the stream of the
-- packets that are still to be delivered.
run-stream :
    (cs fs : List (List ℕ)) (s : Stream)
    → AreReads cs
    → IsValid s
    → AreSendable fs
    → contents s ++ joined cs ≡ stream fs
    → run s cs ≡ done empty fs
unfolding run
run-stream [] fs s r v h e = at_end s fs v h e
run-stream ([] ∷ cs) fs s r v h e = run-stream cs fs s r.1 v h e
run-stream ((b ∷ c) ∷ cs) fs s r v h e =
    let (s', gs, rest, looped, parts, left, valid, sendable) =
      loop_prefix fs h (suc (length (contents s ++ b ∷ c))) (contents s ++ b ∷ c) (joined cs)
        (omega arith) (append_assoc (contents s) (b ∷ c) (joined cs) ∙ e) in
    ap (λ o. and_then o (λ t. run t cs)) (raw_input-loop s (b ∷ c) v (omega arith) r.0 ∙ looped)
    ∙ ap (deliver_all gs) (run-stream cs rest s' r.1 valid sendable left)
    ∙ deliver_all-done gs rest empty
    ∙ ap (done empty) (sym parts)

-- The sender takes all packets that its assertions let pass.
pub send_all_total : (fs : List (List ℕ)) → AreSendable fs → send_all fs ≡ some (stream fs)
send_all_total fs h = send_all-stream fs h

-- Packets of 1 to 1495 bytes that are sent one after the other arrive, whole and in order, however
-- the stream of what the sends write is cut into reads of at most 65536 bytes; nothing is left over.
pub run-send_all :
    (fs cs : List (List ℕ))
    → AreSendable fs
    → AreReads cs
    → send_all fs ≡ some (joined cs)
    → run empty cs ≡ done empty fs
run-send_all fs cs h r e =
    run-stream cs fs empty r (record { next_fits = omega arith; partial = inl (refl, omega arith) })
      h (ground (arith, e, send_all-stream fs h))
