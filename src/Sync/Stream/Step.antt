-- ===== src/Sync/Stream/Step.antt =====
-- The loop at a packet, and one read seen as the loop over what was kept and what came.
use rsock.Base.{
  ℕ, suc, ◌+◌, ◌-◌, ◌≤◌, ◌<◌, ◌≡◌, subst, ◌∙◌, ap, ◌⊎◌, some, List, [], ◌∷◌, ◌++◌, arith, length,
  le_bytes, length-append, length-le_bytes, of_le_bytes-le_bytes, append_assoc, append-nil, dec_lt,
  ℕ_discrete,
}
use rsock.Wire.Enc.{split}
use rsock.Wire.Enc.Laws.{split-append, split_short}
use rsock.Sync.Stream.{Stream, done, deliver, contents, loop, loop_body, raw_input, mark_temp_buf}

-- What holds between two reads: without a length, what is kept is part of one; with a length,
-- what is kept is part of the packet.
pub record IsValid (s : Stream) : Type 0 where
  pub next_fits : s.next_len < 1500
  pub partial : ((s.next_len ≡ 0) × (length s.temp_buf < 4)) ⊎ (length s.temp_buf < s.next_len)

split-length : (n : ℕ) (a p : List ℕ) → length a ≡ n → split n (a ++ p) ≡ some (a, p)
split-length n a p e = subst (λ m. split m (a ++ p) ≡ some (a, p)) e (split-append a p)

split_header : (n : ℕ) (p : List ℕ) → split 4 (le_bytes 4 n ++ p) ≡ some (le_bytes 4 n, p)
split_header n p = split-length 4 (le_bytes 4 n) p (length-le_bytes 4 n)

-- A length with fewer bytes behind it is kept.
pub loop_short :
    (fuel n : ℕ) (p : List ℕ)
    → length p < n
    → n < 1500
    → loop (suc fuel) (le_bytes 4 n ++ p) ≡ done (mark_temp_buf n p) []
unfolding loop loop_body
loop_short fuel n p h k =
    rw (split_header n p, loop)
      (ground (arith, of_le_bytes-le_bytes 4 n (omega arith), split_short n p h))

-- A packet behind its length is delivered, and the loop goes on behind it.
pub loop_packet :
    (fuel : ℕ) (f p : List ℕ)
    → 0 < length f
    → length f < 1500
    → loop (suc fuel) (le_bytes 4 (length f) ++ (f ++ p)) ≡ deliver f (loop fuel p)
unfolding loop loop_body
loop_packet fuel f p h k =
    rw (split_header (length f) (f ++ p), loop)
      (ground (arith, of_le_bytes-le_bytes 4 (length f) (omega arith), split-append f p))

-- Fewer than four bytes are kept as the start of a length.
pub loop_partial :
    (fuel : ℕ) (p : List ℕ) → length p < 4 → loop (suc fuel) p ≡ done (mark_temp_buf 0 p) []
unfolding loop
loop_partial fuel p h = rw (split_short 4 p h, loop)

packet_alone :
    (fuel : ℕ) (f : List ℕ)
    → 0 < length f
    → length f < 1500
    → loop (suc (suc fuel)) (le_bytes 4 (length f) ++ f) ≡ done (mark_temp_buf 0 []) (f ∷ [])
packet_alone fuel f h k =
    subst
      (λ g. loop (suc (suc fuel)) (le_bytes 4 (length f) ++ g) ≡ done (mark_temp_buf 0 []) (f ∷ []))
      (append-nil f)
      (loop_packet (suc fuel) f [] h k ∙ ap (deliver f) (loop_partial fuel [] (omega arith)))

pub contents_pos : (s : Stream) → 0 < s.next_len → contents s ≡ le_bytes 4 s.next_len ++ s.temp_buf
contents_pos s h = ground arith

pub contents_zero : (s : Stream) → s.next_len ≡ 0 → contents s ≡ s.temp_buf
contents_zero s h = ground arith

length-contents-le :
    (s : Stream) (c : List ℕ) → length (contents s ++ c) ≤ 4 + (length c + length s.temp_buf)
length-contents-le s c = elim (ℕ_discrete s.next_len 0) [
  | yes z ↦ omega (arith, length-append (contents s) c, ap length (contents_zero s z))
  | no p ↦ omega (
    arith,
    length-append (contents s) c,
    ap length (contents_pos s (omega arith)),
    length-append (le_bytes 4 s.next_len) s.temp_buf,
    length-le_bytes 4 s.next_len,
  )
]

module _ (s : Stream) (c : List ℕ) (v : IsValid s) (some_bytes : 0 < length c) where
  large_of_pos : 0 < s.next_len → contents s ++ c ≡ le_bytes 4 s.next_len ++ (s.temp_buf ++ c)
  large_of_pos h = rw (contents_pos s h) (append_assoc (le_bytes 4 s.next_len) s.temp_buf c)

  loop_below :
      (fuel : ℕ)
      → length c + length s.temp_buf < s.next_len
      → loop (suc fuel) (contents s ++ c) ≡ done (mark_temp_buf s.next_len (s.temp_buf ++ c)) []
  loop_below fuel h = rw (large_of_pos (omega arith)) (
      loop_short fuel s.next_len (s.temp_buf ++ c) (omega (arith, length-append s.temp_buf c))
        v.next_fits)

  loop_equal :
      (fuel : ℕ)
      → s.next_len ≡ length c + length s.temp_buf
      → loop (suc (suc fuel)) (contents s ++ c) ≡ done (mark_temp_buf 0 []) ((s.temp_buf ++ c) ∷ [])
  loop_equal fuel h =
      rw (large_of_pos (omega arith), len)
        (packet_alone fuel (s.temp_buf ++ c) (omega (arith, len)) (omega (arith, len, v.next_fits)))
    where
      len : s.next_len ≡ length (s.temp_buf ++ c)
      len = omega (arith, length-append s.temp_buf c)

  -- A read leaves what the loop leaves over what was kept, with its length, and what was read.
  pub raw_input-loop :
      length c ≤ 65536 → raw_input s c ≡ loop (suc (length (contents s ++ c))) (contents s ++ c)
  unfolding raw_input mark_temp_buf
  raw_input-loop h = elim (dec_lt s.next_len (length c + length s.temp_buf)) [
    | yes k ↦ ground (arith, v.next_fits, v.partial, length-contents-le s c)
    | no k ↦ elim (dec_lt (length c + length s.temp_buf) s.next_len) [
      | yes k' ↦ ground (arith, v.next_fits, loop_below (length (contents s ++ c)) k')
      | no k' ↦
          rw longer
            (ground (arith, v.next_fits, loop_equal (length (contents s ++ c) - 1) (omega arith)))
    ]
  ]
    where
      longer : length (contents s ++ c) ≡ suc (length (contents s ++ c) - 1)
      longer = omega (arith, length-append (contents s) c)
