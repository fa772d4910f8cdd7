-- ===== src/Wire/TcpInfo/Overrun.antt =====
-- `TcpInfo::Decode` on a buffer that holds the addresses and not all of the rest.
use rsock.Base.{ℕ, ◌+◌, ◌≤◌, ◌<◌, ◌≡◌, refl, none, some, List, [], ◌∷◌, arith, length, dec_lt}
use rsock.Wire.Enc.{little, decode_uint, decode_uint8, decode_uint16, decode_uint32}
use rsock.Wire.Enc.Laws.{decode_uint_total, decode_uint_short}
use rsock.Wire.ConnInfo.{ConnInfo, decode_conn_fields}
use rsock.Wire.ConnInfo
use rsock.Wire.TcpInfo.{decode, decode_tcp_fields, overrun}

conn_fields_total :
    (p : List ℕ)
    → 12 ≤ length p
    → (c : ConnInfo) × (q : List ℕ) × (decode_conn_fields p ≡ some (c, q))
      × (length q + 12 ≡ length p)
unfolding decode_conn_fields decode_uint32 decode_uint16
conn_fields_total p h =
    let (a, p1, e1, l1) = decode_uint_total 4 p (omega arith) in
    let (b, p2, e2, l2) = decode_uint_total 4 p1 (omega arith) in
    let (c, p3, e3, l3) = decode_uint_total 2 p2 (omega arith) in
    let (d, p4, e4, l4) = decode_uint_total 2 p3 (omega arith) in
    (record { src = a; dst = b; sp = c; dp = d }, p4, simp (e1, e2, e3, e4), omega arith)

flag_short :
    (c : ConnInfo) (p q : List ℕ) {a : ℕ}
    → length p < 9
    → decode_uint 4 little p ≡ some (a, q)
    → length q + 4 ≡ length p
    → decode_tcp_fields c p ≡ none
unfolding decode_tcp_fields decode_uint32 decode_uint8
flag_short c p q h e l = elim (dec_lt (length q) 4) [
  | yes k ↦ simp (e, decode_uint_short 4 q k)
  | no k ↦
      let (b, r, e', l') = decode_uint_total 4 q (omega arith) in
      let empty : r ≡ [] = nil r (omega arith) in simp (e, e', empty)
]
  where
    nil : (r : List ℕ) → length r < 1 → r ≡ []
    nil [] k = refl
    nil (x ∷ r) k = absurd (omega arith)

tcp_fields_short : (c : ConnInfo) (p : List ℕ) → length p < 9 → decode_tcp_fields c p ≡ none
unfolding decode_tcp_fields decode_uint32
tcp_fields_short c p h = elim (dec_lt (length p) 4) [
  | yes k ↦ simp (decode_uint_short 4 p k)
  | no k ↦ let (a, q, e, l) = decode_uint_total 4 p (omega arith) in flag_short c p q h e l
]

-- From a buffer of 12 to 20 bytes `Decode` reads past the end, since its second test compares what
-- has been read.
pub decode_short : (p : List ℕ) → 12 ≤ length p → length p < 21 → decode p ≡ overrun
unfolding decode ConnInfo.decode
decode_short p h k =
    let (c, q, e, l) = conn_fields_total p h in
    ground (arith, e, l, tcp_fields_short c q (omega arith))
