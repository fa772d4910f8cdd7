-- ===== src/Wire/TcpInfo/Laws.antt =====
-- Encoding, decoding and reversing of addresses.
use rsock.Base.{
  ℕ, ◌%◌, ◌≤◌, ◌<◌, ◌≡◌, some, List, [], ◌∷◌, ◌++◌, arith, length, le_bytes, length-append,
  length-le_bytes, append_assoc,
}
use rsock.Wire.Enc.{decode_uint8}
use rsock.Wire.Enc.Laws.{decode_uint16-append, decode_uint32-append}
use rsock.Wire.ConnInfo.{ConnInfo, conn_bytes, decode_conn_fields}
use rsock.Wire.ConnInfo
use rsock.Wire.TcpInfo.{TcpInfo, tcp_bytes, decode, decode_tcp_fields, encode, decoded}

pub record ConnFits (c : ConnInfo) : Type 0 where
  pub src_fits : c.src < 4294967296
  pub dst_fits : c.dst < 4294967296
  pub sp_fits : c.sp < 65536
  pub dp_fits : c.dp < 65536

-- The fields fit their types.
pub record Fits (i : TcpInfo) : Type 0 where
  pub conn_fits : ConnFits i.conn
  pub seq_fits : i.seq < 4294967296
  pub ack_fits : i.ack < 4294967296
  pub flag_fits : i.flag < 256

length-conn_bytes : (c : ConnInfo) → length (conn_bytes c) ≡ 12
length-conn_bytes c = omega (
  arith,
  length-append (le_bytes 4 c.src) (le_bytes 4 c.dst ++ (le_bytes 2 c.sp ++ le_bytes 2 c.dp)),
  length-append (le_bytes 4 c.dst) (le_bytes 2 c.sp ++ le_bytes 2 c.dp),
  length-append (le_bytes 2 c.sp) (le_bytes 2 c.dp),
  length-le_bytes 4 c.src,
  length-le_bytes 4 c.dst,
  length-le_bytes 2 c.sp,
  length-le_bytes 2 c.dp,
)

conn_fields-bytes :
    (c : ConnInfo) (p : List ℕ)
    → ConnFits c
    → decode_conn_fields
        (le_bytes 4 c.src ++ (le_bytes 4 c.dst ++ (le_bytes 2 c.sp ++ (le_bytes 2 c.dp ++ p))))
      ≡ some (c, p)
unfolding decode_conn_fields
conn_fields-bytes c p v = simp (
  decode_uint32-append _ _ v.src_fits,
  decode_uint32-append _ _ v.dst_fits,
  decode_uint16-append _ _ v.sp_fits,
  decode_uint16-append _ _ v.dp_fits,
)

conn_decode-bytes :
    (c : ConnInfo) (p : List ℕ) → ConnFits c → ConnInfo.decode (conn_bytes c ++ p) ≡ some (c, p)
unfolding ConnInfo.decode
conn_decode-bytes c p v =
    ground
      (arith, length-append (conn_bytes c) p, length-conn_bytes c, apart, conn_fields-bytes c p v)
  where
    apart :
        conn_bytes c ++ p
        ≡ le_bytes 4 c.src ++ (le_bytes 4 c.dst ++ (le_bytes 2 c.sp ++ (le_bytes 2 c.dp ++ p)))
    apart = simp append_assoc

-- The bytes behind the addresses.
abbrev tail_bytes : TcpInfo → List ℕ → List ℕ
tail_bytes i rest = le_bytes 4 i.seq ++ (le_bytes 4 i.ack ++ ((i.flag % 256) ∷ rest))

tcp_fields-bytes :
    (i : TcpInfo) (rest : List ℕ)
    → Fits i
    → decode_tcp_fields i.conn (tail_bytes i rest) ≡ some (i, rest)
unfolding decode_tcp_fields decode_uint8
tcp_fields-bytes i rest v =
    simp (decode_uint32-append _ _ v.seq_fits, decode_uint32-append _ _ v.ack_fits)
      (ground (arith, v.flag_fits))

pub length-tcp_bytes : (i : TcpInfo) → length (tcp_bytes i) ≡ 21
length-tcp_bytes i = omega (
  arith,
  length-conn_bytes i.conn,
  length-append (conn_bytes i.conn) (tail_bytes i []),
  length-append (le_bytes 4 i.seq) (le_bytes 4 i.ack ++ ((i.flag % 256) ∷ [])),
  length-append (le_bytes 4 i.ack) ((i.flag % 256) ∷ []),
  length-le_bytes 4 i.seq,
  length-le_bytes 4 i.ack,
)

-- The bytes of an info whose fields fit their types are decoded to it, and to the place behind
-- them.
pub decode-tcp_bytes :
    (i : TcpInfo) (rest : List ℕ) → Fits i → decode (tcp_bytes i ++ rest) ≡ decoded i rest
unfolding decode
decode-tcp_bytes i rest v = ground (
  arith,
  append_assoc (conn_bytes i.conn) (tail_bytes i []) rest,
  apart,
  conn_decode-bytes i.conn (tail_bytes i rest) v.conn_fits,
  length-append (conn_bytes i.conn) (tail_bytes i rest),
  length-conn_bytes i.conn,
  tcp_fields-bytes i rest v,
)
  where
    apart : tail_bytes i [] ++ rest ≡ tail_bytes i rest
    apart = simp append_assoc

-- A round trip through a buffer with room for the object: `Encode` writes 21 bytes, and `Decode`
-- gives back every field and the place behind them.
pub decode-encode_tcp :
    (object_size base_size len : ℕ) (i : TcpInfo) (rest : List ℕ)
    → Fits i
    → base_size ≤ object_size
    → object_size ≤ len
    → (bytes : List ℕ) × (encode object_size base_size i len ≡ some bytes)
      × (length bytes ≡ 21)
      × (decode (bytes ++ rest) ≡ decoded i rest)
unfolding encode ConnInfo.encode
decode-encode_tcp object_size base_size len i rest v small room =
    (tcp_bytes i, ground arith, length-tcp_bytes i, decode-tcp_bytes i rest v)
