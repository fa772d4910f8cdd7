-- ===== src/Wire/TcpInfo.antt =====
-- bean/TcpInfo.cpp and src/util/TcpCmpFn.h: a `ConnInfo` with the numbers and flags of a TCP
-- segment, and the order by which maps from it are sorted. The host is little-endian.
pub mod Laws
pub mod Order
pub mod Overrun
use Prim.Native.Nat.{bit_and}
use rsock.Base.{
  ℕ, ◌+◌, ◌-◌, ◌%◌, Bool, true, false, not, ◌&&◌, Option, none, some, ◌>>=◌, List, [], ◌∷◌, ◌++◌,
  ltb, ◌==◌, if◌then◌else◌, length, le_bytes,
}
use rsock.Wire.Enc.{little, decode_uint8, decode_uint32}
use rsock.Wire.ConnInfo.{ConnInfo}
use rsock.Wire.ConnInfo

pub record TcpInfo : Type 0 where
  pub conn : ConnInfo
  pub open conn use *
  pub seq : ℕ  -- uint32_t
  pub ack : ℕ  -- uint32_t
  pub flag : ℕ  -- uint8_t

abbrev pub th_fin : ℕ
th_fin = 0x01

abbrev pub th_syn : ℕ
th_syn = 0x02

abbrev pub th_rst : ℕ
th_rst = 0x04

abbrev pub th_ack : ℕ
th_ack = 0x10

-- `flag & (TH_FIN | TH_RST)`
abbrev pub has_close_flag : TcpInfo → Bool
has_close_flag i = not (bit_and i.flag (th_fin + th_rst) == 0)

-- The conversion from a `ConnInfo`.
abbrev pub of_conn_info : ConnInfo → TcpInfo
of_conn_info c = record { conn = c; seq = 0; ack = 0; flag = th_ack }

abbrev pub tcp_bytes : TcpInfo → List ℕ
tcp_bytes i =
    ConnInfo.conn_bytes i.conn ++ (le_bytes 4 i.seq ++ (le_bytes 4 i.ack ++ ((i.flag % 256) ∷ [])))

-- The sizes are `sizeof(TcpInfo)` and `sizeof(ConnInfo)`.
pub encode : ℕ → ℕ → TcpInfo → ℕ → Option (List ℕ)
encode object_size base_size i len = if ltb len object_size then none else (do
  p ← ConnInfo.encode base_size i.conn len
  some (p ++ (le_bytes 4 i.seq ++ (le_bytes 4 i.ack ++ ((i.flag % 256) ∷ [])))))

-- What a call of `Decode` does: it fills the object and returns the place behind it, it returns
-- the null pointer, or it reads past the end of the buffer.
pub data Decoded : Type 0 where
  decoded : TcpInfo → List ℕ → Decoded
  null : Decoded
  overrun : Decoded

abbrev pub or_overrun : Option (TcpInfo × List ℕ) → Decoded
or_overrun none = overrun
or_overrun (some (i, p)) = decoded i p

pub decode_tcp_fields : ConnInfo → List ℕ → Option (TcpInfo × List ℕ)
decode_tcp_fields c p = do
  (seq, p) ← decode_uint32 little p
  (ack, p) ← decode_uint32 little p
  (flag, p) ← decode_uint8 p
  some (record { conn = c; seq = seq; ack = ack; flag = flag }, p)

-- `p - buf` is what has been read, not what is left.
pub decode : List ℕ → Decoded
decode buf = elim (ConnInfo.decode buf) [
  | none ↦ null
  | some (c, p) ↦
      if ltb (length buf - length p) (4 + 4 + 1) then null else or_overrun (decode_tcp_fields c p)
]

abbrev pub reverse : TcpInfo → TcpInfo
reverse i = record i { conn = ConnInfo.reverse i.conn; seq = i.ack; ack = i.seq }

-- The loop over the pairs of keys.
less_keys : List (ℕ × ℕ) → Bool
less_keys [] = false
less_keys ((a, b) ∷ l) =
    let rest = less_keys l in if ltb a b then true else if ltb b a then false else rest

-- `TcpCmpFn::operator()`
pub less : TcpInfo → TcpInfo → Bool
unfolding less_keys
less i j = less_keys ((i.src, j.src) ∷ (i.sp, j.sp) ∷ (i.dst, j.dst) ∷ (i.dp, j.dp) ∷ [])

-- `TcpCmpFn::Equals`
unfoldable pub equals : TcpInfo → TcpInfo → Bool
equals i j = (i.src == j.src) && (i.sp == j.sp) && (i.dst == j.dst) && (i.dp == j.dp)
