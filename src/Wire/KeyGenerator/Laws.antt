-- ===== src/Wire/KeyGenerator/Laws.antt =====
-- Which connections share a key: the type is or'ed onto bits 28 and 29, which hold bits 12 and 13
-- of the peer's port.
use Prim.Native.Nat.{bit_or}
use rsock.Base.{
  ℕ, ◌+◌, ◌*◌, ◌/◌, ◌%◌, ◌^◌, ◌<◌, ◌≡◌, ◌↔◌, ◌∙◌, List, ◌++◌, arith, leb, length, length-le_bytes,
  if◌then◌else◌,
}
use rsock.Base.Bits.{zero-bit_or, bit_or-pow, bit_or-shift}
use rsock.Wire.Enc.Laws.{decode_uint64-append}
use rsock.Wire.ConnInfo.{ConnInfo}
use rsock.Wire.TcpInfo.{TcpInfo}
use rsock.Wire.KeyGenerator.{
  key_for_ports, key_for_tcp, key_for_udp, type_tcp, type_udp, encode_key, decode_key_safe,
  decode_key,
}

-- The port with bit 12 set, or bit 13.
abbrev pub set_12 : ℕ → ℕ
set_12 p = p / 8192 * 8192 + 4096 + p % 4096

abbrev pub set_13 : ℕ → ℕ
set_13 p = p / 16384 * 16384 + 8192 + p % 8192

-- Setting bit `16 + k` of the ports, seen as one number, sets bit `k` of the upper one.
tcp_ports : (sp dp : ℕ) → sp < 65536 → key_for_ports type_tcp sp dp ≡ set_12 dp * 65536 + sp
unfolding key_for_ports
tcp_ports sp dp h = rw (zero-bit_or type_tcp, bit_or-shift 16 dp sp h, split) (bits ∙ omega arith)
  where
    r : ℕ
    r = dp % 4096 * 65536 + sp

    split : dp * 2 ^ 16 + sp ≡ dp / 8192 * 2 ^ 29 + dp / 4096 % 2 * 2 ^ 28 + r
    split = omega arith

    bits :
        bit_or (2 ^ 28) (dp / 8192 * 2 ^ 29 + dp / 4096 % 2 * 2 ^ 28 + r)
        ≡ dp / 8192 * 2 ^ 29 + 2 ^ 28 + r
    bits = bit_or-pow 28 (dp / 8192) (dp / 4096 % 2) r (omega arith) (omega arith)

udp_ports : (sp dp : ℕ) → sp < 65536 → key_for_ports type_udp sp dp ≡ set_13 dp * 65536 + sp
unfolding key_for_ports
udp_ports sp dp h = rw (zero-bit_or type_udp, bit_or-shift 16 dp sp h, split) (bits ∙ omega arith)
  where
    r : ℕ
    r = dp % 8192 * 65536 + sp

    split : dp * 2 ^ 16 + sp ≡ dp / 16384 * 2 ^ 30 + dp / 8192 % 2 * 2 ^ 29 + r
    split = omega arith

    bits :
        bit_or (2 ^ 29) (dp / 16384 * 2 ^ 30 + dp / 8192 % 2 * 2 ^ 29 + r)
        ≡ dp / 16384 * 2 ^ 30 + 2 ^ 29 + r
    bits = bit_or-pow 29 (dp / 16384) (dp / 8192 % 2) r (omega arith) (omega arith)

-- Both ports are set, and fit 16 bits.
pub record HasPorts (c : ConnInfo) : Type 0 where
  pub sp_pos : 0 < c.sp
  pub dp_pos : 0 < c.dp
  pub sp_fits : c.sp < 65536
  pub dp_fits : c.dp < 65536

-- Two TCP connections with ports have the same key exactly when their own ports are equal and
-- their peers' ports are equal with bit 12 set; so ports that differ in that bit share a key.
pub key_for_tcp_iff :
    (i j : TcpInfo)
    → HasPorts i.conn
    → HasPorts j.conn
    → (key_for_tcp i ≡ key_for_tcp j) ↔ ((i.sp ≡ j.sp) × (set_12 i.dp ≡ set_12 j.dp))
unfolding key_for_tcp
key_for_tcp_iff i j p q = (
  (λ e. ground (arith, tcp_ports i.sp i.dp p.sp_fits, tcp_ports j.sp j.dp q.sp_fits)),
  (λ e. ground (arith, tcp_ports i.sp i.dp p.sp_fits, tcp_ports j.sp j.dp q.sp_fits)),
)

-- A TCP and a UDP connection with ports have the same key exactly when their own ports are equal
-- and the peer's port of the one with bit 12 set is that of the other with bit 13 set.
pub key_for_tcp-key_for_udp_iff :
    (i : TcpInfo) (c : ConnInfo)
    → HasPorts i.conn
    → HasPorts c
    → (key_for_tcp i ≡ key_for_udp c) ↔ ((i.sp ≡ c.sp) × (set_12 i.dp ≡ set_13 c.dp))
unfolding key_for_tcp key_for_udp
key_for_tcp-key_for_udp_iff i c p q = (
  (λ e. ground (arith, tcp_ports i.sp i.dp p.sp_fits, udp_ports c.sp c.dp q.sp_fits)),
  (λ e. ground (arith, tcp_ports i.sp i.dp p.sp_fits, udp_ports c.sp c.dp q.sp_fits)),
)

-- A key below 2 ^ 64 is read back from its 8 bytes; from fewer than 8 bytes nothing is read, and
-- the caller's key stays.
pub decode_key_safe-encode_key :
    (key old nread : ℕ) (rest : List ℕ)
    → key < 18446744073709551616
    → decode_key_safe nread (encode_key key ++ rest) old
      ≡ (if leb 8 nread then (8, key) else (0, old))
unfolding decode_key_safe decode_key encode_key
decode_key_safe-encode_key key old nread rest h = ground (arith, decode_uint64-append key rest h)

pub length-encode_key : (key : ℕ) → length (encode_key key) ≡ 8
unfolding encode_key
length-encode_key key = length-le_bytes 8 key
