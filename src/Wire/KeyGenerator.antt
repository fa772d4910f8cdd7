-- ===== src/Wire/KeyGenerator.antt =====
-- src/util/KeyGenerator.cpp: the keys by which the two sides name a connection.
pub mod Laws
use Prim.Native.Nat.{bit_or}
use rsock.Base.{
  ℕ, ◌+◌, ◌*◌, ◌%◌, ◌^◌, Bool, true, false, ◌||◌, Option, none, some, List, ◌++◌, ltb, ◌==◌,
  if◌then◌else◌, le_bytes, to_string,
}
use rsock.Wire.Enc.{little, decode_uint64}
use rsock.Wire.ConnInfo.{ConnInfo}
use rsock.Wire.TcpInfo.{TcpInfo}

abbrev pub type_invalid : ℕ
type_invalid = 0x00000000

abbrev pub type_tcp : ℕ
type_tcp = 0x10000000

abbrev pub type_udp : ℕ
type_udp = 0x20000000

abbrev pub type_icmp : ℕ
type_icmp = 0x30000000

abbrev pub invalid_key : ℕ
invalid_key = type_invalid

abbrev init_key : ℕ
init_key = 0

-- `StrForIntKey`
abbrev pub str_for_int_key : ℕ → List ℕ
str_for_int_key key = to_string key

-- What a `ConnInfo` reference refers to; `IsUdp` is virtual.
pub data Info : Type 0 where
  udp : ConnInfo → Info
  tcp : TcpInfo → Info

abbrev pub is_udp : Info → Bool
is_udp (udp c) = true
is_udp (tcp i) = false

abbrev pub conn_of : Info → ConnInfo
conn_of (udp c) = c
conn_of (tcp i) = i.conn

-- The two ports below the type.
unfoldable pub key_for_ports : ℕ → ℕ → ℕ → ℕ
key_for_ports type sp dp = bit_or (bit_or init_key type) (bit_or (dp * 2 ^ 16) sp)

-- `none` is the failed assertion that the ports are not 0.
unfoldable pub key_for_tcp : TcpInfo → Option ℕ
key_for_tcp i = if i.sp == 0 || i.dp == 0 then none else some (key_for_ports type_tcp i.sp i.dp)

unfoldable pub key_for_udp : ConnInfo → Option ℕ
key_for_udp c = if c.sp == 0 || c.dp == 0 then none else some (key_for_ports type_udp c.sp c.dp)

abbrev pub key_for_conn_info : Info → Option ℕ
key_for_conn_info (tcp i) = key_for_tcp i
key_for_conn_info (udp c) = key_for_udp c

-- The key, and the counter `sIcmpConv` afterwards.
abbrev new_key_for_icmp : ℕ → ℕ × ℕ
new_key_for_icmp icmp_conv =
    (bit_or (bit_or init_key type_icmp) icmp_conv, (icmp_conv + 1) % 18446744073709551616)

pub encode_key : ℕ → List ℕ
encode_key key = le_bytes 8 key

pub decode_key : List ℕ → Option (ℕ × List ℕ)
decode_key p = decode_uint64 little p

-- The number of bytes read and the key, which a buffer that is too short leaves alone.
pub decode_key_safe : ℕ → List ℕ → ℕ → ℕ × ℕ
decode_key_safe nread p key =
    if ltb nread 8 then (0, key) else elim (decode_key p) [ none ↦ (0, key) | some (k, q) ↦ (8, k) ]
