-- ===== src/Wire/ConnInfo.antt =====
-- bean/ConnInfo.cpp: the two ends of a connection, as the machine that holds it sees them. The
-- host is little-endian. `head` is a pointer that the callers pass on, and is left out.
use rsock.Base.{ℕ, ◌+◌, Option, none, some, ◌>>=◌, List, ◌++◌, ltb, if◌then◌else◌, length, le_bytes}
use rsock.Wire.Enc.{little, decode_uint16, decode_uint32}

pub record ConnInfo : Type 0 where
  pub src : ℕ  -- uint32_t
  pub dst : ℕ  -- uint32_t
  pub sp : ℕ  -- uint16_t
  pub dp : ℕ  -- uint16_t

-- The bytes of the fields.
abbrev pub conn_bytes : ConnInfo → List ℕ
conn_bytes c = le_bytes 4 c.src ++ (le_bytes 4 c.dst ++ (le_bytes 2 c.sp ++ le_bytes 2 c.dp))

-- `object_size` is `sizeof(*this)`, which the compiler chooses; what is written at `buf`, and
-- `none` for the null pointer.
unfoldable pub encode : ℕ → ConnInfo → ℕ → Option (List ℕ)
encode object_size c len = if ltb len object_size then none else some (conn_bytes c)

unfoldable pub decode_conn_fields : List ℕ → Option (ConnInfo × List ℕ)
decode_conn_fields buf = do
  (src, p) ← decode_uint32 little buf
  (dst, p) ← decode_uint32 little p
  (sp, p) ← decode_uint16 little p
  (dp, p) ← decode_uint16 little p
  some (record { src = src; dst = dst; sp = sp; dp = dp }, p)

-- The four fields, with the place behind them; `none` for the null pointer.
unfoldable pub decode : List ℕ → Option (ConnInfo × List ℕ)
unfolding decode_conn_fields
decode buf = if ltb (length buf) (4 + 4 + 2 + 2) then none else decode_conn_fields buf

abbrev pub reverse : ConnInfo → ConnInfo
reverse c = record { src = c.dst; dst = c.src; sp = c.dp; dp = c.sp }
