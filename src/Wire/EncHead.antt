-- ===== src/Wire/EncHead.antt =====
-- bean/EncHead.h and bean/EncHead.cpp: the head of every packet. The host is little-endian; what
-- `Enc2Buf` writes at `p` is returned as bytes.
pub mod Laws
use rsock.Base.{
  ℕ, ◌+◌, ◌%◌, ◌<◌, ◌≡◌, Bool, ◌||◌, Option, none, some, ◌>>=◌, List, [], ◌∷◌, ◌++◌, ltb, leb, ◌==◌,
  if◌then◌else◌, length, drop, le_bytes,
}
use rsock.Wire.Enc.{little, split, decode_uint8, decode_uint32, decode_uint64}

pub record EncHead : Type 0 where
  pub len : ℕ  -- uint8_t
  pub cmd : ℕ  -- uint8_t
  pub id_buf : List ℕ  -- IdBufType
  pub conv : ℕ  -- uint32_t
  pub conn_key : ℕ  -- IntKeyType
  pub reserved : ℕ  -- uint8_t

abbrev pub type_data : ℕ
type_data = 0

abbrev pub type_conv_rst : ℕ
type_conv_rst = 1

abbrev pub type_netconn_rst : ℕ
type_netconn_rst = 2

abbrev pub type_keep_alive_req : ℕ
type_keep_alive_req = 3

abbrev pub type_keep_alive_resp : ℕ
type_keep_alive_resp = 4

abbrev pub id_buf_size : ℕ
id_buf_size = 8

-- len, cmd, id, conv, key, reserved
abbrev pub get_min_enc_size : ℕ
get_min_enc_size = 1 + 1 + id_buf_size + 4 + 8 + 1

abbrev pub get_size : EncHead → ℕ
get_size h = get_min_enc_size

abbrev pub is_rst_flag : ℕ → Bool
is_rst_flag c = c == type_conv_rst || c == type_netconn_rst

abbrev pub is_keep_alive_flag : ℕ → Bool
is_keep_alive_flag c = c == type_keep_alive_resp || c == type_keep_alive_req

-- The bytes of the fields, in the order in which they are written.
abbrev pub fields : EncHead → List ℕ
fields h =
    (h.len % 256)
    ∷ (h.cmd % 256)
    ∷ (h.id_buf ++ (le_bytes 4 h.conv ++ (le_bytes 8 h.conn_key ++ ((h.reserved % 256) ∷ []))))

-- What is written, and the head, whose `len` the call sets. `none` is the null pointer.
pub enc2buf : EncHead → ℕ → Option (List ℕ × EncHead)
enc2buf h buf_len =
    if leb (get_size h) buf_len
    then (let h' = record h { len = get_size h } in some (fields h', h'))
    else none

-- The fields behind `len`.
unfoldable pub decode_fields : EncHead → List ℕ → Option EncHead
decode_fields e p = do
  (cmd, p) ← decode_uint8 p
  (id_buf, p) ← split id_buf_size p
  (conv, p) ← decode_uint32 little p
  (conn_key, p) ← decode_uint64 little p
  (reserved, p) ← decode_uint8 p
  some (record e {
    cmd = cmd;
    id_buf = id_buf;
    conv = conv;
    conn_key = conn_key;
    reserved = reserved;
  })

-- `len` is read, and must not point past the buffer; then the other fields.
unfoldable pub decode_len : EncHead → ℕ → List ℕ → List ℕ → EncHead × Option (List ℕ)
decode_len e len p old =
    let e' = record e { len = len } in
    if ltb (length old) len
    then (e', none)
    else elim (decode_fields e' p) [ none ↦ (e', none) | some e'' ↦ (e'', some (drop len old)) ]

-- The head after the call, and the place `old + len`, or the null pointer. The buffer's length is
-- that of the list.
unfoldable pub decode_buf : EncHead → List ℕ → EncHead × Option (List ℕ)
decode_buf e [] = (e, none)
decode_buf e (len ∷ rest) =
    if leb get_min_enc_size (length (len ∷ rest))
    then decode_len e len rest (len ∷ rest)
    else (e, none)

-- The fields fit their types.
pub record IsValid (h : EncHead) : Type 0 where
  pub cmd_fits : h.cmd < 256
  pub id_fits : length h.id_buf ≡ id_buf_size
  pub conv_fits : h.conv < 4294967296
  pub key_fits : h.conn_key < 18446744073709551616
  pub reserved_fits : h.reserved < 256
