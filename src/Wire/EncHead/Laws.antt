-- ===== src/Wire/EncHead/Laws.antt =====
-- A head is read back as it was written.
use rsock.Base.{
  drop-append, ℕ, ◌%◌, ◌≤◌, ◌≡◌, refl, subst, some, List, [], ◌∷◌, ◌++◌, arith, length, drop,
  le_bytes, length-append, length-le_bytes, append_assoc,
}
use rsock.Wire.Enc.{split, decode_uint8}
use rsock.Wire.Enc.Laws.{split-append, decode_uint32-append, decode_uint64-append}
use rsock.Wire.EncHead.{
  EncHead, IsValid, fields, enc2buf, decode_fields, decode_buf, decode_len, get_min_enc_size,
}

pub length-fields : (h : EncHead) → IsValid h → length (fields h) ≡ get_min_enc_size
length-fields h v = omega (
  arith,
  v.id_fits,
  length-append h.id_buf
      (le_bytes 4 h.conv ++ (le_bytes 8 h.conn_key ++ ((h.reserved % 256) ∷ []))),
  length-append (le_bytes 4 h.conv) (le_bytes 8 h.conn_key ++ ((h.reserved % 256) ∷ [])),
  length-append (le_bytes 8 h.conn_key) ((h.reserved % 256) ∷ []),
  length-le_bytes 4 h.conv,
  length-le_bytes 8 h.conn_key,
)

fields_tail : EncHead → List ℕ → List ℕ
fields_tail h rest =
    (h.cmd % 256)
    ∷ (h.id_buf ++ (le_bytes 4 h.conv ++ (le_bytes 8 h.conn_key ++ ((h.reserved % 256) ∷ rest))))

fields-append :
    (h : EncHead) (rest : List ℕ) → fields h ++ rest ≡ (h.len % 256) ∷ fields_tail h rest
unfolding fields_tail
fields-append h rest = simp append_assoc

decode_fields-fields :
    (e h : EncHead) (rest : List ℕ)
    → IsValid h
    → decode_fields e (fields_tail h rest) ≡ some (record h { len = e.len })
unfolding decode_fields fields_tail decode_uint8
decode_fields-fields e h rest v =
    simp (ids, decode_uint32-append _ _ v.conv_fits, decode_uint64-append _ _ v.key_fits)
      (ground (arith, v.cmd_fits, v.reserved_fits))
  where
    tail : List ℕ
    tail = le_bytes 4 h.conv ++ (le_bytes 8 h.conn_key ++ ((h.reserved % 256) ∷ rest))

    ids : split 8 (h.id_buf ++ tail) ≡ some (h.id_buf, tail)
    ids =
        subst (λ m. split m (h.id_buf ++ tail) ≡ some (h.id_buf, tail)) v.id_fits
          (split-append h.id_buf tail)

drop-fields : (h : EncHead) (rest : List ℕ) → IsValid h → drop 23 (fields h ++ rest) ≡ rest
drop-fields h rest v =
    subst (λ m. drop m (fields h ++ rest) ≡ rest) (length-fields h v) (drop-append (fields h) rest)

-- Decoding the fields of a head in front of a payload.
decode_buf-fields :
    (e h : EncHead) (rest : List ℕ)
    → IsValid h
    → h.len ≡ 23
    → decode_buf e (fields h ++ rest) ≡ (h, some rest)
unfolding decode_buf decode_len
decode_buf-fields e h rest v l = ground (
  arith,
  fields-append h rest,
  length-append (fields h) rest,
  length-fields h v,
  drop-fields h rest v,
  decode_fields-fields (record e { len = h.len % 256 }) h rest v,
)

-- Whatever head the caller passes in, decoding what `Enc2Buf` wrote in front of a payload gives
-- the fields of the head, its length 23, and the place of the payload.
pub decode_buf-enc2buf :
    (h e : EncHead) (buf_len : ℕ) (payload : List ℕ)
    → IsValid h
    → get_min_enc_size ≤ buf_len
    → (bytes : List ℕ) × (sent : EncHead) × (enc2buf h buf_len ≡ some (bytes, sent))
      × (length bytes ≡ get_min_enc_size)
      × (decode_buf e (bytes ++ payload) ≡ (record h { len = 23 }, some payload))
unfolding enc2buf
decode_buf-enc2buf h e buf_len payload v room =
    (fields h', h', ground arith, length-fields h' v', decode_buf-fields e h' payload v' refl)
  where
    h' : EncHead
    h' = record h { len = get_min_enc_size }

    v' : IsValid h'
    v' = ground (arith, v)
