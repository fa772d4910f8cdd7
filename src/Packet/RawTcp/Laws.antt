-- ===== src/Packet/RawTcp/Laws.antt =====
-- A segment comes from the wire to the loop with the ends exchanged, and with its payload.
use Prim.Native.Nat.{bit_and}
use rsock.Base.{
  ℕ, ◌+◌, ◌*◌, ◌/◌, ◌%◌, ◌^◌, ◌≤◌, ◌<◌, ◌≡◌, ◌∙◌, Bool, some, List, [], ◌∷◌, ◌++◌, arith, length,
  take-length, length-append,
}
use rsock.Wire.ConnInfo
use rsock.Wire.TcpInfo.{TcpInfo, decoded, decode, th_syn}
use rsock.Wire.TcpInfo.Laws.{Fits, decode-encode_tcp}
use rsock.Packet.Hash.{hash_buf_size}
use rsock.Packet.RConn.{om_max_pkt_size}
use rsock.Packet.RawTcp.{
  send_sync, cap2uv, copy_payload, raw_input, on_link, on_ip, on_tcp, on_segment, deliver,
  link_layer, if_ip4, dlt_en10mb, Segment, parse_tcp, input, sync_input, of_decoded, sa4_size,
}

nonempty :
    (buf : List ℕ) (i : TcpInfo) (p : List ℕ)
    → 0 < length buf
    → decode buf ≡ decoded i p
    → sync_input buf ≡ input i p
unfolding sync_input of_decoded
nonempty [] i p h e = absurd (omega arith)
nonempty (b ∷ buf) i p h e = ground (arith, e)

-- A payload that leaves room for the addresses comes out of the loop's end as it went in, with
-- every field of its info, where the info's fields fit their types and its object a packet.
pub sync_input-cap2uv :
    (object_size base_size : ℕ) (info : TcpInfo) (payload : List ℕ)
    → Fits info
    → base_size ≤ object_size
    → object_size ≤ om_max_pkt_size
    → length payload + 2 * sa4_size ≤ om_max_pkt_size
    → (bytes : List ℕ) × (cap2uv object_size base_size info payload (length payload)
        ≡ some (send_sync bytes))
      × (sync_input bytes ≡ input info payload)
unfolding cap2uv copy_payload
sync_input-cap2uv object_size base_size info payload fits small room short =
    let (head, encoded, len, back) =
      decode-encode_tcp object_size base_size om_max_pkt_size info payload fits small room in
    (
      head ++ payload,
      ground (arith, encoded, take-length payload),
      nonempty (head ++ payload) info payload (omega (arith, length-append head payload, len)) back,
    )

-- Byte `k` of a number, and the bytes of a segment with these headers behind an Ethernet header, as
-- libnet writes them: 20 bytes of IPv4, 20 of TCP. The bytes that do not matter are `x`.
abbrev byte : ℕ → ℕ → ℕ
byte n k = n / 256 ^ k % 256

abbrev pub tcp_header : (ℕ → ℕ) → TcpInfo → List ℕ → List ℕ
tcp_header x i payload =
    byte i.sp 1
    ∷ byte i.sp 0
    ∷ byte i.dp 1
    ∷ byte i.dp 0
    ∷ byte i.seq 3
    ∷ byte i.seq 2
    ∷ byte i.seq 1
    ∷ byte i.seq 0
    ∷ byte i.ack 3
    ∷ byte i.ack 2
    ∷ byte i.ack 1
    ∷ byte i.ack 0
    ∷ 0x50
    ∷ i.flag
    ∷ x 34
    ∷ x 35
    ∷ x 36
    ∷ x 37
    ∷ x 38
    ∷ x 39
    ∷ payload

abbrev pub ip_header : (ℕ → ℕ) → TcpInfo → ℕ → List ℕ → List ℕ
ip_header x i total rest =
    0x45
    ∷ x 1
    ∷ byte total 1
    ∷ byte total 0
    ∷ x 4
    ∷ x 5
    ∷ x 6
    ∷ x 7
    ∷ x 8
    ∷ 6
    ∷ x 10
    ∷ x 11
    ∷ byte i.src 0
    ∷ byte i.src 1
    ∷ byte i.src 2
    ∷ byte i.src 3
    ∷ byte i.dst 0
    ∷ byte i.dst 1
    ∷ byte i.dst 2
    ∷ byte i.dst 3
    ∷ rest

abbrev pub frame : (ℕ → ℕ) → TcpInfo → List ℕ → List ℕ
frame x i payload =
    x 50
    ∷ x 51
    ∷ x 52
    ∷ x 53
    ∷ x 54
    ∷ x 55
    ∷ x 56
    ∷ x 57
    ∷ x 58
    ∷ x 59
    ∷ x 60
    ∷ x 61
    ∷ 8
    ∷ 0
    ∷ ip_header x i (40 + length payload) (tcp_header x i payload)

le32_byte :
    (n : ℕ) → n < 2 ^ 32 → (byte n 3 * 256 + byte n 2) * 65536 + (byte n 1 * 256 + byte n 0) ≡ n
le32_byte n h = omega arith

be16_byte : (n : ℕ) → n < 2 ^ 16 → byte n 1 * 256 + byte n 0 ≡ n
be16_byte n h = omega arith

abbrev seen : TcpInfo → List ℕ → Segment
seen i payload = record {
  info = record i { conn = ConnInfo.reverse i.conn };
  payload = payload;
  offset = 40;
  ip_len = 40 + length payload;
}

parse_tcp-headers :
    (x : ℕ → ℕ) (i : TcpInfo) (payload : List ℕ)
    → Fits i
    → 40 + length payload < 2 ^ 16
    → parse_tcp
        (ip_header x i (40 + length payload) (tcp_header x i payload))
        (tcp_header x i payload)
        20
      ≡ some (seen i payload)
unfolding parse_tcp
parse_tcp-headers x i payload v h =
    let a = le32_byte i.src v.conn_fits.src_fits in
    let b = le32_byte i.dst v.conn_fits.dst_fits in
    let c = le32_byte i.seq v.seq_fits in
    let d = le32_byte i.ack v.ack_fits in
    let e = be16_byte i.sp v.conn_fits.sp_fits in
    let f = be16_byte i.dp v.conn_fits.dp_fits in let g = be16_byte (40 + length payload) h in cc

-- The info that comes of a segment: the ends are exchanged, and the payload is counted.
abbrev pub received : TcpInfo → List ℕ → TcpInfo
received i payload = record {
  conn = ConnInfo.reverse i.conn;
  seq = (i.seq + length payload) % 2 ^ 32;
  ack = i.ack;
  flag = i.flag;
}

raw_input-frame :
    (object_size base_size hdr_len : ℕ) (is_server has_pool : Bool) (x : ℕ → ℕ) (i : TcpInfo)
    (payload : List ℕ)
    → Fits i
    → 40 + length payload < 2 ^ 16
    → 44 ≤ hdr_len
    → bit_and i.flag th_syn ≡ 0
    → hash_buf_size < length payload
    → raw_input object_size base_size is_server has_pool dlt_en10mb hdr_len (frame x i payload)
      ≡ cap2uv object_size base_size (received i payload) payload (length payload)
unfolding raw_input on_link on_ip on_tcp on_segment deliver link_layer if_ip4
raw_input-frame object_size base_size hdr_len is_server has_pool x i payload v h len syn long =
    ground (arith, parse_tcp-headers x i payload v h, syn)

pub sync_input-raw_input :
    (object_size base_size hdr_len : ℕ) (is_server has_pool : Bool) (x : ℕ → ℕ) (i : TcpInfo)
    (payload : List ℕ)
    → Fits i
    → base_size ≤ object_size
    → object_size ≤ om_max_pkt_size
    → 44 ≤ hdr_len
    → bit_and i.flag th_syn ≡ 0
    → hash_buf_size < length payload
    → length payload + 2 * sa4_size ≤ om_max_pkt_size
    → (bytes : List ℕ) × (raw_input object_size base_size is_server has_pool dlt_en10mb hdr_len
          (frame x i payload)
        ≡ some (send_sync bytes))
      × (sync_input bytes ≡ input (received i payload) payload)
sync_input-raw_input object_size base_size hdr_len is_server has_pool x i payload v small room len
      syn long short =
    let fits : Fits (received i payload) = record {
      conn_fits = record {
        src_fits = v.conn_fits.dst_fits;
        dst_fits = v.conn_fits.src_fits;
        sp_fits = v.conn_fits.dp_fits;
        dp_fits = v.conn_fits.sp_fits;
      };
      seq_fits = omega arith;
      ack_fits = v.ack_fits;
      flag_fits = v.flag_fits;
    } in
    let (bytes, sent, back) =
      sync_input-cap2uv object_size base_size (received i payload) payload fits small room short in
    (
      bytes,
      raw_input-frame object_size base_size hdr_len is_server has_pool x i payload v (omega arith)
            len syn long
          ∙ sent,
      back,
    )
