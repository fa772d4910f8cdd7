-- ===== src/Packet/RawTcp.antt =====
-- conn/RawTcp.cpp: what it makes of a captured frame, and how the frame's payload gets from the
-- thread that captures to the loop. The host is little-endian. `none` is a read or a write past
-- the end of a buffer.
pub mod Laws
use Prim.Native.Nat.{bit_and}
use rsock.Base.{
  ℕ, ◌+◌, ◌-◌, ◌*◌, ◌/◌, ◌%◌, ◌^◌, Bool, true, false, not, ◌&&◌, ◌||◌, Option, none, some, ◌>>=◌,
  List, [], ◌∷◌, ◌++◌, ltb, leb, ◌==◌, if◌then◌else◌, length, get_elem?, take, drop,
}
use rsock.Wire.ConnInfo.{ConnInfo}
use rsock.Wire.TcpInfo.{
  TcpInfo, Decoded, decoded, null, overrun, encode, decode, has_close_flag, th_syn,
}
use rsock.Wire.TcpInfo
use rsock.Packet.Hash.{hash_buf_size}
use rsock.Packet.RConn.{om_max_pkt_size}

-- The word at a place, in the network's order and in the host's.
abbrev pub be16 : List ℕ → ℕ → Option ℕ
be16 p i = do a ← get_elem? p i; b ← get_elem? p (i + 1); some (a * 256 + b)

abbrev pub be32 : List ℕ → ℕ → Option ℕ
be32 p i = do a ← be16 p i; b ← be16 p (i + 2); some (a * 65536 + b)

abbrev pub le16 : List ℕ → ℕ → Option ℕ
le16 p i = do a ← get_elem? p i; b ← get_elem? p (i + 1); some (b * 256 + a)

abbrev pub le32 : List ℕ → ℕ → Option ℕ
le32 p i = do a ← le16 p i; b ← le16 p (i + 2); some (b * 65536 + a)

abbrev pub dlt_null : ℕ
dlt_null = 0

abbrev pub dlt_en10mb : ℕ
dlt_en10mb = 1

abbrev pub om_proto_ip : ℕ
om_proto_ip = 0x0008

abbrev pub ipproto_tcp : ℕ
ipproto_tcp = 6

-- `sizeof(SA4)`
abbrev pub sa4_size : ℕ
sa4_size = 16

-- What `RawInput` does with a frame: it returns 0, or -1 for the type of the link; it gives the
-- info of a handshake to `AddInfoFromPeer`; or it sends these bytes to the loop.
pub data Raw : Type 0 where
  skipped : Raw
  unsupported : Raw
  add_info_from_peer : TcpInfo → Raw
  send_sync : List ℕ → Raw

-- What lies behind the header of the link.
pub data Link : Type 0 where
  ip4 : List ℕ → Link
  not_ip4 : Link
  bad_link : Link

if_ip4 : Bool → List ℕ → Link
if_ip4 true p = ip4 p
if_ip4 false p = not_ip4

pub link_layer : ℕ → List ℕ → Option Link
unfolding if_ip4
link_layer datalink packet =
    if datalink == dlt_en10mb
    then (do t ← le16 packet 12; some (if_ip4 (t == om_proto_ip) (drop 14 packet)))
    else if datalink == dlt_null
    then (do t ← le32 packet 0; some (if_ip4 (t == 2) (drop 4 packet)))
    else some bad_link

-- The info of a segment, and where its payload starts.
pub record Segment : Type 0 where
  pub info : TcpInfo
  pub payload : List ℕ
  pub offset : ℕ
  pub ip_len : ℕ

pub parse_tcp : List ℕ → List ℕ → ℕ → Option Segment
parse_tcp ip tcp ip_hl = do
  th_off ← get_elem? tcp 12
  ip_len ← be16 ip 2
  src ← le32 ip 16
  dst ← le32 ip 12
  sp ← be16 tcp 2
  dp ← be16 tcp 0
  seq ← be32 tcp 4
  ack ← be32 tcp 8
  flags ← get_elem? tcp 13
  some (record {
    info = record {
      conn = record { src = src; dst = dst; sp = sp; dp = dp };
      seq = seq;
      ack = ack;
      flag = flags;
    };
    payload = drop (th_off / 16 * 4) tcp;
    offset = ip_hl + th_off / 16 * 4;
    ip_len = ip_len;
  })

-- `object_size` and `base_size` are `sizeof(TcpInfo)` and `sizeof(ConnInfo)`.
module _ (object_size base_size : ℕ) where
  copy_payload : Option (List ℕ) → List ℕ → ℕ → Option Raw
  copy_payload none payload payload_len = some skipped
  copy_payload (some head) payload payload_len =
      if ltb (length payload) payload_len
      then none
      else some (send_sync (head ++ take payload_len payload))

  -- For a length that is not negative.
  pub cap2uv : TcpInfo → List ℕ → ℕ → Option Raw
  unfolding copy_payload
  cap2uv info payload payload_len =
      if ltb om_max_pkt_size (payload_len + 2 * sa4_size)
      then some skipped
      else copy_payload (encode object_size base_size info om_max_pkt_size) payload payload_len

  -- A negative length is compared as a `size_t`, and so is the number of bytes to copy.
  cap2uv_negative : ℕ → Option Raw
  cap2uv_negative below = if leb below (2 * sa4_size) then none else some skipped

  deliver : Segment → Option Raw
  unfolding cap2uv_negative
  deliver s =
      if ltb s.ip_len (s.offset + (hash_buf_size + 1)) && not (has_close_flag s.info)
      then some skipped
      else if ltb s.ip_len s.offset
      then cap2uv_negative (s.offset - s.ip_len)
      else (let len = s.ip_len - s.offset in
          cap2uv (record (s.info) { seq = (s.info.seq + len) % 2 ^ 32 }) s.payload len)

  -- `has_pool` is whether there is a `TcpAckPool`.
  on_segment : Bool → Bool → Segment → Option Raw
  unfolding deliver
  on_segment is_server has_pool s =
      if not (bit_and s.info.flag th_syn == 0) && has_pool
      then some (add_info_from_peer (if is_server then TcpInfo.reverse s.info else s.info))
      else deliver s

  on_tcp : Bool → Bool → List ℕ → ℕ → Option Raw
  unfolding on_segment
  on_tcp is_server has_pool ip ip_hl = do
    s ← parse_tcp ip (drop ip_hl ip) ip_hl
    on_segment is_server has_pool s

  on_ip : Bool → Bool → List ℕ → Option Raw
  unfolding on_tcp
  on_ip is_server has_pool ip = do
    proto ← get_elem? ip 9
    vhl ← get_elem? ip 0
    if proto == ipproto_tcp then on_tcp is_server has_pool ip (vhl % 16 * 4) else some skipped

  on_link : Bool → Bool → Link → Option Raw
  unfolding on_ip
  on_link is_server has_pool (ip4 ip) = on_ip is_server has_pool ip
  on_link is_server has_pool not_ip4 = some skipped
  on_link is_server has_pool bad_link = some unsupported

  pub raw_input : Bool → Bool → ℕ → ℕ → List ℕ → Option Raw
  unfolding on_link
  raw_input is_server has_pool datalink hdr_len packet =
      if ltb hdr_len 44
      then some skipped
      else (do l ← link_layer datalink packet; on_link is_server has_pool l)

-- What `syncInput` does: it returns -1, reads past the buffer, or calls `Input`.
pub data Synced : Type 0 where
  input : TcpInfo → List ℕ → Synced
  failed : Synced
  read_past : Synced
  nothing : Synced

of_decoded : Decoded → Synced
of_decoded (decoded i p) = input i p
of_decoded null = failed
of_decoded overrun = read_past

pub sync_input : List ℕ → Synced
unfolding of_decoded
sync_input [] = nothing
sync_input (b ∷ buf) = of_decoded (decode (b ∷ buf))
