-- ===== src/Packet/RConn.antt =====
-- conn/RConn.cpp and callbacks/RConnReset.cpp: the lowest connection of all. A payload is a list,
-- whose length is `nread`; what goes to another object is returned as a value.
pub mod Laws
use rsock.Base.{
  ℕ, ◌+◌, ◌-◌, ◌≡◌, Bool, true, false, ◌||◌, Option, none, some, List, [], ◌∷◌, ◌++◌, ltb, leb,
  ◌==◌, if◌then◌else◌, length, take, drop,
}
use rsock.Wire.ConnInfo.{ConnInfo}
use rsock.Wire.TcpInfo.{TcpInfo, has_close_flag, of_conn_info, th_rst}
use rsock.Wire.EncHead.{EncHead, get_min_enc_size, get_size, enc2buf, decode_buf}
use rsock.Wire.KeyGenerator.{Info, udp, tcp, is_udp, conn_of, key_for_conn_info}
use rsock.Packet.Hash.{compute_hash, hash_equal, hash_buf_size}

abbrev pub om_max_pkt_size : ℕ
om_max_pkt_size = 1500

-- The least size of a packet.
abbrev pub min_len : ℕ
min_len = hash_buf_size + get_min_enc_size

abbrev pub contains_key : ℕ → List ℕ → Bool
contains_key k [] = false
contains_key k (j ∷ js) = j == k || contains_key k js

-- What `Output` does with a packet, and with what it returns.
pub data Sent : Type 0 where
  -- `conn->Send` on the UDP connection with this key.
  to_udp : ℕ → List ℕ → Sent
  -- `mRawTcp->Send`, with the packet's addresses.
  to_raw_tcp : Info → List ℕ → Sent
  -- Nothing is sent, and a number is returned.
  returns : ℕ → Sent
  -- Nothing is sent, and -1 is returned.
  too_large : Sent
  -- A failed assertion.
  aborted : Sent

-- `ResetSend`: its test lets UDP pass.
reset_send : Info → Sent
reset_send (udp c) = to_raw_tcp (udp c) []
reset_send (tcp i) = returns 0

-- `RConnReset::SendReset`
pub send_reset : Info → Sent
unfolding reset_send
send_reset (tcp i) = reset_send (tcp (record (of_conn_info i.conn) { flag = th_rst }))
send_reset (udp c) = returns 0

-- A packet with its addresses, to the connection that they belong to. `conns` are the keys of the
-- UDP connections; `nread` is returned where there is none.
abbrev pub dispatch : List ℕ → ℕ → Info → List ℕ → Sent
dispatch conns nread (tcp i) packet = to_raw_tcp (tcp i) packet
dispatch conns nread (udp c) packet = elim (key_for_conn_info (udp c)) [
  | none ↦ aborted
  | some key ↦ if contains_key key conns then to_udp key packet else returns nread
]

module _ (md5 : List ℕ → List ℕ) (hash_key : List ℕ) where
  -- What `Output` puts together in `base`; `none` is the assertion that the head fits.
  pub build : EncHead → List ℕ → Option (List ℕ)
  build head payload =
      let hash = compute_hash md5 hash_key payload in
      elim (enc2buf head (om_max_pkt_size - length hash)) [
        | none ↦ none
        | some (bytes, h) ↦ some (hash ++ (bytes ++ payload))
      ]

  pub output : List ℕ → Info → EncHead → List ℕ → Sent
  output conns info head [] = send_reset info
  output conns info head (d ∷ rest) =
      if ltb om_max_pkt_size (hash_buf_size + get_size head + length (d ∷ rest))
      then too_large
      else elim (build head (d ∷ rest)) [
        | none ↦ aborted
        | some packet ↦ dispatch conns (length (d ∷ rest)) info packet
      ]

-- What `OnRecv` does: it hands a payload and its head up, tells the observers of a connection that
-- was closed, or returns -1.
pub data Received : Type 0 where
  delivered : EncHead → List ℕ → Received
  closed : TcpInfo → Received
  dropped : Received

-- `EncHead head;`
abbrev pub fresh_head : EncHead
fresh_head = record {
  len = get_min_enc_size;
  cmd = 0;
  id_buf = 0 ∷ 0 ∷ 0 ∷ 0 ∷ 0 ∷ 0 ∷ 0 ∷ 0 ∷ [];
  conv = 0;
  conn_key = 0;
  reserved = 0;
}

abbrev short_packet : Info → Received
short_packet (udp c) = dropped
short_packet (tcp i) = if has_close_flag i then closed i else dropped

module _ (md5 : List ℕ → List ℕ) (hash_key : List ℕ) where
  check_hash : List ℕ → EncHead × Option (List ℕ) → Received
  check_hash hashed (head, none) = dropped
  check_hash hashed (head, some p) =
      if hash_equal md5 hashed hash_key p then delivered head p else dropped

  unfoldable pub on_recv : Info → List ℕ → Received
  unfolding check_hash
  on_recv info base =
      if ltb min_len (length base)
      then check_hash base (decode_buf fresh_head (drop hash_buf_size base))
      else short_packet info
