-- ===== src/Tests/Packet.antt =====
-- A packet on its way (conn/RConn.cpp), with a stand-in for the digest.
use rsock.Base.{
  ℕ, ◌%◌, ◌≡◌, refl, List, [], ◌∷◌, ◌++◌, arith, length, length-replicate, replicate, take, drop,
  of_le_bytes, bytes_eq,
}
use rsock.Wire.EncHead.{EncHead, IsValid, decode_buf, decode_fields, decode_len}
use rsock.Wire.Enc.{decode_uint8, decode_uint32, decode_uint64, decode_uint, load}
use rsock.Wire.KeyGenerator.{Info, tcp, udp, key_for_udp, key_for_ports}
use rsock.Packet.Hash.{hash_buf_size, hash_equal}
use rsock.Wire.TcpInfo.{TcpInfo}
use rsock.Wire.TcpInfo.Laws.{Fits}
use rsock.Packet.RConn.{delivered, output, on_recv, fresh_head}
use rsock.Packet.RConn.Laws.{HasRoute, IsSent, on_recv-output, on_recv_sound}

-- 16 bytes.
abbrev pub toy_md5 : List ℕ → List ℕ
toy_md5 m = replicate 16 (length m % 256)

pub toy_digest : (m : List ℕ) → length (toy_md5 m) ≡ 16
toy_digest m = length-replicate 16 (length m % 256)

abbrev pub hash_key : List ℕ
hash_key = 114 ∷ 115 ∷ []

abbrev web : Info
web = tcp (record {
  conn = record { src = 10; dst = 20; sp = 5000; dp = 80 };
  seq = 7;
  ack = 8;
  flag = 16;
})

abbrev pub head : EncHead
head = record {
  len = 0;
  cmd = 3;
  id_buf = 1 ∷ 2 ∷ 3 ∷ 4 ∷ 5 ∷ 6 ∷ 7 ∷ 8 ∷ [];
  conv = 99;
  conn_key = 1234567;
  reserved = 0;
}

pub head-IsValid : IsValid head
head-IsValid = record {
  cmd_fits = omega arith;
  id_fits = refl;
  conv_fits = omega arith;
  key_fits = omega arith;
  reserved_fits = omega arith;
}

abbrev over_udp : Info
over_udp = udp (record { src = 10; dst = 20; sp = 40001; dp = 10001 })

over_udp-HasRoute : HasRoute (655465537 ∷ []) over_udp
unfolding key_for_udp key_for_ports
over_udp-HasRoute = (655465537, refl, refl)

on_recv-output_example :
    (packet : List ℕ) × IsSent over_udp packet
      (output toy_md5 hash_key (655465537 ∷ []) over_udp head (65 ∷ 66 ∷ []))
    × (length packet ≡ 33)
    × (on_recv toy_md5 hash_key web packet ≡ delivered (record head { len = 23 }) (65 ∷ 66 ∷ []))
on_recv-output_example =
    on_recv-output toy_md5 toy_digest hash_key (655465537 ∷ []) over_udp web head 65 (66 ∷ [])
      over_udp-HasRoute head-IsValid (omega arith)

-- 8 bytes of the hash, 23 of the head and one of the payload.
abbrev packet : List ℕ
packet =
    replicate 8 3 ++ (23 ∷ 0 ∷ replicate 8 0 ++ (replicate 4 0 ++ (replicate 8 0 ++ (0 ∷ 65 ∷ []))))

packet-delivered : on_recv toy_md5 hash_key web packet ≡ delivered fresh_head (65 ∷ [])
unfolding on_recv decode_buf decode_fields decode_uint8 decode_uint32 decode_uint64 decode_uint load
    of_le_bytes hash_equal bytes_eq decode_len
packet-delivered = refl

on_recv_sound_example :
    (d : ℕ) × (p : List ℕ) × (65 ∷ [] ≡ d ∷ p)
    × (take hash_buf_size packet ≡ drop 8 (toy_md5 (hash_key ++ (d ∷ []))))
on_recv_sound_example = on_recv_sound toy_md5 hash_key web packet packet-delivered

-- A segment from 1:3 to 2:4 with 25 bytes, in a frame that a capture finds.
abbrev pub segment : TcpInfo
segment = record {
  conn = record { src = 1; dst = 2; sp = 3; dp = 4 };
  seq = 4294967290;
  ack = 7;
  flag = 24;
}

pub segment-Fits : Fits segment
segment-Fits = record {
  conn_fits = record {
    src_fits = omega arith;
    dst_fits = omega arith;
    sp_fits = omega arith;
    dp_fits = omega arith;
  };
  seq_fits = omega arith;
  ack_fits = omega arith;
  flag_fits = omega arith;
}

abbrev bytes_25 : List ℕ
bytes_25 = replicate 25 66
