-- ===== src/Tests/Udp.antt =====
-- UDP between a client and a server (conn/BtmUdpConn.cpp and conn/RConn.cpp).
use rsock.Base.{ℕ, ◌≡◌, refl, true, none, some, List, [], ◌∷◌, find, arith, insert_new, ◌==◌}
use rsock.Wire.ConnInfo.{ConnInfo, reverse}
use rsock.Wire.KeyGenerator.{udp, key_for_ports, key_for_udp}
use rsock.Packet.RConn.{to_udp, delivered, on_recv}
use rsock.Packet.RConn
use rsock.Packet.Udp.{
  Sock, bound, BtmUdpConn, no_info, keys_of, client_udp_conns, server_udp_conns, Datagram, send_udp,
}
use rsock.Packet.Udp.Laws.{on_recv-send_udp, server_udp_conns_lem}
use rsock.Tests.Packet.{toy_md5, toy_digest, hash_key, head, head-IsValid}

-- Every socket can be bound, to the address 10 and the port 40001 or the one that it asks for.
abbrev sock : ConnInfo → Sock
sock i = bound (some (10, 40001)) true

-- 0x20000000 or'ed with 10001 * 2 ^ 16 and 40001.
abbrev pub key : ℕ
key = 655465537

abbrev pub to_server : BtmUdpConn
to_server = record {
  key = key;
  info = record { src = 10; dst = 20; sp = 40001; dp = 10001 };
  src_info = record no_info { dst = 10; dp = 40001 };
}

abbrev conns : List (ℕ × BtmUdpConn)
conns = (key, to_server) ∷ []

conns-made : client_udp_conns sock 10 20 (10001 ∷ []) ≡ some conns
unfolding client_udp_conns key_for_ports key_for_udp insert_new
conns-made = refl

conns-found : find (λ j k. j == k) key conns ≡ some (key, to_server)
unfolding find
conns-found = refl

on_recv-send_udp_example :
    (packet : List ℕ) × (sent : Datagram) × (RConn.output toy_md5 hash_key
        (keys_of conns)
        (udp to_server.info)
        head
        (65 ∷ 66 ∷ [])
      ≡ to_udp key packet)
    × (send_udp conns key to_server.info packet ≡ some sent)
    × (sent ≡ record { src = 10; sp = 40001; dst = 20; dp = 10001; data_ = packet })
    × (on_recv toy_md5 hash_key (udp (reverse to_server.info)) packet
        ≡ delivered (record head { len = 23 }) (65 ∷ 66 ∷ []))
on_recv-send_udp_example =
    on_recv-send_udp toy_md5 toy_digest hash_key sock (λ i. refl) 10 20 10001 [] conns key
      (key, to_server) (udp (reverse to_server.info)) head 65 (66 ∷ []) refl conns-made conns-found
      head-IsValid (omega arith)

server_udp_conns_lem_example : server_udp_conns sock 10 (10001 ∷ 10002 ∷ []) ≡ none
server_udp_conns_lem_example = server_udp_conns_lem sock 10 10001 (10002 ∷ [])
