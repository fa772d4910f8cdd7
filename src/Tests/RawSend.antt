-- ===== src/Tests/RawSend.antt =====
-- Packets through a stand-in for libnet (conn/RawTcp.cpp).

use rsock.Base.{
  ℕ, ◌≡◌, ◌⊎◌, refl, true, false, Option, none, some, List, [], ◌∷◌, arith, map, ◌==◌,
  if◌then◌else◌, length,
}
use rsock.Wire.KeyGenerator.{tcp}
use rsock.Packet.RConn.{to_raw_tcp}
use rsock.Packet.RConn
use rsock.Packet.RawSend.{
  TcpArgs, IpArgs, Tag, Libnet, RawTcp, Event, wrote, failed, is_failed, output, new_raw_tcp,
  packet, connected, disconnected, run, step, init, output_over, send_raw_tcp, with_tcp, with_ip,
  written, on_net_connected, on_net_disconnected, disconnect,
}
use rsock.Packet.RawSend.Documented.{valid, layout, IsDocumented}
use rsock.Packet.RawSend.State.{all_failed, outputs, outputs-build_tcp}
use rsock.Packet.RawSend.Tcp.{Arrives, on_recv-send_tcp}
use rsock.Tests.Packet.{toy_md5, toy_digest, hash_key, head, head-IsValid, segment, segment-Fits}

-- The headers, with the tags 1 and 2. There is no header for an empty payload.
abbrev Handle : Type 0
Handle = Option (ℕ × (TcpArgs × List ℕ)) × Option (ℕ × IpArgs)

abbrev build_tcp : TcpArgs → List ℕ → Tag → Handle → Handle × Tag
build_tcp a [] tag (x, y) = ((x, y), none)
build_tcp a (d ∷ p) tag (x, y) =
    if valid tag x then ((some (1, (a, d ∷ p)), y), some 1) else ((x, y), none)

abbrev build_ipv4 : IpArgs → Tag → Handle → Handle × Tag
build_ipv4 b tag (x, y) = if valid tag y then ((x, some (2, b)), some 2) else ((x, y), none)

abbrev write : Handle → Handle × Option (List ℕ)
write (some (t, (a, p)), some (u, b)) =
    ((some (t, (a, p)), some (u, b)), some (layout (λ k. k) a p b))
write (x, none) = ((x, none), none)
write (none, some q) = ((none, some q), none)

abbrev toy : Libnet
toy = record { Context = Handle; build_tcp = build_tcp; build_ipv4 = build_ipv4; write = write }

tcp_built :
    (a : TcpArgs) (p : List ℕ) (tag : Tag) (c c' : Handle) (t : ℕ)
    → valid tag c.0 ≡ true
    → build_tcp a p tag c ≡ (c', some t)
    → (c'.0 ≡ some (t, (a, p))) × ((t == 0) ≡ false) × (c'.1 ≡ c.1)
tcp_built a [] tag (x, y) c' t v e = absurd cc
tcp_built a (d ∷ p) tag (x, y) c' t v e = ground (arith, v, e)

ip_built :
    (b : IpArgs) (tag : Tag) (c c' : Handle) (t : ℕ)
    → valid tag c.1 ≡ true
    → build_ipv4 b tag c ≡ (c', some t)
    → (c'.1 ≡ some (t, b)) × ((t == 0) ≡ false) × (c'.0 ≡ c.0)
ip_built b tag (x, y) c' t v e = ground (arith, v, e)

tcp_unknown : (a : TcpArgs) (p : List ℕ) (c : Handle) → (build_tcp a p none c).1 ≡ none
tcp_unknown a [] (x, y) = refl
tcp_unknown a (d ∷ p) (x, y) = refl

write_keeps : (c : Handle) → ((write c).0.0 ≡ c.0) × ((write c).0.1 ≡ c.1)
write_keeps (some (t, (a, p)), some (u, b)) = (refl, refl)
write_keeps (none, some q) = (refl, refl)
write_keeps (x, none) = (refl, refl)

write_layout :
    (c : Handle) (t u : ℕ) (a : TcpArgs) (p : List ℕ) (b : IpArgs) (bytes : List ℕ)
    → c.0 ≡ some (t, (a, p))
    → c.1 ≡ some (u, b)
    → (write c).1 ≡ some bytes
    → bytes ≡ layout (λ k. k) a p b
write_layout (some (t', (a', p')), some (u', b')) t u a p b bytes e f g = cc
write_layout (x, none) t u a p b bytes e f g = absurd cc
write_layout (none, some q) t u a p b bytes e f g = absurd cc

abbrev toy_doc : IsDocumented toy
toy_doc = record {
  tcp_of = λ c. c.0;
  ip_of = λ c. c.1;
  tcp_built = tcp_built;
  ip_built = ip_built;
  tcp_unknown = tcp_unknown;
  ip_unknown = λ b c. refl;
  write_keeps = write_keeps;
  write_layout = λ c t u a p b bytes e f prot g. (λ k. k, write_layout c t u a p b bytes e f g);
}

abbrev fresh : Handle
fresh = (none, none)

-- A packet, and another network.
abbrev events : List (Event toy)
events =
    packet segment (65 ∷ [])
    ∷ disconnected
    ∷ connected (some fresh) 1
    ∷ packet segment (66 ∷ [])
    ∷ []

abbrev start : RawTcp toy
start = (init toy (some fresh) 1 true (new_raw_tcp toy)).0

-- The packets leave.
all_sent :
    map is_failed
      (outputs toy (run toy start events) ((segment, 65 ∷ []) ∷ (segment, 66 ∷ []) ∷ []))
    ≡ false ∷ false ∷ []
unfolding run step init output output_over send_raw_tcp with_tcp with_ip written on_net_connected
    on_net_disconnected disconnect
all_sent = refl

on_recv-send_tcp_example :
    (bytes_out : List ℕ) × (RConn.output toy_md5 hash_key [] (tcp segment) head (65 ∷ 66 ∷ [])
      ≡ to_raw_tcp (tcp segment) bytes_out)
    × (((output toy (run toy start events) segment bytes_out).1 ≡ failed)
        ⊎ ((bytes : List ℕ) × ((output toy (run toy start events) segment bytes_out).1
              ≡ wrote bytes (length bytes_out))
            × Arrives toy toy_doc toy_md5 toy_digest hash_key 40 32 true true head segment
                (65 ∷ 66 ∷ [])
                bytes_out
                (λ k. k)
                bytes))
on_recv-send_tcp_example =
    on_recv-send_tcp toy toy_doc toy_md5 toy_digest hash_key 40 32 true true fresh 1 true events []
      segment head 65 (66 ∷ []) (λ k. k) (refl, refl) (tt, (tt, ((refl, refl), (tt, tt))))
      segment-Fits refl (omega arith) (omega arith) head-IsValid (omega arith)

outputs-build_tcp_example :
    all_failed (outputs toy start ((segment, []) ∷ (segment, 65 ∷ []) ∷ [])) ≡ true
unfolding init
outputs-build_tcp_example =
    outputs-build_tcp toy toy_doc start fresh segment [] ((segment, 65 ∷ []) ∷ []) refl refl
