-- ===== src/Tests/Conn.antt =====
-- A group of two connections (conn/INetGroup.cpp), one of them dead, and its keep-alive.
use rsock.Base.{
  ℕ, ◌+◌, ◌^◌, ◌<◌, ◌≡◌, ◌↔◌, refl, Option, none, some, true, false, List, [], ◌∷◌, arith,
  replicate, length, contains, find,
}
use rsock.Runtime.Handler.{Handler}
use rsock.Conn.NetGroup.{NetConn, NetGroup, Sent, undecided, do_send, flush_group}
use rsock.Conn.NetGroup.Keys.{Holds}
use rsock.Conn.NetGroup.Send.{Ready, SentWell, is_decided, do_send_lem, do_send_ends}
use rsock.Conn.NetGroup.Spin.{do_send_spins}
use rsock.Conn.NetGroup.Flush.{live_of, flush_group_lem}
use rsock.Wire.TcpInfo.{TcpInfo}
use rsock.Wire.KeyGenerator.{Info, udp, str_for_int_key}
use rsock.Packet.RawTcp.Laws.{received}
use rsock.Conn.FakeTcp.{head_size, output, on_recv}
use rsock.Conn.FakeTcp.Laws.{exchange, total, on_recv-output_iff, exchange_lem}
use rsock.Conn.KeepAlive.{ReqMap, can_send_request, on_flush}
use rsock.Conn.KeepAlive.Counts.{IsDue, counts-on_flush}
use rsock.Conn.KeepAlive.Requests.{counts, up}
use rsock.Conn.KeepAlive.Timeouts.{below}

abbrev old : NetConn
old = record {
  address = 1000;
  int_key = 5;
  is_udp = false;
  alive = false;
  is_new = false;
  established_ms = 0;
}

abbrev live : NetConn
live = record {
  address = 2000;
  int_key = 6;
  is_udp = false;
  alive = true;
  is_new = false;
  established_ms = 100;
}

abbrev pub handler : Handler
handler = record {
  self = 1;
  tasks = [];
  messages = [];
  has_callback = true;
  next_timeout_ms = 0;
  timer = none;
}

abbrev pub group : NetGroup
group = record {
  conns = (str_for_int_key 5, old) ∷ (str_for_int_key 6, live) ∷ [];
  conn_map = (5, old) ∷ (6, live) ∷ [];
  handler = handler;
  stat = record { prev_in = 0; curr_in = 0; prev_out = 0; curr_out = 0; alive = true };
}

abbrev pub both : List NetConn
both = old ∷ live ∷ []

pub both-Holds : Holds both group
both-Holds = record { by_string = refl; by_number = refl }

pub group-Ready : Ready both group
group-Ready = record { holds = both-Holds; callback = refl }

abbrev written : NetConn → ℕ
written c = 50

do_send_lem_example :
    (g' : NetGroup) × (o : Sent) × (cs' : List NetConn) × (do_send written (0 ∷ 7 ∷ []) group 9 400
      ≡ some (g', o))
    × Ready cs' g'
    × SentWell 9 g' o
do_send_lem_example = do_send_lem written (0 ∷ 7 ∷ []) both group 9 400 group-Ready

do_send_ends_example :
    (g' : NetGroup) × (o : Sent) × (do_send written (0 ∷ 7 ∷ []) group 0 400 ≡ some (g', o))
    × SentWell 0 g' o
    × (is_decided o ≡ true)
do_send_ends_example = do_send_ends written (0 ∷ 7 ∷ []) both group 400 group-Ready (omega arith)

-- The group when only the live connection is left.
abbrev lone : NetGroup
lone = record group { conns = (str_for_int_key 6, live) ∷ []; conn_map = (6, live) ∷ [] }

do_send_spins_example : do_send written (3 ∷ 1 ∷ 4 ∷ []) lone 6 400 ≡ some (lone, undecided)
do_send_spins_example = do_send_spins written (3 ∷ 1 ∷ 4 ∷ []) lone live 400 refl refl (omega arith)

abbrev third : NetConn
third = record {
  address = 3000;
  int_key = 7;
  is_udp = false;
  alive = true;
  is_new = true;
  established_ms = 300;
}

abbrev twice : ReqMap
twice = (6, 2) ∷ []

live-IsDue : IsDue 6 twice group 20000
unfolding contains find can_send_request
live-IsDue = record {
  pre = (str_for_int_key 5, old) ∷ [];
  post = [];
  entry = (str_for_int_key 6, live);
  conns = refl;
  key = refl;
  before = ground arith;
  after = tt;
  has = refl;
  can = refl;
  one = refl;
}

counts-on_flush_example : counts 6 (on_flush true twice group 20000).0 ≡ below (up (counts 6 twice))
counts-on_flush_example = counts-on_flush 6 twice group 20000 live-IsDue

flush_group_lem_example :
    (g' : NetGroup) × (flush_group group 400 ≡ some g') × Ready (live_of both) g'
flush_group_lem_example = flush_group_lem both group 400 group-Ready (refl, (refl, tt))

-- A packet for the connection 8, which is made for it.
abbrev maker : ℕ → ℕ → Info → Option (ℕ × Option NetConn)
maker m key info = some (m, some (record third { int_key = key }))

abbrev sent_to : Info
sent_to = udp (record { src = 1; dst = 2; sp = 3; dp = 4 })

-- A connection whose number is about to wrap, and its peer.
abbrev sender : TcpInfo
sender = record {
  conn = record { src = 1; dst = 2; sp = 3; dp = 4 };
  seq = 4294967290;
  ack = 7;
  flag = 16;
}

abbrev receiver : TcpInfo
receiver = record sender { ack = 4294967290 }

-- A payload of 2 bytes with its head.
abbrev segment : List ℕ
segment = replicate (head_size + 2) 0

on_recv-output_iff_example :
    ((on_recv receiver (received sender segment).seq true).ack ≡ (output sender 2 true).seq)
    ↔ (4294967290 + length segment < 2 ^ 32)
on_recv-output_iff_example =
    on_recv-output_iff sender receiver (0 ∷ 0 ∷ []) segment (omega arith) refl refl (omega arith)

abbrev packets : List (List ℕ)
packets = (1 ∷ 2 ∷ 3 ∷ []) ∷ (4 ∷ []) ∷ []

abbrev early : TcpInfo
early = record sender { seq = 100 }

abbrev behind : TcpInfo
behind = record sender { ack = 90 }

exchange_lem_example :
    ((exchange early behind packets).0.seq ≡ 100 + total packets)
    × ((exchange early behind packets).1.ack ≡ 100 + total packets)
exchange_lem_example =
    exchange_lem early behind (1 ∷ 2 ∷ 3 ∷ []) ((4 ∷ []) ∷ []) (omega arith) (omega arith)
