-- ===== src/Tests/App.antt =====
-- A client with one local address, and its group at the server (client/ClientGroup.cpp,
-- server/SubGroup.cpp, callbacks/ConnReset.cpp, conn/IAppGroup.cpp, server/ServerGroup.cpp).
use rsock.Base.{
  ◌>>=◌, ℕ, ◌≡◌, refl, ◌∙◌, none, some, true, false, Option, List, [], ◌∷◌, arith, length, le_bytes,
  bytes_eq, bytes_eq_refl, find, to_string,
}
use rsock.Wire.EncHead.{EncHead, type_data, type_conv_rst, type_netconn_rst, type_keep_alive_req}
use rsock.Wire.KeyGenerator.{Info, udp, encode_key, str_for_int_key}
use rsock.Packet.RConn.{fresh_head}
use rsock.Net.ConnPool.{ServerNetManager}
use rsock.Conn.NetGroup.{NetConn, NetGroup}
use rsock.Conn.NetGroup.Keys.{Holds}
use rsock.Conn.NetGroup.Keyed.{of_key, is_some}
use rsock.Conn.KeepAlive.Laws.{after_err}
use rsock.App.Index.{without}
use rsock.App.Head.{send_conv_rst}
use rsock.App.ConvKey.{build_conv_key}
use rsock.App.Client.{
  SockAddr, in4, build_key, CConn, ClientGroup, conn_of_key, on_local_recv, on_recv, to_origin,
  close_conn, to_peer,
}
use rsock.App.Client.Table
use rsock.App.Client.Table.{key_of}
use rsock.App.Client.Laws.{on_recv-on_local_recv}
use rsock.App.Client.Lookup.{conns_for}
use rsock.App.Client.Close.{on_recv-close_conn}
use rsock.App.Server.{SConn, SubGroup, conn_for}
use rsock.App.Server
use rsock.App.Server.Laws.{AreServed}
use rsock.App.Reset.{input}
use rsock.App.Reset.Laws.{input-send_conv_rst, input-encode_key_rst}
use rsock.App.Reset.Client.{server}
use rsock.App.Input.{AppGroup}
use rsock.App.Input
use rsock.App.Sides.{server_ops}
use rsock.App.ServerGroup.{new_sub, Sub, SubOutcome, ServerGroup, passed_on}
use rsock.App.ServerGroup
use rsock.App.ServerGroup.Laws.{sub_for, PassedOn, on_recv_lem}
use rsock.Conn.Stat.{flush}
use rsock.Conn.NetGroup.Send.{Ready}
use rsock.Conn.NetGroup.Flush.{AllAlive}
use rsock.App.Client.Flush.{Stats, flush_conns, flush_app}
use rsock.App.Client.Flush.Laws.{kept, flush_app_lem, flush_conns_idle}
use rsock.Tests.Conn.{group, both, both-Holds, group-Ready, handler}

-- 127.0.0.1:5000 and 127.0.0.1:5001.
abbrev local : SockAddr
local = in4 16777343 5000

abbrev second : SockAddr
second = in4 16777343 5001

abbrev web : CConn
web = record { key = build_key local; addr = local; conv = 2 }

abbrev convs : List CConn
convs = web ∷ []

abbrev sock : ClientGroup
sock = record {
  key = [];
  conns = (build_key local, web) ∷ [];
  conv_map = (2, web) ∷ [];
  conv_counter = 2;
  head = fresh_head;
}

sock-Holds : Table.Holds convs sock
sock-Holds = record {
  conns_eq = refl;
  conv_map_eq = refl;
  listed = ((omega arith, omega arith), refl, refl, refl, omega arith, tt);
  is_data = refl;
}

abbrev answer_head : EncHead
answer_head = record fresh_head { conv = (on_local_recv sock (1 ∷ 2 ∷ []) second).1.0.conv }

on_recv-on_local_recv_example :
    Table.Holds
      (conns_for convs sock (in4 16777343 5001))
      (on_local_recv sock (1 ∷ 2 ∷ []) (in4 16777343 5001)).0
    × ((on_local_recv sock (1 ∷ 2 ∷ []) (in4 16777343 5001)).1.1 ≡ 1 ∷ 2 ∷ [])
    × ((on_local_recv sock (1 ∷ 2 ∷ []) (in4 16777343 5001)).1.0.cmd ≡ type_data)
    × (on_recv (on_local_recv sock (1 ∷ 2 ∷ []) (in4 16777343 5001)).0 answer_head (7 ∷ 8 ∷ [])
        ≡ some (
          (on_local_recv sock (1 ∷ 2 ∷ []) (in4 16777343 5001)).0,
          to_origin (in4 16777343 5001) (7 ∷ 8 ∷ []),
        ))
on_recv-on_local_recv_example =
    on_recv-on_local_recv convs sock 16777343 5001 (1 ∷ 2 ∷ []) answer_head 7 (8 ∷ []) sock-Holds
      (omega arith) (omega arith) (omega arith) refl

conn_of_key-local : conn_of_key sock (build_key local) ≡ some web
conn_of_key-local =
    Table.conn_of_key_lem convs sock (build_key local) sock-Holds
    ∙ ground (arith, bytes_eq_refl (build_key local))

not_own_key : bytes_eq (build_key local) [] ≡ false
unfolding build_key bytes_eq to_string
not_own_key = refl

on_recv-close_conn_example :
    (g' : ClientGroup) × (close_conn sock web ≡ some g')
    × Table.Holds (without bytes_eq key_of (build_key local) convs) g'
    × (conn_of_key g' (build_key local) ≡ none)
    × (on_recv g' (record fresh_head { conv = 2 }) (1 ∷ [])
        ≡ some (
          record g' { head = record (g'.head) { cmd = type_data } },
          to_peer (record (g'.head) { cmd = type_conv_rst }, le_bytes 4 2),
        ))
on_recv-close_conn_example =
    on_recv-close_conn convs sock (build_key local) web (record fresh_head { conv = 2 }) 1 []
      sock-Holds conn_of_key-local not_own_key refl

-- It had data both ways.
abbrev busy : Stats
busy c = record { prev_in = 0; curr_in = 1; prev_out = 0; curr_out = 2; alive = true }

flush_app_lem_example :
    (g' : ClientGroup) × (net' : NetGroup) × (conns' : List NetConn) × (flush_app busy sock group
        400
      ≡ some (g', (λ c. flush (busy c), net')))
    × Table.Holds (kept busy convs) g'
    × Ready conns' net'
    × AllAlive conns'
flush_app_lem_example =
    flush_app_lem busy convs sock both group 400 sock-Holds (not_own_key, tt) group-Ready

flush_conns_idle_example :
    (g' : ClientGroup) × (stats' : Stats) × ((do
      (g1, s1) ← flush_conns busy sock
      (g2, s2) ← flush_conns s1 g1
      flush_conns s2 g2)
      ≡ some (g', stats'))
    × Table.Holds [] g'
flush_conns_idle_example = flush_conns_idle busy convs sock sock-Holds (not_own_key, tt)

-- The client's group at the server, with the conversation 2 of the peer 16777343.
abbrev served : SConn
served = record { key = build_conv_key 16777343 2; conv = 2 }

abbrev sub : SubGroup
sub = record { key = []; conns = (served.key, served) ∷ []; head = fresh_head }

sub-AreServed : AreServed sub.conns
sub-AreServed = (record { dst = 16777343; dst_fits = omega arith; key_eq = refl }, refl, tt)

abbrev question : EncHead
question = record fresh_head { conv = (on_local_recv sock (1 ∷ []) local).1.0.conv }

abbrev next_question : EncHead
next_question = record fresh_head {
  conv = (on_local_recv (on_local_recv sock (1 ∷ []) local).0 (3 ∷ []) local).1.0.conv;
}

served-found : Server.conn_of_key sub (build_conv_key 16777343 2) ≡ some served
unfolding Server.conn_of_key build_conv_key find bytes_eq to_string
served-found = refl

not_sub_key : bytes_eq (build_conv_key 16777343 2) [] ≡ false
unfolding build_conv_key bytes_eq
not_sub_key = refl

input-send_conv_rst_example :
    (g' : SubGroup) × (input server sub group 16777343
        (send_conv_rst fresh_head 2).1.0.cmd
        (length (send_conv_rst fresh_head 2).1.1)
        (send_conv_rst fresh_head 2).1.1
      ≡ some ((g', group), true))
    × (Server.conn_of_key g' (build_conv_key 16777343 2) ≡ none)
    × AreServed g'.conns
input-send_conv_rst_example =
    input-send_conv_rst server sub group fresh_head 16777343 2 served (omega arith) sub-AreServed
      served-found not_sub_key

input-encode_key_rst_example :
    (net' : NetGroup) × (input server sub group 16777343 type_netconn_rst 8 (encode_key 6)
      ≡ some ((sub, net'), is_some (of_key 6 both)))
    × Holds (after_err 6 both) net'
input-encode_key_rst_example =
    input-encode_key_rst server both sub group 16777343 6 both-Holds (omega arith)

-- Data for the connection 9, which the group does not have, and the client does not make.
abbrev app : AppGroup ClientGroup (Unit {0})
app = record { group = sock; net = group; manager = tt; reqs = [] }

abbrev peer : Info
peer = udp (record { src = 16777343; dst = 33554559; sp = 40; dp = 50 })

abbrev unknown : EncHead
unknown = record fresh_head { conn_key = 9; conv = 2 }

-- The server has it, over TCP, and another one over UDP.
abbrev nine : NetConn
nine = record {
  address = 3000;
  int_key = 9;
  is_udp = false;
  alive = true;
  is_new = false;
  established_ms = 0;
}

abbrev ten : NetConn
ten = record nine { address = 3008; int_key = 10; is_udp = true }

abbrev serving : NetGroup
serving = record group {
  conns = (str_for_int_key 9, nine) ∷ (str_for_int_key 10, ten) ∷ [];
  conn_map = (9, nine) ∷ (10, ten) ∷ [];
}

abbrev other_side : AppGroup SubGroup (Unit {0})
other_side = record { group = sub; net = serving; manager = tt; reqs = [] }

-- A new client of the server, with a group id of 8 bytes, sends a keep-alive request.
abbrev managed : ServerNetManager
managed = record { pool = []; ack_pool = []; closed = [] }

abbrev bridge : ServerGroup
bridge = record { key = []; subs = []; manager = managed }

abbrev id : List ℕ
id = 1 ∷ 2 ∷ 3 ∷ 4 ∷ 5 ∷ 6 ∷ 7 ∷ 8 ∷ []

abbrev request : EncHead
request = record fresh_head { cmd = type_keep_alive_req; id_buf = id }

abbrev made : Option (ServerNetManager × Option NetConn)
made = some (managed, none)

abbrev new_client : Sub
new_client = record {
  group = record { key = id; conns = []; head = record fresh_head { id_buf = id } };
  net = record { conns = []; conn_map = []; handler = handler; stat = group.stat };
  manager = managed;
  reqs = [];
}

abbrev outcome : SubOutcome
outcome =
    Input.input_keep_alive server_ops (λ m key info. made) new_client request
      (6 ∷ 0 ∷ 0 ∷ 0 ∷ 0 ∷ 0 ∷ 0 ∷ 0 ∷ [])

new_client-sub_for : sub_for bridge handler id ≡ some new_client
unfolding sub_for find new_sub
new_client-sub_for = refl

new_client-input :
    Input.input server_ops
      (λ m key info. made)
      new_client
      peer
      request
      (6 ∷ 0 ∷ 0 ∷ 0 ∷ 0 ∷ 0 ∷ 0 ∷ 0 ∷ [])
    ≡ some outcome
unfolding Input.input
new_client-input = refl

other_id : bytes_eq (9 ∷ []) id ≡ false
unfolding bytes_eq
other_id = refl

on_recv_lem_example :
    (g' : ServerGroup) × (ServerGroup.on_recv
        (λ m key info. made)
        bridge
        handler
        0
        peer
        request
        (6 ∷ 0 ∷ 0 ∷ 0 ∷ 0 ∷ 0 ∷ 0 ∷ 0 ∷ [])
      ≡ some (g', passed_on outcome))
    × PassedOn bridge g' id (9 ∷ []) outcome
on_recv_lem_example =
    on_recv_lem (λ m key info. made) bridge handler peer request 6 (0 ∷ 0 ∷ 0 ∷ 0 ∷ 0 ∷ 0 ∷ 0 ∷ [])
      new_client outcome (9 ∷ []) new_client-sub_for new_client-input other_id
