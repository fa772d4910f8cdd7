-- ===== src/Tests/Redial.antt =====
-- A connection that failed is dialed again (client/CConnErrHandler.cpp and conn/INetGroup.cpp).
use rsock.Base.{ℕ, ◌≡◌, refl, ◌>>=◌, some, true, false, [], ◌∷◌, arith, find, erase}
use rsock.Wire.ConnInfo.{ConnInfo}
use rsock.Conn.NetGroup.{NetConn, NetGroup, conn_err, same_key}
use rsock.Conn.NetGroup.Keyed.{put}
use rsock.Conn.NetGroup.Keys.{Holds}
use rsock.Net.Dial.{DialHelper, flush_pending, flush_one}
use rsock.Net.Redial.{Client, handle_message, flush_dials, has_request, tcp_connected}
use rsock.Net.Redial.Laws.{handle_message-tcp_connected}
use rsock.Tests.Conn.{group, both, both-Holds}

abbrev ends : ConnInfo
ends = record { src = 10; dst = 20; sp = 4000; dp = 80 }

abbrev elsewhere : ConnInfo
elsewhere = record { src = 10; dst = 30; sp = 0; dp = 80 }

abbrev lost : NetConn
lost = record {
  address = 3000;
  int_key = 7;
  is_udp = false;
  alive = false;
  is_new = false;
  established_ms = 0;
}

abbrev regained : NetConn
regained = record {
  address = 4000;
  int_key = 9;
  is_udp = false;
  alive = true;
  is_new = true;
  established_ms = 1500;
}

-- A dial that has a request, beside the one to come.
abbrev waiting : DialHelper
waiting = record { info = elsewhere; n_retry = 5; next_retry_ms = 90; duration_ms = 2000; req = 60 }

abbrev client : Client
client = record {
  err_handler = some (record { closing = false });
  objects = (3000, record { is_udp = false; info = ends }) ∷ [];
  pending = waiting ∷ [];
  group = group;
}

abbrev request : ConnInfo → ℕ
request info = 61

abbrev works : NetConn → ℕ
works c = 0

find-lost : find same_key 3000 client.objects ≡ some (3000, record { is_udp = false; info = ends })
unfolding find
find-lost = refl

has_request-waiting : has_request 61 (flush_pending request true 2000 (waiting ∷ [])).0 ≡ false
unfolding flush_pending flush_one
has_request-waiting = refl

handle_message-tcp_connected_example :
    (g : NetGroup) × ((do
      closed ← handle_message client (conn_err group lost) 1000
      tcp_connected works 61 0 (some regained) 2100 (flush_dials request true 2000 closed))
      ≡ some (record client {
        objects = erase same_key 3000 client.objects;
        pending = (flush_pending request true 2000 (waiting ∷ [])).0;
        group = g;
      }))
    × Holds (put regained both) g
handle_message-tcp_connected_example =
    handle_message-tcp_connected works request both client (conn_err group lost)
      (3000, record { is_udp = false; info = ends }) regained 1000 2000 2100 refl find-lost refl
      refl (omega arith) (omega arith) has_request-waiting refl both-Holds

abbrev running : DialHelper
running = record waiting { info = ends; req = 61 }
