-- ===== src/Tests/Net.antt =====
-- An accepted connection and its captured handshake (server/, net/), and dials (client/).
use Prim.Native.Nat.{bit_and}
use rsock.Base.{
  ℕ, Option, erase, ◌≡◌, ◌≢◌, refl, none, some, Bool, true, List, [], ◌∷◌, arith, find,
}
use rsock.Wire.ConnInfo.{ConnInfo}
use rsock.Wire.TcpInfo.{TcpInfo, equals, th_syn}
use rsock.Net.AckPool.{
  InfoPool, add_info_from_peer, wait2_transfer_info, get_info_if_exists, remove_info,
}
use rsock.Net.AckPool.Laws.{with_numbers, stored_key, wait2_transfer_info-add_info_from_peer}
use rsock.Net.ConnPool.{ConnHelper, ServerNetManager}
use rsock.Net.Create.{Dialer, NewTcp, dial_tcp_sync}
use rsock.Net.Create.Laws.{Dialed, dial_tcp_sync_lem}
use rsock.Wire.KeyGenerator.{key_for_tcp, key_for_ports}
use rsock.Net.Dial.{DialHelper, flush_pending}
use rsock.Net.Dial.Laws.{AllBackoff, AllLeft, AllTried, flush_pending-AllTried}

abbrev ends : ConnInfo
ends = record { src = 10; dst = 20; sp = 80; dp = 5000 }

abbrev asked : TcpInfo
asked = record { conn = ends; seq = 0; ack = 0; flag = 16 }

abbrev captured : TcpInfo
captured = record { conn = ends; seq = 7; ack = 8; flag = 18 }

captured-syn : bit_and 2 th_syn ≢ 0
captured-syn = omega arith

asked-captured : equals asked captured ≡ true
unfolding equals
asked-captured = refl

wait2_transfer_info-add_info_from_peer_example :
    (rest : InfoPool) × (wait2_transfer_info (add_info_from_peer 5000 [] captured 2 100).0 [] asked
      ≡ (rest, some (with_numbers asked (stored_key [] captured))))
    × (find equals asked rest ≡ none)
wait2_transfer_info-add_info_from_peer_example =
    wait2_transfer_info-add_info_from_peer 5000 100 2 [] captured asked [] (omega arith)
      (omega arith) captured-syn asked-captured

abbrev entry : TcpInfo × ℕ
entry = (captured, 5100)

-- `GetTcpInfo` of the connection at address 77.
abbrev accepted : ℕ → TcpInfo × Bool
accepted tcp = (asked, true)

abbrev fresh : ServerNetManager
fresh = record { pool = []; ack_pool = []; closed = [] }

abbrev held_77 : TcpInfo × ConnHelper
held_77 = (asked, record { conn = 77; expire_ms = 3090 })

abbrev full : ServerNetManager
full = record { pool = held_77 ∷ []; ack_pool = []; closed = [] }

find-held_77 : find equals asked (full.pool) ≡ some held_77
unfolding find equals
find-held_77 = refl

abbrev dials : List DialHelper
dials =
    record { info = ends; n_retry = 5; next_retry_ms = 90; duration_ms = 32000; req = 0 }
    ∷ record { info = ends; n_retry = 4; next_retry_ms = 90; duration_ms = 2000; req = 9 }
    ∷ []

dials-AllBackoff : AllBackoff dials
dials-AllBackoff = ground arith

dials-AllLeft : AllLeft dials
dials-AllLeft = ground arith

-- `uv_tcp_connect` fails.
abbrev refused : ConnInfo → ℕ
refused info = 0

flush_pending-AllTried_example :
    AllTried refused 100 dials (flush_pending refused true 100 dials).0
    × ((flush_pending refused true 100 dials).1 ≡ [])
flush_pending-AllTried_example =
    flush_pending-AllTried refused 100 dials dials-AllBackoff dials-AllLeft

abbrev no_records : Dialer
no_records = record { ack_pool = []; closed = [] }

-- A dial over a socket whose handshake is not captured.
dial_tcp_sync_lem_example :
    (s' : Dialer) × (made : Option NewTcp) × (dial_tcp_sync accepted no_records [] 77
      ≡ some (s', made))
    × (find equals asked s'.ack_pool ≡ none)
    × Dialed 77 asked [] s' made
dial_tcp_sync_lem_example =
    dial_tcp_sync_lem accepted no_records [] 77 (omega arith) (omega arith) (omega arith)

-- The same where it is.
abbrev one_record : Dialer
one_record = record no_records { ack_pool = entry ∷ [] }

captured-dialed :
    dial_tcp_sync accepted one_record [] 77
    ≡ some (
      no_records,
      some (record { tcp = 77; key = 327680080; info = with_numbers asked captured }),
    )
unfolding dial_tcp_sync wait2_transfer_info get_info_if_exists remove_info key_for_tcp key_for_ports
    find equals erase
captured-dialed = refl
