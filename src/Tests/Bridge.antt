-- ===== src/Tests/Bridge.antt =====
-- The group that a client starts with (client/CSockApp.cpp): one UDP connection, and two dials, of
-- which one gets no socket.
use rsock.Base.{ℕ, Bool, true, List, [], ◌∷◌}
use rsock.Wire.TcpInfo.{TcpInfo}
use rsock.Net.Create.{Dialer}
use rsock.Conn.NetGroup.{NetGroup}
use rsock.Packet.Udp.{BtmUdpConn}
use rsock.Setup.Bridge.{Dial}
use rsock.Setup.Bridge.Laws.{Bridge}
use rsock.Tests.Conn.{group}
use rsock.Tests.Udp.{to_server}

-- `GetTcpInfo`: 10:40002 to 20:10001.
abbrev ends : ℕ → TcpInfo × Bool
ends tcp = (
  record {
    conn = record { src = 10; dst = 20; sp = 40002; dp = 10001 };
    seq = 0;
    ack = 0;
    flag = 0;
  },
  true,
)

abbrev udps : List (BtmUdpConn × (ℕ × ℕ))
udps = (to_server, (3000, 400)) ∷ []

abbrev dials : List Dial
dials =
    record { tcp = 0; wakes = []; starts = 0; address = 3001; now = 400 }
    ∷ record { tcp = 77; wakes = []; starts = 0; address = 3002; now = 400 }
    ∷ []

abbrev no_records : Dialer
no_records = record { ack_pool = []; closed = [] }

abbrev no_conns : NetGroup
no_conns = record group { conns = []; conn_map = [] }
