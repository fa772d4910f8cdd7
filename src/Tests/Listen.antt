-- ===== src/Tests/Listen.antt =====
-- Ports that are listened on, buffer sizes and the filter of a capture (net/TcpListenPool.cpp,
-- src/sync/ISyncConn.cpp and cap/cap_util.cpp).
use rsock.Base.{
  ℕ, to_string, ◌≡◌, ◌&&◌, refl, Bool, true, false, some, List, [], ◌∷◌, ltb, ◌==◌, bytes_eq,
}
use rsock.Conf.PortList.{RPortList, empty_list}
use rsock.Conf.Filter.{codes, ports_text, build_filter_str}
use rsock.Conf.Filter.Laws.{Expr, print, Segment, lets_through, is_unambiguous, filter_expr}
use rsock.Conf.Filter.Laws.Meaning.{address_fits, port_fits, build_filter_str_lem}
use rsock.Setup.ListenPool.{Listened, listening, no_bind, ListenPool}
use rsock.Wire.TcpInfo.{TcpInfo}
use rsock.Net.ConnPool.Laws as ConnPool
use rsock.Net.Managers.{Server}
use rsock.Sync.BufSize.{try_set_good_buf_size}

-- The port 10002 is taken.
abbrev taken : ℕ → Listened
taken p = elim (p == 10002) [ true ↦ no_bind | false ↦ listening ]

abbrev ports : List ℕ
ports = 10001 ∷ 10002 ∷ []

abbrev new_pool : ListenPool
new_pool = record { has_cb = true; pool = []; fresh = 5; disposed = []; passed_on = [] }

abbrev one_port : ListenPool
one_port = record new_pool { pool = 4 ∷ [] }

-- Sizes below 300 can be set.
abbrev small : ℕ → Bool
small n = ltb n 300

half_of_half : try_set_good_buf_size small 10 (some 100) ≡ some (some 250)
unfolding try_set_good_buf_size
half_of_half = refl

-- A filter for what 8.8.8.8 sends from port 80 and from ports 10001 to 10010.
abbrev from_ports : RPortList
from_ports = record empty_list {
  single_ones = 80 ∷ [];
  valentines = record { source = 10001; dest = 10010 } ∷ [];
}

abbrev segment : Segment
segment = record {
  protocol = codes "tcp";
  src = codes "8.8.8.8";
  dst = codes "192.168.1.4";
  sp = 10004;
  dp = 10001;
}

abbrev filter : List ℕ
filter = build_filter_str (codes "tcp") (codes "8.8.8.8") [] from_ports empty_list false

filter-text :
    filter ≡ codes "tcp and  (ip src 8.8.8.8) and (  src port 80 or src portrange 10001-10010 )"
unfolding build_filter_str ports_text to_string
filter-text = refl

abbrev filter_read : Expr
filter_read = filter_expr (codes "tcp") (codes "8.8.8.8") [] from_ports empty_list

build_filter_str_lem_example :
    (filter ≡ print filter_read)
    × (is_unambiguous filter_read ≡ true)
    × (lets_through filter_read segment ≡ (
        bytes_eq (codes "tcp") segment.protocol
        && (address_fits (codes "8.8.8.8") segment.src
            && (address_fits [] segment.dst
                && (port_fits 10004 from_ports && port_fits 10001 empty_list)))))
build_filter_str_lem_example =
    build_filter_str_lem (codes "tcp") (codes "8.8.8.8") [] from_ports empty_list segment refl refl
      refl

-- A server's net manager with an accepted connection and a socket that listens.
abbrev accepted : TcpInfo
accepted = record {
  conn = record { src = 1; dst = 2; sp = 10001; dp = 5000 };
  seq = 0;
  ack = 0;
  flag = 0;
}

abbrev manager : Server
manager = record {
  timer = true;
  manager = record {
    pool = (accepted, record { conn = 9; expire_ms = 700 }) ∷ [];
    ack_pool = [];
    closed = [];
  };
  listen = one_port;
}
