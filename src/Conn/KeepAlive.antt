-- ===== src/Conn/KeepAlive.antt =====
-- callbacks/NetConnKeepAlive.cpp: the requests that have not been answered, by connection key. The
-- group of network connections is passed along; what the group of applications is told to send is
-- returned. `ConnOfIntKey` is the search without its assertion, which Conn/NetGroup/Keys is about.
pub mod Laws
pub mod Counts
pub mod Requests
pub mod Timeouts
use rsock.Base.{
  ℕ, suc, ◌+◌, ◌-◌, ◌%◌, ◌^◌, Bool, true, false, not, ◌&&◌, Option, none, some, List, [], ◌∷◌, ◌++◌,
  ltb, leb, ◌==◌, if◌then◌else◌, map, find, contains, insert_new, assign, erase,
}
use rsock.Wire.EncHead.{type_keep_alive_req, type_keep_alive_resp}
use rsock.Wire.KeyGenerator.{encode_key, decode_key_safe}
use rsock.Conn.NetGroup.{NetConn, NetGroup, same_key}

-- `mReqMap`: how often a request was repeated.
abbrev pub ReqMap : Type 0
ReqMap = List (ℕ × ℕ)

-- What is sent: a keep-alive packet with these bytes, or a reset of the connection.
pub data Cmd : Type 0 where
  do_send_cmd : ℕ → List ℕ → Cmd
  send_net_conn_rst : ℕ → Cmd

abbrev pub max_retry : ℕ
max_retry = 3

abbrev pub request_delay : ℕ
request_delay = 15000

abbrev pub send_request : ℕ → Cmd
send_request key = do_send_cmd type_keep_alive_req (encode_key key)

abbrev pub send_response : ℕ → Cmd
send_response key = do_send_cmd type_keep_alive_resp (encode_key key)

abbrev pub has_conn : NetGroup → ℕ → Bool
has_conn g key = contains same_key key g.conn_map

abbrev pub remove_request : ReqMap → ℕ → ReqMap
remove_request reqs key = erase same_key key reqs

-- The map afterwards, what is sent, and whether the input is accepted (else it returns -1).
pub input : ReqMap → NetGroup → ℕ → ℕ → List ℕ → ReqMap × List Cmd × Bool
input reqs g cmd nread base =
    let (n, conn_key) = decode_key_safe nread base 0 in
    if not (ltb 0 n)
    then (reqs, [], false)
    else if cmd == type_keep_alive_req
    then (
      reqs,
      (if has_conn g conn_key then send_response conn_key else send_net_conn_rst conn_key) ∷ [],
      true,
    )
    else if cmd == type_keep_alive_resp
    then (remove_request reqs conn_key, [], true)
    else (reqs, [], false)

pub remove_invalid_request : ReqMap → NetGroup → ReqMap
remove_invalid_request [] g = []
remove_invalid_request (p ∷ reqs) g =
    let rest = remove_invalid_request reqs g in if has_conn g p.0 then p ∷ rest else rest

-- `df` is an `int`, of 32 bits.
unfoldable pub can_send_request : NetConn → ℕ → Bool
can_send_request c timestamp_ms =
    let df = (timestamp_ms - c.established_ms) % 2 ^ 32 in
    not c.is_new && ltb c.established_ms timestamp_ms && ltb df (2 ^ 31) && leb request_delay df

-- A request that is recorded is counted, another is recorded with 0; and whether it is to be sent.
pub count_request : ReqMap → ℕ → ReqMap × Bool
count_request reqs key = elim (find same_key key reqs) [
  | none ↦ (insert_new same_key key 0 reqs, true)
  | some p ↦ (assign same_key key (p.1 + 1) reqs, ltb (p.1 + 1) max_retry)
]

-- A round of the first loop of `OnFlush`, and the loop over the connections.
pub flush_conn : ℕ → ReqMap → NetConn → ReqMap × Bool
flush_conn now reqs c =
    if can_send_request c now then count_request reqs c.int_key else (reqs, false)

pub flush_conns : ℕ → ReqMap → List (List ℕ × NetConn) → ReqMap × List Cmd
flush_conns now reqs [] = (reqs, [])
flush_conns now reqs (e ∷ conns) =
    let (reqs', sends) = flush_conn now reqs e.1 in
    let (left, sent) = flush_conns now reqs' conns in
    (left, if sends then send_request e.1.int_key ∷ sent else sent)

-- `NotifyErr` of the connection that both maps point to; `FakeUdp::Alive` does not read what it sets.
abbrev pub with_err : ℕ → NetConn → NetConn
with_err key c = if c.int_key == key && not c.is_udp then record c { alive = false } else c

pub on_net_conn_dead : NetGroup → ℕ → NetGroup
on_net_conn_dead g key = record g {
  conns = map (λ p. (p.0, with_err key p.1)) g.conns;
  conn_map = map (λ p. (p.0, with_err key p.1)) g.conn_map;
}

-- The second loop, over a copy of the map.
pub flush_timeouts : ReqMap → ReqMap → NetGroup → ReqMap × NetGroup
flush_timeouts [] reqs g = (reqs, g)
flush_timeouts (p ∷ copy) reqs g =
    let dead = flush_timeouts copy (remove_request reqs p.0) (on_net_conn_dead g p.0) in
    if leb max_retry p.1 then dead else flush_timeouts copy reqs g

-- `online` is the route observer's.
unfoldable pub on_flush : Bool → ReqMap → NetGroup → ℕ → ReqMap × NetGroup × List Cmd
on_flush online reqs0 g now =
    let reqs = remove_invalid_request reqs0 g in
    let (counted, sent) = flush_conns now reqs g.conns in
    let (left, g') = flush_timeouts counted counted g in
    if online then (left, g', sent) else (reqs, g, [])

abbrev pub remove_all_request : ReqMap → ReqMap
remove_all_request reqs = []

-- The route observer (callbacks/KeepAliveRouteObserver.cpp), which is told that the host is online or
-- not: whether it is, and the requests.
abbrev pub on_net_connected : ReqMap → Bool × ReqMap
on_net_connected reqs = (true, remove_all_request reqs)

abbrev pub on_net_disconnected : ReqMap → Bool × ReqMap
on_net_disconnected reqs = (false, remove_all_request reqs)
