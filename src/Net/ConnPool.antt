-- ===== src/Net/ConnPool.antt =====
-- server/ServerNetManager.cpp: the accepted TCP connections, until they are asked for. A `uv_tcp_t`
-- is its address, 0 for null; `GetTcpInfo` is a parameter, with the info that it fills and whether
-- it succeeds. What is closed is kept in a list.
pub mod Laws
use rsock.Base.{
  ℕ, ◌+◌, Bool, true, false, Option, none, some, List, [], ◌∷◌, leb, ◌==◌, if◌then◌else◌, find,
  contains, insert_new, erase,
}
use rsock.Wire.TcpInfo.{TcpInfo, equals}
use rsock.Net.AckPool.{InfoPool, remove_info, wait2_transfer_info}

pub record ConnHelper : Type 0 where
  pub conn : ℕ
  pub expire_ms : ℕ

pub record ServerNetManager : Type 0 where
  pub pool : List (TcpInfo × ConnHelper)
  pub ack_pool : InfoPool
  pub closed : List ℕ

module _ (get_tcp_info : ℕ → TcpInfo × Bool) where
  pub add2_pool : ℕ → ServerNetManager → ℕ → ℕ → ServerNetManager
  add2_pool persist s tcp now =
      let (info, ok) = get_tcp_info tcp in
      if ok
      then record s {
        pool = insert_new equals info (record { conn = tcp; expire_ms = now + persist }) s.pool;
      }
      else record s { ack_pool = (remove_info s.ack_pool info).0 }

-- The connection with the info as `Wait2TransferInfo` fills it; `wakes` is what that call finds.
unfoldable pub get_tcp :
    ServerNetManager → TcpInfo → List InfoPool → ServerNetManager × Option (ℕ × TcpInfo)
get_tcp s info wakes =
    let (waited, taken) = wait2_transfer_info s.ack_pool wakes info in
    let pool = erase equals info s.pool in
    elim (find equals info s.pool) [
      | none ↦ (record s { ack_pool = (remove_info s.ack_pool info).0 }, none)
      | some p ↦ if p.1.conn == 0 then (s, none) else elim taken [
        | none ↦ (
          record {
            pool = pool;
            ack_pool = (remove_info waited info).0;
            closed = p.1.conn ∷ s.closed;
          },
          none,
        )
        | some i ↦
            (record { pool = pool; ack_pool = waited; closed = s.closed }, some (p.1.conn, i))
      ]
    ]

abbrev contains_tcp : ServerNetManager → TcpInfo → Bool
contains_tcp s info = contains equals info s.pool

-- What is left of the pool, and what is closed.
pub flush_pool : ℕ → List (TcpInfo × ConnHelper) → List (TcpInfo × ConnHelper) × List ℕ
flush_pool timestamp [] = ([], [])
flush_pool timestamp (p ∷ pool) =
    let (left, closed) = flush_pool timestamp pool in
    if p.1.conn == 0
    then (left, closed)
    else if leb p.1.expire_ms timestamp
    then (left, p.1.conn ∷ closed)
    else (p ∷ left, closed)
