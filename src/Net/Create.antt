-- ===== src/Net/Create.antt =====
-- client/ClientNetManager.cpp: `DialTcpSync` and `createINetConn`, which make a connection of a TCP
-- socket once its handshake was captured. A `uv_tcp_t` is its address, 0 for null; `GetTcpInfo` is a
-- parameter, with the info that it fills and whether it succeeds. `none` outside is a failed assertion.
pub mod Laws
use rsock.Base.{ℕ, Bool, not, ◌&&◌, Option, none, some, ◌>>=◌, List, ◌∷◌, ◌==◌, if◌then◌else◌}
use rsock.Wire.TcpInfo.{TcpInfo, equals}
use rsock.Wire.KeyGenerator.{key_for_tcp}
use rsock.Net.AckPool.{InfoPool, remove_info, wait2_transfer_info}

-- What the manager shares with the pool, and what it closed.
pub record Dialer : Type 0 where
  pub ack_pool : InfoPool
  pub closed : List ℕ

-- The arguments of the constructor of `FakeTcp`.
pub record NewTcp : Type 0 where
  pub tcp : ℕ
  pub key : ℕ
  pub info : TcpInfo

module _ (get_tcp_info : ℕ → TcpInfo × Bool) where
  -- The assertions of the constructor of `FakeTcp`.
  abbrev pub fake_tcp : ℕ → TcpInfo → Bool
  fake_tcp tcp i = not (tcp == 0) && equals (get_tcp_info tcp).0 i

  -- `wakes` is what the wait for the handshake finds.
  pub create_inet_conn : InfoPool → List InfoPool → ℕ → Option (InfoPool × Option NewTcp)
  create_inet_conn pool wakes tcp =
      let (info, ok) = get_tcp_info tcp in
      let (waited, taken) = wait2_transfer_info pool wakes info in
      if ok
      then elim taken [
        | none ↦ some ((remove_info waited info).0, none)
        | some i ↦ (do
          key ← key_for_tcp i
          (if fake_tcp tcp i
              then some (waited, some (record { tcp = tcp; key = key; info = i }))
              else none))
      ]
      else some ((remove_info pool info).0, none)

  abbrev pub kept : Dialer → ℕ → InfoPool × Option NewTcp → Dialer × Option NewTcp
  kept s tcp (pool, none) = (record { ack_pool = pool; closed = tcp ∷ s.closed }, none)
  kept s tcp (pool, some c) = (record s { ack_pool = pool }, some c)

  -- `tcp` is what `CreateTcp` gives.
  unfoldable pub dial_tcp_sync : Dialer → List InfoPool → ℕ → Option (Dialer × Option NewTcp)
  unfolding create_inet_conn
  dial_tcp_sync s wakes tcp =
      if tcp == 0
      then some (s, none)
      else (do made ← create_inet_conn s.ack_pool wakes tcp; some (kept s tcp made))
