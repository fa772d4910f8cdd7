-- ===== src/Setup/ListenPool.antt =====
-- net/TcpListenPool.cpp: a socket that listens on each port of a list. A `uv_tcp_t` is its address; new
-- ones are numbered. What libuv makes of a port is an argument.
pub mod Laws
use rsock.Base.{
  ℕ, ◌+◌, Bool, true, false, not, ◌&&◌, Option, none, some, List, [], ◌∷◌, ◌++◌, ◌==◌,
  if◌then◌else◌, length,
}
use rsock.Setup.SockApp.{minus_one}

-- How far `initTcp` gets: `uv_tcp_init`, `uv_tcp_bind` or `uv_listen` fails, or none of them.
pub data Listened : Type 0 where
  no_init no_bind no_listen listening : Listened

-- `fresh` is the next `uv_tcp_t`. Those in `disposed` went to `free` or `uv_close`, and those in
-- `passed_on` to the callback.
pub record ListenPool : Type 0 where
  pub has_cb : Bool
  pub pool : List ℕ
  pub fresh : ℕ
  pub disposed : List ℕ
  pub passed_on : List ℕ

abbrev is_listening : Listened → Bool
is_listening listening = true
is_listening _ = false

-- A `uv_tcp_t` that does not listen is freed, or closed if it was bound.
pub init_tcp : Listened → ListenPool → ListenPool × Option ℕ
init_tcp how s =
    let s' = record s { fresh = s.fresh + 1 } in
    if is_listening how
    then (s', some s.fresh)
    else (record s' { disposed = s.disposed ++ (s.fresh ∷ []) }, none)

abbrev kept : ListenPool × Option ℕ → ListenPool
kept (s, none) = s
kept (s, some tcp) = record s { pool = s.pool ++ (tcp ∷ []) }

pub init_all : (ℕ → Listened) → List ℕ → ListenPool → ListenPool
unfolding init_tcp
init_all listen [] s = s
init_all listen (p ∷ ports) s = init_all listen ports (kept (init_tcp (listen p) s))

pub clear_pool : ListenPool → ListenPool
clear_pool s = record s { pool = []; disposed = s.disposed ++ s.pool }

-- The state afterwards and what is returned, 0 or -1.
unfoldable pub init : (ℕ → Listened) → List ℕ → ListenPool → ListenPool × ℕ
unfolding init_all clear_pool
init listen ports s =
    if not s.has_cb
    then (s, minus_one)
    else let t = init_all listen ports s in
      let u = if length t.pool == length ports then t else clear_pool t in
      (u, if length u.pool == length ports then 0 else minus_one)

unfoldable pub close : ListenPool → ListenPool
unfolding clear_pool
close s = clear_pool (record s { has_cb = false })

without_first : ℕ → List ℕ → List ℕ
without_first x [] = []
without_first x (y ∷ l) = let rest = without_first x l in if y == x then l else y ∷ rest

-- The callback; none is the exception of a callback that is empty.
pub new_conn : ℕ → Bool → ListenPool → Option ListenPool
unfolding without_first
new_conn tcp ok s =
    if ok
    then (if s.has_cb then some (record s { passed_on = s.passed_on ++ (tcp ∷ []) }) else none)
    else some (record s { pool = without_first tcp s.pool })

-- `cancelled` is a status of UV_ECANCELED, which is taken for success; `accepted` is whether
-- `uv_accept` returns 0.
pub new_conn_cb : ℕ → (ok cancelled accepted : Bool) → ListenPool → Option ListenPool
unfolding new_conn
new_conn_cb server ok cancelled accepted s =
    if not ok && not cancelled
    then new_conn server false s
    else let client = s.fresh in
      let s' = record s { fresh = s.fresh + 1 } in
      if accepted
      then new_conn client true s'
      else some (record s' { disposed = s.disposed ++ (client ∷ []) })
