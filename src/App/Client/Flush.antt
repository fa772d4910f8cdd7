-- ===== src/App/Client/Flush.antt =====
-- `Flush` of conn/IAppGroup.cpp and conn/IGroup.cpp at the client: conversations that fell silent are
-- closed, and then what the others count is taken as old.
pub mod Laws
use rsock.Base.{ℕ, Bool, Option, none, some, ◌>>=◌, List, [], ◌∷◌, if◌then◌else◌}
use rsock.Conn.Stat.{DataStat, flush}
use rsock.Conn.NetGroup.{NetGroup, flush_group}
use rsock.App.Client.{CConn, ClientGroup, close_conn}

-- The `mStat` of each connection.
abbrev pub Stats : Type 0
Stats = CConn → DataStat

pub dead : Stats → List (List ℕ × CConn) → List CConn
dead stats [] = []
dead stats (p ∷ conns) =
    let rest = dead stats conns in if (stats p.1).alive then rest else p.1 ∷ rest

-- `OnConnDead` for each; `none` is a failed assertion.
pub close_all : List CConn → ClientGroup → Option ClientGroup
close_all [] g = some g
close_all (c ∷ fails) g = do g' ← close_conn g c; close_all fails g'

-- `IGroup::Flush`
pub flush_conns : Stats → ClientGroup → Option (ClientGroup × Stats)
unfolding dead close_all
flush_conns stats g = do g' ← close_all (dead stats g.conns) g; some (g', λ c. flush (stats c))

-- `IAppGroup::Flush`, with `mFakeNetGroup`.
pub flush_app : Stats → ClientGroup → NetGroup → ℕ → Option (ClientGroup × (Stats × NetGroup))
unfolding flush_conns
flush_app stats g net now = do
  (g', stats') ← flush_conns stats g
  net' ← flush_group net now
  some (g', (stats', net'))
