-- ===== src/App/ServerGroup.antt =====
-- server/ServerGroup.cpp and `IAppGroup::ProcessTcpFinOrRst`: the server keeps one group for each
-- client, under the id of the head. The net manager is one for all, and each call hands it on.
pub mod Laws
use rsock.Base.{
  ℕ, Bool, true, false, Option, none, some, ◌>>=◌, List, [], ◌∷◌, ◌==◌, if◌then◌else◌, length,
  bytes_eq, find, insert_new, assign,
}
use rsock.Wire.EncHead.{EncHead, id_buf_size}
use rsock.Wire.ConnInfo.{ConnInfo}
use rsock.Wire.KeyGenerator.{Info, key_for_conn_info}
use rsock.Net.ConnPool.{ServerNetManager}
use rsock.Packet.RConn.{fresh_head}
use rsock.Runtime.Handler.{Handler}
use rsock.Conn.Stat.{DataStat}
use rsock.Conn.NetGroup.{NetConn, NetGroup, conn_of_int_key}
use rsock.App.Server.{SConn, SubGroup}
use rsock.App.Server
use rsock.App.Reset.{on_recv_net_conn_rst}
use rsock.App.Input.{AppGroup, Outcome, input}
use rsock.App.Sides.{server_ops}

-- `SubGroup` with its `SNetGroup`.
abbrev pub Sub : Type 0
Sub = AppGroup SubGroup ServerNetManager

abbrev pub SubOutcome : Type 0
SubOutcome = Outcome SubGroup ServerNetManager Server.Received

pub record ServerGroup : Type 0 where
  pub key : List ℕ
  pub subs : List (List ℕ × Sub)
  pub manager : ServerNetManager

abbrev new_stat : DataStat
new_stat = record { prev_in = 0; curr_in = 0; prev_out = 0; curr_out = 0; alive = true }

-- What a call comes to: nothing to do, no group (-1), or what the group of the id made of it.
pub data Result : Type 0 where
  empty : Result
  no_such_conn : Result
  passed_on : SubOutcome → Result

-- `mAlive` and so on of a new group; `handler` is what `ObtainHandler` gives, and `init` what
-- `Init` returns. `none` is the assertion of `Str2IdBuf` on the length of the id.
unfoldable pub new_sub : List ℕ → Handler → ServerNetManager → Option Sub
new_sub id handler manager =
    if length id == id_buf_size
    then some (record {
      group = record { key = id; conns = []; head = record fresh_head { id_buf = id } };
      net = record { conns = []; conn_map = []; handler = handler; stat = new_stat };
      manager = manager;
      reqs = [];
    })
    else none

-- `ProcessTcpFinOrRst`: the reset of the connection of this info, and whether there was one.
-- `none` is a failed assertion.
pub process_tcp_fin_or_rst : Sub → Info → Option (Sub × Bool)
process_tcp_fin_or_rst s info = do
  key ← key_for_conn_info info
  (net, ok) ← on_recv_net_conn_rst s.net key
  some (record s { net = net }, ok)

-- `OnTcpFinOrRst`, which stops at the first group that had the connection.
pub on_tcp_fin_or_rst : List (List ℕ × Sub) → Info → Option (List (List ℕ × Sub))
on_tcp_fin_or_rst [] info = some []
on_tcp_fin_or_rst (p ∷ subs) info =
    let rest = on_tcp_fin_or_rst subs info in
    elim (process_tcp_fin_or_rst p.1 info) [
      | none ↦ none
      | some (s, true) ↦ some ((p.0, s) ∷ subs)
      | some (s, false) ↦ (do subs' ← rest; some (p ∷ subs'))
    ]

module _ (create : ServerNetManager → ℕ → Info → Option (ServerNetManager × Option NetConn)) where
  store : ServerGroup → List ℕ → SubOutcome → ServerGroup × Result
  store g id out = (
    record g { subs = assign bytes_eq id out.state g.subs; manager = out.state.manager },
    passed_on out,
  )

  -- `Input` of the group of the id.
  pub pass_on : ServerGroup → List ℕ → Sub → Info → EncHead → List ℕ → Option (ServerGroup × Result)
  unfolding store
  pass_on g id s info head base = do
    out ← input server_ops create (record s { manager = g.manager }) info head base
    some (store g id out)

  -- A group whose `Init` fails is thrown away.
  start_sub : ServerGroup → ℕ → Sub → Info → EncHead → List ℕ → Option (ServerGroup × Result)
  start_sub g init s info head base =
      if init == 0
      then pass_on (record g { subs = insert_new bytes_eq head.id_buf s g.subs }) head.id_buf s info
          head base
      else some (g, no_such_conn)

  -- `newConn`, with the data that it is made for.
  pub new_conn : ServerGroup → Handler → ℕ → Info → EncHead → List ℕ → Option (ServerGroup × Result)
  unfolding start_sub
  new_conn g handler init info head base = do
    s ← new_sub head.id_buf handler g.manager
    start_sub g init s info head base

  pub on_recv : ServerGroup → Handler → ℕ → Info → EncHead → List ℕ → Option (ServerGroup × Result)
  on_recv g handler init info head [] = some (g, empty)
  on_recv g handler init info head (b ∷ base) = elim (find bytes_eq head.id_buf g.subs) [
    | none ↦ new_conn g handler init info head (b ∷ base)
    | some p ↦ pass_on g head.id_buf p.1 info head (b ∷ base)
  ]
