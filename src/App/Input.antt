-- ===== src/App/Input.antt =====
-- `IAppGroup::Input` of conn/IAppGroup.cpp: what a group of conversations does with a packet, by the
-- command of its head. Packets to the peer are returned, each with the key of the connection that
-- must not take it, or 0; Conn/NetGroup/Send is about how they are sent.
pub mod Laws
use rsock.Base.{
  ℕ, Bool, true, false, ◌||◌, Option, none, some, ◌>>=◌, List, [], ◌∷◌, ◌==◌, if◌then◌else◌, length,
  map,
}
use rsock.Wire.EncHead.{EncHead, type_data, type_netconn_rst, is_rst_flag, is_keep_alive_flag}
use rsock.Wire.ConnInfo.{ConnInfo}
use rsock.Wire.KeyGenerator.{Info, conn_of, encode_key}
use rsock.Conn.NetGroup.{NetGroup, NetConn}
use rsock.Conn.NetGroup.Input.{Took, by_conn, by_default, net_input}
use rsock.Conn.KeepAlive.{ReqMap, Cmd, do_send_cmd, send_net_conn_rst}
use rsock.Conn.KeepAlive
use rsock.App.Head.{Packet}
use rsock.App.Head
use rsock.App.Reset.{Conversations}
use rsock.App.Reset

-- What the base class uses of a derived one: its `mHead` and its `OnRecv`, which gives an `R`.
pub record AppOps (G C R : Type 0) : Type 1 where
  pub conversations : Conversations G C
  pub head : G → EncHead
  pub set_head : G → EncHead → G
  pub on_recv : G → ℕ → EncHead → List ℕ → Option (G × R)

-- The group with its network connections, what makes these, and the requests of the keep-alive.
pub record AppGroup (G M : Type 0) : Type 0 where
  pub group : G
  pub net : NetGroup
  pub manager : M
  pub reqs : ReqMap

-- What a call of `Input` comes to: what `OnRecv` gave, the packets to the peer besides those of
-- `OnRecv`, and whether the call finds no error of its own: where a connection takes data, it returns
-- what `OnRecv` returns.
pub record Outcome (G M R : Type 0) : Type 0 where
  pub state : AppGroup G M
  pub received : Option R
  pub packets : List (ℕ × Packet)
  pub accepted : Bool

-- `IAppGroup::SendNetConnReset`, with the bytes that `ConnReset::SendNetConnRst` gives it.
pub send_net_conn_reset : EncHead → ℕ → EncHead × (ℕ × Packet)
send_net_conn_reset head key =
    let (h, packet) = Head.do_send_cmd head type_netconn_rst (encode_key key) in (h, (key, packet))

-- What the keep-alive sends.
pub send_cmd : EncHead → Cmd → EncHead × (ℕ × Packet)
send_cmd head (do_send_cmd cmd base) =
    let (h, packet) = Head.do_send_cmd head cmd base in (h, (0, packet))
send_cmd head (send_net_conn_rst key) = send_net_conn_reset head key

pub send_cmds : EncHead → List Cmd → EncHead × List (ℕ × Packet)
send_cmds head [] = (head, [])
send_cmds head (c ∷ cs) =
    let (h, packet) = send_cmd head c in
    let (h', packets) = send_cmds h cs in (h', packet ∷ packets)

module _ {G C R M : Type 0} (ops : AppOps G C R)
    (create : M → ℕ → Info → Option (M × Option NetConn)) where
  -- The reset of an unknown connection, after the data was given up.
  pub answer_no_conn : Took → EncHead → ℕ → EncHead × List (ℕ × Packet)
  answer_no_conn (by_conn c) head key = (head, [])
  answer_no_conn by_default head key =
      let (h, packet) = send_net_conn_reset head key in (h, packet ∷ [])

  -- `ERR_NO_CONN` is returned when the default connection took the data.
  pub is_by_conn : Took → Bool
  is_by_conn (by_conn c) = true
  is_by_conn by_default = false

  finish_data : AppGroup G M → M × NetGroup × Took → ℕ → G × R → Outcome G M R
  finish_data s (manager, net, took) key (group, received) =
      let (h, packets) = answer_no_conn took (ops.head group) key in
      record {
        state = record s { group = ops.set_head group h; net = net; manager = manager };
        received = some received;
        packets = packets;
        accepted = is_by_conn took;
      }

  -- The data goes up through the connection that takes it, or through the default one.
  pub input_data : AppGroup G M → Info → EncHead → List ℕ → Option (Outcome G M R)
  input_data s info head base = do
    taken ← net_input create s.manager s.net head.conn_key info
    given ← ops.on_recv s.group (conn_of info).dst head base
    some (finish_data s taken head.conn_key given)

  pub input_reset : AppGroup G M → Info → EncHead → List ℕ → Option (Outcome G M R)
  input_reset s info head base = do
    ((group, net), ok) ←
        Reset.input ops.conversations s.group s.net (conn_of info).dst head.cmd (length base) base
    some (record {
      state = record s { group = group; net = net };
      received = none;
      packets = [];
      accepted = ok;
    })

  pub input_keep_alive : AppGroup G M → EncHead → List ℕ → Outcome G M R
  input_keep_alive s head base =
      let (reqs, cmds, ok) = KeepAlive.input s.reqs s.net head.cmd (length base) base in
      let (h, packets) = send_cmds (ops.head s.group) cmds in
      record {
        state = record s { group = ops.set_head s.group h; reqs = reqs };
        received = none;
        packets = packets;
        accepted = ok;
      }

  -- For a packet whose payload is not empty, as `RConn::OnRecv` delivers it.
  unfoldable pub input : AppGroup G M → Info → EncHead → List ℕ → Option (Outcome G M R)
  input s info head base =
      if head.cmd == type_data
      then input_data s info head base
      else if is_rst_flag head.cmd
      then input_reset s info head base
      else if is_keep_alive_flag head.cmd
      then some (input_keep_alive s head base)
      else some (record { state = s; received = none; packets = []; accepted = false })
