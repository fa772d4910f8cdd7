-- ===== src/App/Reset.antt =====
-- callbacks/ConnReset.cpp: a side tells the other that it has no such conversation, or no such
-- connection. What it uses of a group of conversations is an interface, which the client's and the
-- server's groups fill.
pub mod Laws
pub mod Client
use rsock.Base.{
  ℕ, ◌≡◌, Bool, true, false, Option, none, some, ◌>>=◌, List, leb, ltb, ◌==◌, if◌then◌else◌,
  bytes_eq,
}
use rsock.Wire.Enc.{little, decode_uint32}
use rsock.Wire.EncHead.{type_conv_rst, type_netconn_rst}
use rsock.Wire.KeyGenerator.{decode_key_safe}
use rsock.Conn.NetGroup.{NetGroup, conn_of_int_key}
use rsock.Conn.KeepAlive.{on_net_conn_dead}
use rsock.App.ConvKey.{build_conv_key}

-- A group `G` of conversations `C`; `own_key` is its `Key()`, and `close_conn` fails where an
-- assertion does.
pub record Conversations (G C : Type 0) : Type 1 where
  pub own_key : G → List ℕ
  pub conn_of_key : G → List ℕ → Option C
  pub close_conn : G → C → Option G
  pub IsFine : G → Type 0
  pub close_law :
      (g : G) (k : List ℕ) (c : C)
      → IsFine g
      → conn_of_key g k ≡ some c
      → bytes_eq k (own_key g) ≡ false
      → (g' : G) × (close_conn g c ≡ some g') × (conn_of_key g' k ≡ none) × IsFine g'

-- `NotifyErr`; and whether there is a connection of the key, else -1 is returned.
pub on_recv_net_conn_rst : NetGroup → ℕ → Option (NetGroup × Bool)
on_recv_net_conn_rst net key = do
  found ← conn_of_int_key net key
  some (elim found [ none ↦ (net, false) | some c ↦ (on_net_conn_dead net key, true) ])

module _ {G C : Type 0} (group : Conversations G C) where
  -- `dst` is that of the packet's addresses.
  pub on_recv_conv_rst : G → ℕ → ℕ → Option (G × Bool)
  on_recv_conv_rst g dst conv = elim (group.conn_of_key g (build_conv_key dst conv)) [
    | none ↦ some (g, false)
    | some c ↦ (do g' ← group.close_conn g c; some (g', true))
  ]

  input_conv : G → NetGroup → ℕ → List ℕ → Option ((G × NetGroup) × Bool)
  input_conv g net dst base = do
    (conv, p) ← decode_uint32 little base
    (g', ok) ← on_recv_conv_rst g dst conv
    some ((g', net), ok)

  input_net_conn : G → NetGroup → ℕ × ℕ → Option ((G × NetGroup) × Bool)
  input_net_conn g net (n, key) =
      if ltb 0 n
      then (do (net', ok) ← on_recv_net_conn_rst net key; some ((g, net'), ok))
      else some ((g, net), false)

  -- What is left, and whether 0 is returned and not -1; `none` is a failed assertion, `assert(0)`
  -- for another command too, or a read past the buffer.
  pub input : G → NetGroup → ℕ → ℕ → ℕ → List ℕ → Option ((G × NetGroup) × Bool)
  unfolding input_conv input_net_conn
  input g net dst cmd nread base =
      if cmd == type_conv_rst
      then (if leb 4 nread then input_conv g net dst base else some ((g, net), false))
      else if cmd == type_netconn_rst
      then input_net_conn g net (decode_key_safe nread base 0)
      else none
