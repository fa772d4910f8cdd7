-- ===== src/App/Reset/Laws.antt =====
-- What a reset does at the side that gets it.
use rsock.Base.{
  ℕ, ◌^◌, ◌<◌, ◌≡◌, inl, inr, sym, subst, ◌∙◌, Bool, true, false, Option, Option-cases, none, some,
  List, [], arith, append-nil, length, length-le_bytes, le_bytes, bytes_eq,
}
use rsock.Wire.Enc.{little, decode_uint32}
use rsock.Wire.Enc.Laws.{decode_uint32-append}
use rsock.Wire.EncHead.{EncHead, type_netconn_rst}
use rsock.Wire.KeyGenerator.{encode_key, decode_key_safe}
use rsock.Wire.KeyGenerator.Laws.{decode_key_safe-encode_key}
use rsock.Conn.NetGroup.{NetConn, NetGroup}
use rsock.Conn.NetGroup.Keyed.{of_key, is_some}
use rsock.Conn.NetGroup.Keys.{Holds, conn_of_int_key_lem}
use rsock.Conn.KeepAlive.{on_net_conn_dead}
use rsock.Conn.KeepAlive.Laws.{after_err, after_err_absent, Holds-on_net_conn_dead}
use rsock.App.Head.{send_conv_rst, do_send_cmd}
use rsock.App.ConvKey.{build_conv_key}
use rsock.App.Reset.{
  Conversations, on_recv_net_conn_rst, on_recv_conv_rst, input, input_conv, input_net_conn,
}

decoded : (conv : ℕ) → conv < 2 ^ 32 → decode_uint32 little (le_bytes 4 conv) ≡ some (conv, [])
decoded conv fits =
    subst (λ l. decode_uint32 little l ≡ some (conv, [])) (append-nil (le_bytes 4 conv))
      (decode_uint32-append conv [] fits)

decoded_key : (key : ℕ) → key < 2 ^ 64 → decode_key_safe 8 (encode_key key) 0 ≡ (8, key)
decoded_key key fits =
    subst (λ l. decode_key_safe 8 l 0 ≡ (8, key)) (append-nil (encode_key key))
      (decode_key_safe-encode_key key 0 8 [] fits)

module _ {G C : Type 0} (group : Conversations G C) where
  -- What comes of the number that `SendConvRst` sends.
  abbrev outcome : NetGroup → Option (G × Bool) → Option ((G × NetGroup) × Bool)
  outcome net none = none
  outcome net (some r) = some ((r.0, net), r.1)

  input-reset :
      (g : G) (net : NetGroup) (head : EncHead) (dst conv : ℕ)
      → conv < 2 ^ 32
      → input group g net dst
          (send_conv_rst head conv).1.0.cmd
          (length (send_conv_rst head conv).1.1)
          (send_conv_rst head conv).1.1
        ≡ outcome net (on_recv_conv_rst group g dst conv)
  unfolding input input_conv send_conv_rst do_send_cmd
  input-reset g net head dst conv fits = ground (arith, length-le_bytes 4 conv, decoded conv fits)

  -- A group that gets the reset of a conversation, as `SendConvRst` builds it of a 32-bit number,
  -- where it finds a conversation under the key of that number and of the packet's address, which
  -- is not its own key, accepts it: no assertion fails, it finds none under that key afterwards,
  -- and the network connections are as they were.
  pub input-send_conv_rst :
      (g : G) (net : NetGroup) (head : EncHead) (dst conv : ℕ) (c : C)
      → conv < 2 ^ 32
      → group.IsFine g
      → group.conn_of_key g (build_conv_key dst conv) ≡ some c
      → bytes_eq (build_conv_key dst conv) (group.own_key g) ≡ false
      → (g' : G) × (input group g net dst
            (send_conv_rst head conv).1.0.cmd
            (length (send_conv_rst head conv).1.1)
            (send_conv_rst head conv).1.1
          ≡ some ((g', net), true))
        × (group.conn_of_key g' (build_conv_key dst conv) ≡ none)
        × group.IsFine g'
  unfolding on_recv_conv_rst
  input-send_conv_rst g net head dst conv c fits fine found other =
      let (g', closed, gone, fine') =
        group.close_law g (build_conv_key dst conv) c fine found other in
      (g', input-reset g net head dst conv fits ∙ ground (arith, found, closed), gone, fine')

  pub input-encode_key_rst_found :
      (cs : List NetConn) (g : G) (net : NetGroup) (dst key : ℕ) (c : NetConn)
      → Holds cs net
      → key < 2 ^ 64
      → of_key key cs ≡ some c
      → input group g net dst type_netconn_rst 8 (encode_key key)
        ≡ some ((g, on_net_conn_dead net key), true)
  unfolding input input_net_conn on_recv_net_conn_rst
  input-encode_key_rst_found cs g net dst key c h fits f =
      ground (arith, decoded_key key fits, conn_of_int_key_lem cs net key h, f)

  -- In a network group whose two maps hold the same connections, the reset of a connection with a
  -- 64-bit key, as it is encoded, is accepted exactly when there is a connection of that key. If that
  -- is over TCP, it is dead then; a UDP connection and all others are as they were. No assertion fails,
  -- and the conversations are left alone.
  pub input-encode_key_rst :
      (cs : List NetConn) (g : G) (net : NetGroup) (dst key : ℕ)
      → Holds cs net
      → key < 2 ^ 64
      → (net' : NetGroup) × (input group g net dst type_netconn_rst 8 (encode_key key)
          ≡ some ((g, net'), is_some (of_key key cs)))
        × Holds (after_err key cs) net'
  unfolding input input_net_conn on_recv_net_conn_rst
  input-encode_key_rst cs g net dst key h fits = elim (Option-cases (of_key key cs)) [
    | inl f ↦ (
      net,
      ground (arith, decoded_key key fits, conn_of_int_key_lem cs net key h, f),
      subst (λ l. Holds l net) (sym (after_err_absent key cs f)) h,
    )
    | inr (c, f) ↦ (
      on_net_conn_dead net key,
      input-encode_key_rst_found cs g net dst key c h fits f ∙ rw f,
      Holds-on_net_conn_dead cs net key h,
    )
  ]
