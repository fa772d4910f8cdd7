-- ===== src/Conn/NetGroup/Spin.antt =====
-- A loop of `doSend` that does not end.
use native.Mathlib.Nat.{mod-one}
use rsock.Wire.KeyGenerator.{str_for_int_key}
use rsock.Base.{
  ℕ, ◌%◌, ◌≡◌, ◌≢◌, ap, ◌∙◌, true, Option, some, ◌>>=◌, List, [], ◌∷◌, arith, length, get_elem?,
}
use rsock.Conn.NetGroup.{NetConn, NetGroup, Sent, undecided, child_conn_err_cb, do_send, send_over}

send_over_spares :
    (send : NetConn → ℕ) (removed : NetConn → Option (NetGroup × Sent))
    (spared : Option (NetGroup × Sent)) (g : NetGroup) (c : NetConn) (s : List ℕ)
    → c.alive ≡ true
    → c.int_key ≢ 0
    → send_over send removed spared g c.int_key (some (s, c)) ≡ spared
unfolding send_over
send_over_spares send removed spared g c s live key = ground (arith, live, key)

-- `SendNetConnReset` never ends in a group whose one connection is live and is the one to reset:
-- after any number of rounds it is still undecided.
pub do_send_spins :
    (send : NetConn → ℕ) (rs : List ℕ) (g : NetGroup) (c : NetConn) (now : ℕ)
    → g.conns ≡ (str_for_int_key c.int_key, c) ∷ []
    → c.alive ≡ true
    → c.int_key ≢ 0
    → do_send send rs g c.int_key now ≡ some (g, undecided)
unfolding do_send
do_send_spins send [] g c now one live key = rw one
do_send_spins send (r ∷ rs) g c now one live key =
    let removed =
      λ (d : NetConn). (child_conn_err_cb g d now >>= λ g'. do_send send rs g' c.int_key now) in
    ap (λ o. send_over send removed (do_send send rs g c.int_key now) g c.int_key o)
      (ap (λ l. get_elem? l (r % length l)) one
        ∙ ap (λ i. get_elem? ((str_for_int_key c.int_key, c) ∷ []) i) (mod-one r))
    ∙ send_over_spares send removed (do_send send rs g c.int_key now) g c
        (str_for_int_key c.int_key) live key
    ∙ do_send_spins send rs g c now one live key
