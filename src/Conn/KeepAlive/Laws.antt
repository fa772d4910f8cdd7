-- ===== src/Conn/KeepAlive/Laws.antt =====
-- What the keep-alive promises.
use rsock.Base.{
  ℕ, ◌+◌, ◌^◌, ◌<◌, ◌≤◌, ◌≡◌, ◌↔◌, refl, ap, ◌∙◌, none, map, ◌==◌, true, false, List, [], ◌∷◌, ◌++◌,
  arith, if◌then◌else◌,
}
use rsock.Wire.EncHead.{type_keep_alive_req, type_keep_alive_resp}
use rsock.Wire.KeyGenerator.{encode_key}
use rsock.Wire.KeyGenerator.Laws.{decode_key_safe-encode_key}
use rsock.Wire.KeyGenerator.{str_for_int_key}
use rsock.Conn.NetGroup.{NetConn, NetGroup}
use rsock.Conn.NetGroup.Keyed.{of_key, keyed}
use rsock.Conn.NetGroup.Keys.{Holds}
use rsock.Conn.NetGroup.Send.{Ready}
use rsock.Conn.KeepAlive.{
  ReqMap, send_net_conn_rst, send_response, has_conn, remove_request, input, can_send_request,
  with_err, on_net_conn_dead,
}

-- A request for a key is answered with the same key where the group has the connection, and with a
-- reset where it has not; an answer drops the request for that key, and sends nothing. This is so
-- for every packet that `SendRequest` or `SendResponse` builds of a 64-bit key, with any bytes
-- behind it.
pub input-encode_key :
    (reqs : ReqMap) (g : NetGroup) (key nread : ℕ) (rest : List ℕ)
    → key < 18446744073709551616
    → 8 ≤ nread
    → (input reqs g type_keep_alive_req nread (encode_key key ++ rest)
        ≡ (reqs, (if has_conn g key then send_response key else send_net_conn_rst key) ∷ [], true))
      × (input reqs g type_keep_alive_resp nread (encode_key key ++ rest)
          ≡ (remove_request reqs key, [], true))
unfolding input
input-encode_key reqs g key nread rest k n =
    let decoded = decode_key_safe-encode_key key 0 nread rest k in
    (ground (arith, decoded), ground (arith, decoded))

-- In the first 2 ^ 32 ms after it was established, a used connection may be asked from 15 s on, but
-- only until 2 ^ 31 ms, since the difference is kept in an `int`.
pub can_send_request_lem :
    (c : NetConn) (df : ℕ)
    → c.is_new ≡ false
    → df < 2 ^ 32
    → (can_send_request c (c.established_ms + df) ≡ true) ↔ ((15000 ≤ df) × (df < 2 ^ 31))
unfolding can_send_request
can_send_request_lem c df used fits = ((λ h. ground (arith, used)), (λ h. ground (arith, used)))

-- The connections after `NotifyErr` of those of a key: of these the TCP connections are dead.
abbrev pub after_err : ℕ → List NetConn → List NetConn
after_err key [] = []
after_err key (c ∷ cs) =
    (if c.int_key == key then (if c.is_udp then c else record c { alive = false }) else c)
    ∷ after_err key cs

pub after_err_absent : (key : ℕ) (cs : List NetConn) → of_key key cs ≡ none → after_err key cs ≡ cs
after_err_absent key [] f = refl
after_err_absent key (c ∷ cs) f = ground (arith, f, after_err_absent key cs)

keyed-after_err :
    {K : Type 0} (name : ℕ → K) (key : ℕ) (cs : List NetConn)
    → map (λ p. (p.0, with_err key p.1)) (map (keyed (λ c. name c.int_key)) cs)
      ≡ map (keyed (λ c. name c.int_key)) (after_err key cs)
keyed-after_err name key [] = refl
keyed-after_err name key (c ∷ cs) = ground (arith, keyed-after_err name key cs)

pub Holds-on_net_conn_dead :
    (cs : List NetConn) (g : NetGroup) (key : ℕ)
    → Holds cs g
    → Holds (after_err key cs) (on_net_conn_dead g key)
unfolding on_net_conn_dead
Holds-on_net_conn_dead cs g key h = record {
  by_string =
      ap (λ m. map (λ (p : List ℕ × NetConn). (p.0, with_err key p.1)) m) h.by_string
      ∙ keyed-after_err str_for_int_key key cs;
  by_number =
      ap (λ m. map (λ (p : ℕ × NetConn). (p.0, with_err key p.1)) m) h.by_number
      ∙ keyed-after_err (λ k. k) key cs;
}

pub Ready-on_net_conn_dead :
    (cs : List NetConn) (g : NetGroup) (key : ℕ)
    → Ready cs g
    → Ready (after_err key cs) (on_net_conn_dead g key)
unfolding on_net_conn_dead
Ready-on_net_conn_dead cs g key v = record {
  holds = Holds-on_net_conn_dead cs g key v.holds;
  callback = v.callback;
}
