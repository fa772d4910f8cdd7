-- ===== src/App/Client/Laws.antt =====
-- What the client's group does for a local address.
use rsock.Base.{ℕ, ◌+◌, ◌^◌, ◌<◌, ◌≡◌, ◌↔◌, refl, sym, ap, subst, ◌∙◌, none, some, List, ◌∷◌, arith}
use rsock.Wire.EncHead.{EncHead, type_data}
use rsock.App.Head.{send_conv_rst}
use rsock.App.Index.{lookup-append}
use rsock.App.Client.{
  SockAddr, build_key, CConn, ClientGroup, same_conv, conn_for, ccon_send, on_local_recv, on_recv,
  send2origin, to_peer, to_origin, in4,
}
use rsock.App.Client.Keys.{IsClear}
use rsock.App.Client.Table.{conv_of, by_key, by_conv, Holds, find-conv_map}
use rsock.App.Client.Lookup.{next, conns_for, conn_for_lem, conn_for_found}

-- Sending sets the number in the head, and leaves the connections.
Holds-send :
    (cs : List CConn) (g : ClientGroup) (v : ℕ)
    → Holds cs g
    → Holds cs (record g { head = record (g.head) { conv = v } })
Holds-send cs g v h = record {
  conns_eq = h.conns_eq;
  conv_map_eq = h.conv_map_eq;
  listed = h.listed;
  is_data = h.is_data;
}

pub on_recv_found :
    (cs : List CConn) (g : ClientGroup) (head : EncHead) (b : ℕ) (base : List ℕ) (c : CConn)
    → Holds cs g
    → by_conv head.conv cs ≡ some c
    → on_recv g head (b ∷ base) ≡ some (g, send2origin (b ∷ base) c.addr)
unfolding on_recv
on_recv_found cs g head b base c h e = ground (arith, find-conv_map cs g head.conv h, e)

pub on_recv_absent :
    (cs : List CConn) (g : ClientGroup) (head : EncHead) (b : ℕ) (base : List ℕ)
    → Holds cs g
    → by_conv head.conv cs ≡ none
    → on_recv g head (b ∷ base)
      ≡ some (
        record g { head = (send_conv_rst g.head head.conv).0 },
        to_peer (send_conv_rst g.head head.conv).1,
      )
unfolding on_recv
on_recv_absent cs g head b base h e = ground (arith, find-conv_map cs g head.conv h, e)

-- The group after the data went out.
abbrev after : ClientGroup → SockAddr → ClientGroup
after g addr = record ((conn_for g addr).0) {
  head = record ((conn_for g addr).0.head) { conv = (conn_for g addr).1.conv };
}

pub on_local_recv_answered :
    (cs : List CConn) (g : ClientGroup) (addr : SockAddr) (base : List ℕ) (head : EncHead) (b : ℕ)
    (answer : List ℕ)
    → Holds cs g
    → g.conv_counter + 1 < 2 ^ 32
    → IsClear addr
    → head.conv ≡ (on_local_recv g base addr).1.0.conv
    → Holds (conns_for cs g addr) (on_local_recv g base addr).0
      × ((on_local_recv g base addr).1.1 ≡ base)
      × ((on_local_recv g base addr).1.0.cmd ≡ type_data)
      × (on_recv (on_local_recv g base addr).0 head (b ∷ answer)
          ≡ some ((on_local_recv g base addr).0, send2origin (b ∷ answer) addr))
unfolding on_local_recv ccon_send
on_local_recv_answered cs g addr base head b answer h room clear e =
    let i = conn_for_lem cs g addr h room clear in
    let (g', c) : ClientGroup × CConn = conn_for g addr in
    let cs' = conns_for cs g addr in
    let sent = Holds-send cs' g' c.conv i.holds in
    let stored : by_conv head.conv cs' ≡ some c =
      subst (λ v. by_conv v cs' ≡ some c) (sym e) i.by_conv_eq in
    (
      sent,
      refl,
      i.holds.is_data,
      on_recv_found cs' (after g addr) head b answer c sent stored
          ∙ ap (λ x. some (after g addr, send2origin (b ∷ answer) x)) i.addr_eq,
    )

-- In a group whose maps hold the same connections, one for each address and each number, and
-- whose counter is not about to wrap, data from a local IPv4 address goes out unchanged, as data, and
-- the maps hold such connections afterwards. An answer that bears the number of what went out is sent
-- to that address, whatever else its head says, and changes nothing.
pub on_recv-on_local_recv :
    (cs : List CConn) (g : ClientGroup) (s_addr port : ℕ) (base : List ℕ) (head : EncHead) (b : ℕ)
    (answer : List ℕ)
    → Holds cs g
    → g.conv_counter + 1 < 2 ^ 32
    → s_addr < 2 ^ 32
    → port < 2 ^ 16
    → head.conv ≡ (on_local_recv g base (in4 s_addr port)).1.0.conv
    → Holds (conns_for cs g (in4 s_addr port)) (on_local_recv g base (in4 s_addr port)).0
      × ((on_local_recv g base (in4 s_addr port)).1.1 ≡ base)
      × ((on_local_recv g base (in4 s_addr port)).1.0.cmd ≡ type_data)
      × (on_recv (on_local_recv g base (in4 s_addr port)).0 head (b ∷ answer)
          ≡ some (
            (on_local_recv g base (in4 s_addr port)).0,
            to_origin (in4 s_addr port) (b ∷ answer),
          ))
unfolding send2origin
on_recv-on_local_recv cs g s_addr port base head b answer h room a p e =
    on_local_recv_answered cs g (in4 s_addr port) base head b answer h room (a, p) e

-- A connection that is there keeps its number.
by_conv-conns_for :
    (cs : List CConn) (g : ClientGroup) (addr : SockAddr) (v : ℕ) (c : CConn)
    → by_conv v cs ≡ some c
    → by_conv v (conns_for cs g addr) ≡ some c
by_conv-conns_for cs g addr v c e =
    ground (arith, e, lookup-append same_conv conv_of v cs (next g addr))

-- Two local addresses, one after the other, get the same number exactly when they are equal, in a
-- group whose maps hold the same connections and whose counter is not about to wrap.
pub on_local_recv-conv_iff :
    (cs : List CConn) (g : ClientGroup) (a b : SockAddr) (base next_base : List ℕ)
    → Holds cs g
    → g.conv_counter + 2 < 2 ^ 32
    → IsClear a
    → IsClear b
    → ((on_local_recv g base a).1.0.conv
        ≡ (on_local_recv (on_local_recv g base a).0 next_base b).1.0.conv)
      ↔ (a ≡ b)
unfolding on_local_recv ccon_send
on_local_recv-conv_iff cs g a b base next_base h room p q =
    let i = conn_for_lem cs g a h (omega arith) p in
    let (g', c) : ClientGroup × CConn = conn_for g a in
    let cs' = conns_for cs g a in
    let sent = Holds-send cs' g' c.conv i.holds in
    let below : g'.conv_counter + 1 < 2 ^ 32 = omega (arith, i.counter_le) in
    let j = conn_for_lem cs' (after g a) b sent below q in
    let (g'', d) : ClientGroup × CConn = conn_for (after g a) b in
    let kept = by_conv-conns_for cs' (after g a) b c.conv c i.by_conv_eq in
    (
      (λ e.
          let met : c ≡ d = let found_d = j.by_conv_eq in cc in
          sym i.addr_eq ∙ ap (λ x. x.addr) met ∙ j.addr_eq),
      (λ e.
          let stored : by_key (build_key b) cs' ≡ some c =
            subst (λ x. by_key (build_key x) cs' ≡ some c) e i.by_key_eq in
          sym (ap (λ r. r.1.conv) (conn_for_found cs' (after g a) b c sent stored))),
    )
