-- ===== src/App/Client/Close.antt =====
-- The end of a conversation at the client.
use rsock.Base.{
  ℕ, ◌≡◌, sym, ap, subst, ◌∙◌, false, none, some, List, ◌∷◌, arith, bytes_eq, bytes_eq_iff,
  le_bytes, erase,
}
use rsock.Wire.EncHead.{EncHead, type_data, type_conv_rst}
use rsock.App.Head.{send_conv_rst, do_send_cmd}
use rsock.App.Index.{index, without, erase-index, lookup-without, lookup-key}
use rsock.App.Client.{
  CConn, ClientGroup, same_conv, conn_of_key, on_recv, remove_conn, close_conn, to_peer,
}
use rsock.App.Client.Table.{
  key_of, conv_of, by_key, by_conv, Holds, AreListed-without, by_conv-without, conn_of_key_lem,
}
use rsock.App.Client.Laws.{on_recv_absent}

Holds-remove_conn :
    (cs : List CConn) (g : ClientGroup) (k : List ℕ) (c : CConn)
    → Holds cs g
    → by_key k cs ≡ some c
    → k ≡ c.key
    → Holds (without bytes_eq key_of k cs) (remove_conn g c).0
unfolding remove_conn
Holds-remove_conn cs g k c h e named = record {
  conns_eq =
      subst (λ x. erase bytes_eq x g.conns ≡ index key_of (without bytes_eq key_of k cs)) named
        (ap (λ m. erase bytes_eq k m) h.conns_eq ∙ erase-index bytes_eq key_of k cs);
  conv_map_eq =
      ap (λ m. erase same_conv c.conv m) h.conv_map_eq
      ∙ erase-index same_conv conv_of c.conv cs
      ∙ ap (λ l. index conv_of l) (by_conv-without g.conv_counter k cs c h.listed e);
  listed = AreListed-without g.conv_counter k cs h.listed;
  is_data = h.is_data;
}

closes :
    (g : ClientGroup) (k : List ℕ) (c : CConn)
    → conn_of_key g k ≡ some c
    → bytes_eq k g.key ≡ false
    → k ≡ c.key
    → close_conn g c ≡ some (remove_conn g c).0
unfolding close_conn
closes g k c e ne named =
    let at_key : conn_of_key g c.key ≡ some c = subst (λ x. conn_of_key g x ≡ some c) named e in
    let other : bytes_eq c.key g.key ≡ false = subst (λ x. bytes_eq x g.key ≡ false) named ne in
    ground (arith, at_key, other)

pub close_conn_lem :
    (cs : List CConn) (g : ClientGroup) (k : List ℕ) (c : CConn)
    → Holds cs g
    → conn_of_key g k ≡ some c
    → bytes_eq k g.key ≡ false
    → (close_conn g c ≡ some (remove_conn g c).0)
      × Holds (without bytes_eq key_of k cs) (remove_conn g c).0
      × (conn_of_key (remove_conn g c).0 k ≡ none)
      × (by_conv c.conv (without bytes_eq key_of k cs) ≡ none)
close_conn_lem cs g k c h e ne =
    let stored : by_key k cs ≡ some c = sym (conn_of_key_lem cs g k h) ∙ e in
    let named : k ≡ c.key = (bytes_eq_iff k c.key).0 (lookup-key bytes_eq key_of k cs c stored) in
    let left = Holds-remove_conn cs g k c h stored named in
    (
      closes g k c e ne named,
      left,
      conn_of_key_lem (without bytes_eq key_of k cs) (remove_conn g c).0 k left
          ∙ lookup-without bytes_eq key_of k cs,
      ap (λ l. by_conv c.conv l) (sym (by_conv-without g.conv_counter k cs c h.listed stored))
          ∙ lookup-without same_conv conv_of c.conv cs,
    )

-- Closing a connection that the group finds under its key, which is not the group's, fails no
-- assertion: the maps hold the others afterwards, and nothing is found under its key. Data for its
-- number is answered with a reset of that number, and the head is for data again.
pub on_recv-close_conn :
    (cs : List CConn) (g : ClientGroup) (k : List ℕ) (c : CConn) (head : EncHead) (b : ℕ)
    (base : List ℕ)
    → Holds cs g
    → conn_of_key g k ≡ some c
    → bytes_eq k g.key ≡ false
    → head.conv ≡ c.conv
    → (g' : ClientGroup) × (close_conn g c ≡ some g')
      × Holds (without bytes_eq key_of k cs) g'
      × (conn_of_key g' k ≡ none)
      × (on_recv g' head (b ∷ base)
          ≡ some (
            record g' { head = record (g'.head) { cmd = type_data } },
            to_peer (record (g'.head) { cmd = type_conv_rst }, le_bytes 4 c.conv),
          ))
unfolding send_conv_rst do_send_cmd
on_recv-close_conn cs g k c head b base h e ne same =
    let (closed, left, gone, free) = close_conn_lem cs g k c h e ne in
    let g' = (remove_conn g c).0 in
    let cs' = without bytes_eq key_of k cs in
    let absent : by_conv head.conv cs' ≡ none = subst (λ v. by_conv v cs' ≡ none) (sym same) free in
    (
      g',
      closed,
      left,
      gone,
      on_recv_absent cs' g' head b base left absent
          ∙ ap
              (λ v. some (
                record g' { head = record (g'.head) { cmd = type_data } },
                to_peer (record (g'.head) { cmd = type_conv_rst }, le_bytes 4 v),
              ))
              same,
    )
