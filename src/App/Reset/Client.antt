-- ===== src/App/Reset/Client.antt =====
-- The groups of the two sides as groups that get resets. The client keeps its conversations under
-- the keys of their addresses, and looks the key of a reset up among these.
use rsock.Base.{
  ℕ, ◌≡◌, refl, sym, ap, ◌∙◌, true, false, none, some, List, [], ◌∷◌, arith, inl, inr, Bool-cases,
  starts_digit, bytes_eq, bytes_eq_iff,
}
use rsock.App.ConvKey.{build_conv_key, starts_digit-build_conv_key}
use rsock.App.Client.{SockAddr, in4, un, other, CConn, ClientGroup, remove_conn}
use rsock.App.Client
use rsock.App.Client.Keys.{IsIn4, starts_digit-build_key}
use rsock.App.Client.Table.{Holds, by_key, AreListed, conn_of_key_lem}
use rsock.App.Client.Close.{close_conn_lem}
use rsock.App.Server.{SConn, SubGroup}
use rsock.App.Server
use rsock.App.Server.Laws.{AreServed, close_conn-conn_of_key}
use rsock.App.Reset.{Conversations, on_recv_conv_rst}

abbrev pub client : Conversations ClientGroup CConn
client = record {
  own_key = λ g. g.key;
  conn_of_key = Client.conn_of_key;
  close_conn = Client.close_conn;
  IsFine = λ g. (cs : List CConn) × Holds cs g;
  close_law = λ g k c (cs, h) e ne.
      let (closed, left, gone, free) = close_conn_lem cs g k c h e ne in
      ((remove_conn g c).0, closed, gone, (_, left));
}

abbrev pub server : Conversations SubGroup SConn
server = record {
  own_key = λ g. g.key;
  conn_of_key = Server.conn_of_key;
  close_conn = Server.close_conn;
  IsFine = λ g. AreServed g.conns;
  close_law = λ g k c fine e ne. close_conn-conn_of_key g k c fine e ne;
}

abbrev pub AreIn4 : List CConn → Type 0
AreIn4 [] = Unit {0}
AreIn4 (c ∷ cs) = IsIn4 c.addr × AreIn4 cs

clash : true ≡ false → ⊥
clash h = cc

by_key-build_conv_key :
    (n dst conv : ℕ) (cs : List CConn)
    → AreListed n cs
    → AreIn4 cs
    → by_key (build_conv_key dst conv) cs ≡ none
by_key-build_conv_key n dst conv [] l i = refl
by_key-build_conv_key n dst conv (c ∷ cs) (_, e, _, _, _, l) (a, i) =
    elim (Bool-cases (bytes_eq (build_conv_key dst conv) c.key)) [
      | inl t ↦
          let same = (bytes_eq_iff (build_conv_key dst conv) c.key).0 t in
          let digit : starts_digit (build_conv_key dst conv) ≡ true =
            ap starts_digit (same ∙ e) ∙ starts_digit-build_key c.addr a in
          absurd (clash (sym digit ∙ starts_digit-build_conv_key dst conv))
      | inr f ↦ ground (arith, f, by_key-build_conv_key n dst conv cs l i)
    ]

-- A client whose local addresses are all of IPv4 finds no conversation for any reset of one: it
-- answers that there is none, and stays as it is.
pub on_recv_conv_rst-client :
    (cs : List CConn) (g : ClientGroup) (dst conv : ℕ)
    → Holds cs g
    → AreIn4 cs
    → on_recv_conv_rst client g dst conv ≡ some (g, false)
unfolding on_recv_conv_rst
on_recv_conv_rst-client cs g dst conv h i = ground (
  arith,
  conn_of_key_lem cs g (build_conv_key dst conv) h,
  by_key-build_conv_key g.conv_counter dst conv cs h.listed i,
)
