-- ===== src/App/Server/Laws.antt =====
-- The server answers a conversation under its own number.
use rsock.Base.{
  ℕ, ◌^◌, ◌<◌, ◌≡◌, refl, sym, subst, ◌∙◌, inl, inr, Bool-cases, false, Option-cases, none, some,
  List, [], ◌∷◌, arith, if_intro, bytes_eq, bytes_eq_iff, bytes_eq_refl, find, find-insert_new,
  find-erase, insert_new, erase,
}
use rsock.App.ConvKey.{build_conv_key, build_conv_key_iff}
use rsock.App.Server.{SConn, SubGroup, conn_of_key, new_conn, conn_for, remove_conn, close_conn}

-- The connection has the key of its number and of some address.
pub record IsServed (c : SConn) : Type 0 where
  pub dst : ℕ
  pub dst_fits : dst < 2 ^ 32
  pub key_eq : c.key ≡ build_conv_key dst c.conv

abbrev pub AreServed : List (List ℕ × SConn) → Type 0
AreServed [] = Unit {0}
AreServed (p ∷ m) = IsServed p.1 × (p.0 ≡ p.1.key) × AreServed m

AreServed-insert_new :
    (c : SConn) (m : List (List ℕ × SConn))
    → IsServed c
    → AreServed m
    → AreServed (insert_new bytes_eq c.key c m)
unfolding insert_new
AreServed-insert_new c [] i a = (i, refl, tt)
AreServed-insert_new c (p ∷ m) i (j, e, a) =
    if_intro AreServed (bytes_eq c.key p.0) _ _ (j, e, a) (j, e, AreServed-insert_new c m i a)

AreServed-erase :
    (k : List ℕ) (m : List (List ℕ × SConn)) → AreServed m → AreServed (erase bytes_eq k m)
unfolding erase
AreServed-erase k [] a = tt
AreServed-erase k (p ∷ m) (j, e, a) =
    if_intro AreServed (bytes_eq k p.0) _ _ (AreServed-erase k m a) (j, e, AreServed-erase k m a)

find-IsServed :
    (k : List ℕ) (m : List (List ℕ × SConn)) (p : List ℕ × SConn)
    → AreServed m
    → find bytes_eq k m ≡ some p
    → IsServed p.1 × (p.1.key ≡ k)
unfolding find
find-IsServed k [] p a h = ground (arith, h)
find-IsServed k (q ∷ m) p (j, e, a) h = elim (Bool-cases (bytes_eq k q.0)) [
  | inl t ↦
      let met : q ≡ p = ground (arith, t, h) in
      subst (λ x. IsServed x.1 × (x.1.key ≡ k)) met (j, sym e ∙ sym ((bytes_eq_iff k q.0).0 t))
  | inr f ↦ find-IsServed k m p a (ground (arith, f, h))
]

-- The key tells the number.
conv_of_key :
    (dst conv : ℕ) (c : SConn)
    → dst < 2 ^ 32
    → IsServed c
    → c.key ≡ build_conv_key dst conv
    → c.conv ≡ conv
conv_of_key dst conv c fits i h =
    ((build_conv_key_iff i.dst dst c.conv conv i.dst_fits fits).0 (sym i.key_eq ∙ h)).1

pub record IsConnOf (dst conv : ℕ) (r : SubGroup × SConn) : Type 0 where
  pub served : AreServed r.0.conns
  pub conv_eq : r.1.conv ≡ conv
  pub stored : conn_of_key r.0 (build_conv_key dst conv) ≡ some r.1

pub conn_for_lem :
    (g : SubGroup) (dst conv : ℕ)
    → AreServed g.conns
    → dst < 2 ^ 32
    → IsConnOf dst conv (conn_for g dst conv)
unfolding conn_for conn_of_key new_conn
conn_for_lem g dst conv a fits =
    let k = build_conv_key dst conv in
    elim (Option-cases (find bytes_eq k g.conns)) [
      | inl e ↦
          let c : SConn = record { key = k; conv = conv } in
          let i : IsServed c = record { dst = dst; dst_fits = fits; key_eq = refl } in
          subst (IsConnOf dst conv) (ground (arith, e)) (
            made c i refl
              (ground (arith, e, bytes_eq_refl k, find-insert_new bytes_eq k c g.conns)))
      | inr (p, e) ↦
          let (i, at) = find-IsServed k g.conns p a e in
          subst (IsConnOf dst conv) (ground (arith, e))
            (there p.1 (conv_of_key dst conv p.1 fits i at) (ground (arith, e)))
    ]
  where
    made :
        (c : SConn)
        → IsServed c
        → c.conv ≡ conv
        → find bytes_eq (build_conv_key dst conv) (insert_new bytes_eq c.key c g.conns)
          ≡ some (c.key, c)
        → IsConnOf dst conv (record g { conns = insert_new bytes_eq c.key c g.conns }, c)
    made c i e f = record {
      served = AreServed-insert_new c g.conns i a;
      conv_eq = e;
      stored = ground (arith, f);
    }

    there :
        (c : SConn)
        → c.conv ≡ conv
        → conn_of_key g (build_conv_key dst conv) ≡ some c
        → IsConnOf dst conv (g, c)
    there c e f = record { served = a; conv_eq = e; stored = f }

pub conn_for_there :
    (g : SubGroup) (dst conv : ℕ) (c : SConn)
    → conn_of_key g (build_conv_key dst conv) ≡ some c
    → conn_for g dst conv ≡ (g, c)
unfolding conn_for
conn_for_there g dst conv c e = ground (arith, e)

key_of_found :
    (g : SubGroup) (k : List ℕ) (c : SConn)
    → AreServed g.conns
    → conn_of_key g k ≡ some c
    → c.key ≡ k
unfolding conn_of_key
key_of_found g k c a e = elim (Option-cases (find bytes_eq k g.conns)) [
  | inl f ↦ ground (arith, e, f)
  | inr (p, f) ↦
      let met : p.1 ≡ c = ground (arith, e, f) in
      subst (λ x. x.key ≡ k) met (find-IsServed k g.conns p a f).1
]

closes :
    (g : SubGroup) (c : SConn)
    → conn_of_key g c.key ≡ some c
    → bytes_eq c.key g.key ≡ false
    → close_conn g c ≡ some (remove_conn g c).0
unfolding close_conn
closes g c e ne = ground (arith, e, ne)

gone :
    (g : SubGroup) (k : List ℕ)
    → conn_of_key (record g { conns = erase bytes_eq k g.conns }) k ≡ none
unfolding conn_of_key
gone g k = ground (arith, find-erase bytes_eq k g.conns)

-- Closing a connection that the group finds under its key, which is not the group's, fails no
-- assertion: it is gone afterwards, and the others keep their keys.
pub close_conn-conn_of_key :
    (g : SubGroup) (k : List ℕ) (c : SConn)
    → AreServed g.conns
    → conn_of_key g k ≡ some c
    → bytes_eq k g.key ≡ false
    → (g' : SubGroup) × (close_conn g c ≡ some g') × (conn_of_key g' k ≡ none) × AreServed g'.conns
unfolding remove_conn
close_conn-conn_of_key g k c a e ne =
    let named : c.key ≡ k = key_of_found g k c a e in
    let at_key : conn_of_key g c.key ≡ some c =
      subst (λ x. conn_of_key g x ≡ some c) (sym named) e in
    let other : bytes_eq c.key g.key ≡ false =
      subst (λ x. bytes_eq x g.key ≡ false) (sym named) ne in
    (
      (remove_conn g c).0,
      closes g c at_key other,
      subst (λ x. conn_of_key (record g { conns = erase bytes_eq x g.conns }) k ≡ none) (sym named)
          (gone g k),
      AreServed-erase c.key g.conns a,
    )
