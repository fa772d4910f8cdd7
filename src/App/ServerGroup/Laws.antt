-- ===== src/App/ServerGroup/Laws.antt =====
-- The clients of a server do not see each other.
use rsock.Base.{
  ℕ, ◌≡◌, refl, sym, ap, subst, ◌∙◌, inl, inr, true, false, Option, Option-cases, none, some, List,
  ◌∷◌, arith, bytes_eq, bytes_eq_iff, bytes_eq_refl, find, assign, insert_new, find-assign,
  find-insert_new_other, find-assign_other,
}
use rsock.Wire.EncHead.{EncHead}
use rsock.Wire.KeyGenerator.{Info}
use rsock.Net.ConnPool.{ServerNetManager}
use rsock.Runtime.Handler.{Handler}
use rsock.Conn.NetGroup.{NetConn}
use rsock.App.Input.{input}
use rsock.App.Sides.{server_ops}
use rsock.App.ServerGroup.{
  Sub, SubOutcome, ServerGroup, passed_on, new_sub, store, pass_on, new_conn, on_recv, start_sub,
}

-- The group that takes the data of an id.
unfoldable pub sub_for : ServerGroup → Handler → List ℕ → Option Sub
sub_for g handler id = elim (find bytes_eq id g.subs) [
  | none ↦ new_sub id handler g.manager
  | some p ↦ some (record (p.1) { manager = g.manager })
]

pub record PassedOn (g g' : ServerGroup) (id other : List ℕ) (out : SubOutcome) : Type 0 where
  pub stored : (k : List ℕ) × (find bytes_eq id g'.subs ≡ some (k, out.state))
  pub manager_eq : g'.manager ≡ out.state.manager
  pub other_eq : find bytes_eq other g'.subs ≡ find bytes_eq other g.subs

apart :
    (other id : List ℕ)
    → bytes_eq other id ≡ false
    → (x : List ℕ) → bytes_eq id x ≡ true
    → bytes_eq other x ≡ false
apart other id ne x t = subst (λ y. bytes_eq other y ≡ false) ((bytes_eq_iff id x).0 t) ne

stored_under :
    (id : List ℕ) (v : Sub) (m : List (List ℕ × Sub))
    → (k : List ℕ) × (find bytes_eq id (assign bytes_eq id v m) ≡ some (k, v))
stored_under id v m = elim (Option-cases (find bytes_eq id m)) [
  | inl e ↦ (id, ground (arith, e, find-assign bytes_eq id v m (bytes_eq_refl id)))
  | inr (p, e) ↦ (p.0, ground (arith, e, find-assign bytes_eq id v m (bytes_eq_refl id)))
]

new_sub-manager :
    (id : List ℕ) (handler : Handler) (m : ServerNetManager) (s : Sub)
    → new_sub id handler m ≡ some s
    → s.manager ≡ m
unfolding new_sub
new_sub-manager id handler m s e = ground (arith, e)

abbrev kept : ServerGroup → List ℕ → SubOutcome → ServerGroup
kept g id out = record g { subs = assign bytes_eq id out.state g.subs; manager = out.state.manager }

kept_lem :
    (g : ServerGroup) (id other : List ℕ) (out : SubOutcome)
    → bytes_eq other id ≡ false
    → PassedOn g (kept g id out) id other out
kept_lem g id other out ne = record {
  stored = stored_under id out.state g.subs;
  manager_eq = refl;
  other_eq = find-assign_other bytes_eq other id out.state g.subs (apart other id ne) ne;
}

module _ (create : ServerNetManager → ℕ → Info → Option (ServerNetManager × Option NetConn)) where
  -- Data with an id goes to the group of that id, or to a new one, as far as its `Init` returns 0:
  -- what that group makes of it, with the server's net manager, is the result, and is kept under
  -- the id, with the manager. What is kept under another id stays as it is.
  pub on_recv_lem :
      (g : ServerGroup) (handler : Handler) (info : Info) (head : EncHead) (b : ℕ) (base : List ℕ)
      (s : Sub) (out : SubOutcome) (other : List ℕ)
      → sub_for g handler head.id_buf ≡ some s
      → input server_ops create s info head (b ∷ base) ≡ some out
      → bytes_eq other head.id_buf ≡ false
      → (g' : ServerGroup) × (on_recv create g handler 0 info head (b ∷ base)
          ≡ some (g', passed_on out))
        × PassedOn g g' head.id_buf other out
  unfolding on_recv new_conn start_sub pass_on store sub_for
  on_recv_lem g handler info head b base s out other found made ne =
      elim (Option-cases (find bytes_eq head.id_buf g.subs)) [
        | inl e ↦
            let g1 : ServerGroup = record g { subs = insert_new bytes_eq head.id_buf s g.subs } in
            let fresh : new_sub head.id_buf handler g.manager ≡ some s = ground (arith, e, found) in
            let same : input server_ops create (record s { manager = g.manager }) info head
                  (b ∷ base)
                ≡ some out =
              ap (λ m. input server_ops create (record s { manager = m }) info head (b ∷ base))
                (sym (new_sub-manager head.id_buf handler g.manager s fresh))
              ∙ made in
            let i = kept_lem g1 head.id_buf other out ne in
            (
              kept g1 head.id_buf out,
              ground (arith, e, fresh, same),
              record {
                stored = i.stored;
                manager_eq = refl;
                other_eq =
                    i.other_eq ∙ find-insert_new_other bytes_eq other head.id_buf s g.subs ne;
              },
            )
        | inr (p, e) ↦
            let old : record (p.1) { manager = g.manager } ≡ s = ground (arith, e, found) in
            let same : input server_ops create (record (p.1) { manager = g.manager }) info head
                  (b ∷ base)
                ≡ some out =
              ap (λ x. input server_ops create x info head (b ∷ base)) old ∙ made in
            (kept g head.id_buf out, ground (arith, e, same), kept_lem g head.id_buf other out ne)
      ]
