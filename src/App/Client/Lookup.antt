-- ===== src/App/Client/Lookup.antt =====
-- The connection that the client finds or makes for a local address.
use rsock.Base.{
  ℕ, ◌+◌, ◌%◌, ◌^◌, ◌<◌, ◌≤◌, ◌≡◌, refl, sym, ap, subst, ◌∙◌, inl, inr, Option-cases, none, some,
  List, [], ◌∷◌, ◌++◌, arith, bytes_eq, bytes_eq_iff, bytes_eq_refl, insert_new,
}
use rsock.App.Index.{insert_new-index, lookup-append, lookup-key}
use rsock.App.Client.{SockAddr, build_key, CConn, ClientGroup, same_conv, new_conn, conn_for}
use rsock.App.Client.Keys.{IsClear, build_key_inj}
use rsock.App.Client.Table.{
  key_of, conv_of, by_key, by_conv, Holds, by_conv_fresh, by_conv-by_key, IsClear-by_key,
  AreListed-append, conn_of_key_lem,
}

-- What is true of the connection that is found or made.
pub record IsFor (n : ℕ) (addr : SockAddr) (cs' : List CConn) (r : ClientGroup × CConn)
    : Type 0 where
  pub holds : Holds cs' r.0
  pub by_conv_eq : by_conv r.1.conv cs' ≡ some r.1
  pub by_key_eq : by_key (build_key addr) cs' ≡ some r.1
  pub addr_eq : r.1.addr ≡ addr
  pub counter_le : r.0.conv_counter ≤ n + 1

abbrev pub next : ClientGroup → SockAddr → CConn
next g addr = record { key = build_key addr; addr = addr; conv = g.conv_counter + 1 }

-- The connection that is made goes to the end of both maps.
made :
    (cs : List CConn) (g : ClientGroup) (addr : SockAddr)
    → Holds cs g
    → g.conv_counter + 1 < 2 ^ 32
    → IsClear addr
    → by_key (build_key addr) cs ≡ none
    → IsFor g.conv_counter addr (cs ++ (next g addr ∷ [])) (
        new_conn
          (record g { conv_counter = g.conv_counter + 1 })
          (build_key addr)
          addr
          (g.conv_counter + 1))
unfolding new_conn
made cs g addr h room clear free =
    let c : CConn = next g addr in
    let fresh : by_conv c.conv cs ≡ none =
      by_conv_fresh g.conv_counter c.conv cs h.listed (omega arith) in
    record {
      holds = record {
        conns_eq =
            ap (λ m. insert_new bytes_eq c.key c m) h.conns_eq
            ∙ insert_new-index bytes_eq key_of c cs free;
        conv_map_eq =
            ap (λ m. insert_new same_conv c.conv c m) h.conv_map_eq
            ∙ insert_new-index same_conv conv_of c cs fresh;
        listed = AreListed-append g.conv_counter c cs h.listed free (omega arith) clear refl;
        is_data = h.is_data;
      };
      by_conv_eq = ground (arith, fresh, lookup-append same_conv conv_of c.conv cs c);
      by_key_eq =
          ground (arith, free, bytes_eq_refl c.key, lookup-append bytes_eq key_of c.key cs c);
      addr_eq = refl;
      counter_le = omega arith;
    }

found :
    (cs : List CConn) (g : ClientGroup) (addr : SockAddr) (c : CConn)
    → Holds cs g
    → IsClear addr
    → by_key (build_key addr) cs ≡ some c
    → IsFor g.conv_counter addr cs (g, c)
found cs g addr c h clear e =
    let (a, k) = IsClear-by_key g.conv_counter (build_key addr) cs c h.listed e in
    let same : build_key addr ≡ c.key =
      (bytes_eq_iff (build_key addr) c.key).0
        (lookup-key bytes_eq key_of (build_key addr) cs c e) in
    record {
      holds = h;
      by_conv_eq = by_conv-by_key g.conv_counter (build_key addr) cs c h.listed e;
      by_key_eq = e;
      addr_eq = build_key_inj c.addr addr a clear (sym k ∙ sym same);
      counter_le = omega arith;
    }

abbrev pub conns_for : List CConn → ClientGroup → SockAddr → List CConn
conns_for cs g addr = elim (by_key (build_key addr) cs) [
  | none ↦ cs ++ (next g addr ∷ [])
  | some c ↦ cs
]

equal_for :
    {n : ℕ} {addr : SockAddr} {cs cs' : List CConn} {r r' : ClientGroup × CConn}
    → cs ≡ cs'
    → r ≡ r'
    → IsFor n addr cs' r'
    → IsFor n addr cs r
equal_for {n = n} {addr = addr} {cs' = cs'} {r = r} p q i =
    subst (λ x. IsFor n addr x r) (sym p) (subst (λ x. IsFor n addr cs' x) (sym q) i)

pub conn_for_lem :
    (cs : List CConn) (g : ClientGroup) (addr : SockAddr)
    → Holds cs g
    → g.conv_counter + 1 < 2 ^ 32
    → IsClear addr
    → IsFor g.conv_counter addr (conns_for cs g addr) (conn_for g addr)
unfolding conn_for
conn_for_lem cs g addr h room clear = elim (Option-cases (by_key (build_key addr) cs)) [
  | inl e ↦
      equal_for (ground (arith, e))
        (ground (arith, conn_of_key_lem cs g (build_key addr) h, e, wraps g.conv_counter room))
        (made cs g addr h room clear e)
  | inr (c, e) ↦
      equal_for (ground (arith, e)) (ground (arith, conn_of_key_lem cs g (build_key addr) h, e))
        (found cs g addr c h clear e)
]
  where
    wraps : (n : ℕ) → n + 1 < 2 ^ 32 → (n + 1) % 2 ^ 32 ≡ n + 1
    wraps n r = omega arith

pub conn_for_found :
    (cs : List CConn) (g : ClientGroup) (addr : SockAddr) (c : CConn)
    → Holds cs g
    → by_key (build_key addr) cs ≡ some c
    → ◌≡◌ {A = ClientGroup × CConn} (conn_for g addr) (g, c)
unfolding conn_for
conn_for_found cs g addr c h e = ground (arith, conn_of_key_lem cs g (build_key addr) h, e)
