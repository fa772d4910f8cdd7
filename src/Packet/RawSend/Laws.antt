-- ===== src/Packet/RawSend/Laws.antt =====
-- What comes of the calls of libnet for one packet.
use rsock.Base.{
  ℕ, ◌%◌, ◌^◌, ◌≡◌, ◌⊎◌, inl, inr, refl, ap, ◌∙◌, sym, Bool, Bool-cases, true, false, ◌&&◌, ◌||◌,
  Option, none, some, List, [], ◌∷◌, arith, ◌==◌, length,
}
use rsock.Wire.TcpInfo.{TcpInfo}
use rsock.Packet.RawSend.{
  TcpArgs, IpArgs, Tag, Libnet, Written, wrote, failed, RawTcp, tcp_args, ip_args, written, with_ip,
  with_tcp, send_raw_tcp, Event, packet, connected, disconnected,
}
use rsock.Packet.RawSend.Documented.{valid, layout, IsDocumented}

abbrev pub is_minus_one : Tag → Bool
is_minus_one none = true
is_minus_one (some t) = false

valid_same : {B : Type 0} (t : ℕ) (b : B) → (t == 0) ≡ false → valid (some t) (some (t, b)) ≡ true
valid_same t b h = ground (arith, h)

module _ (n : Libnet) where
  -- A tag is -1: `tcp`, or `ip`.
  abbrev pub is_stuck : RawTcp n → Bool
  is_stuck s = is_minus_one s.tcp_tag || is_minus_one s.ip_tag

  module _ (doc : IsDocumented n) where
    open doc use {tcp_of, ip_of}

    -- The tags of the connection are those of its handle's headers, unless one is -1.
    abbrev ready : n.Context → RawTcp n → Bool
    ready c s = valid s.tcp_tag (tcp_of c) && valid s.ip_tag (ip_of c)

    abbrev pub sound_over : RawTcp n → Option n.Context → Bool
    sound_over s none = true
    sound_over s (some c) = is_stuck s || ready c s

    abbrev pub is_sound : RawTcp n → Bool
    is_sound s = sound_over s s.net

    -- A handle of `libnet_init` has no header.
    abbrev pub Fresh : Event n → Type 0
    Fresh (packet info p) = Unit {0}
    Fresh (connected none link) = Unit {0}
    Fresh (connected (some c) link) = (tcp_of c ≡ none) × (ip_of c ≡ none)
    Fresh disconnected = Unit {0}

    abbrev pub AllFresh : List (Event n) → Type 0
    AllFresh [] = Unit {0}
    AllFresh (e ∷ events) = Fresh e × AllFresh events

    module _ (info : TcpInfo) (p : List ℕ) (id : ℕ) where
      abbrev pub len : ℕ
      len = length p % 2 ^ 16

      abbrev pub a : TcpArgs
      a = tcp_args n info len

      abbrev pub b : IpArgs
      b = ip_args n info len id

      -- The tags and the handle agree still, and the packet was written or the call failed.
      abbrev pub Outcome : n.Context × (Tag × (Tag × Written)) → Type 0
      Outcome (l, (tcp, (ip, w))) =
          ((is_minus_one tcp || is_minus_one ip || valid tcp (tcp_of l) && valid ip (ip_of l))
            ≡ true)
          × ((w ≡ failed)
              ⊎ ((bytes : List ℕ) × (x : ℕ → ℕ) × (w ≡ wrote bytes len) × (bytes ≡ layout x a p b)))

      valid_here :
          (l : n.Context) (t u : ℕ)
          → tcp_of l ≡ some (t, (a, p))
          → ip_of l ≡ some (u, b)
          → (t == 0) ≡ false
          → (u == 0) ≡ false
          → valid (some t) (tcp_of l) && valid (some u) (ip_of l) ≡ true
      valid_here l t u et eu zt zu = ground (arith, et, eu, zt, zu)

      written_lem :
          (l : n.Context) (t u : ℕ)
          → tcp_of l ≡ some (t, (a, p))
          → ip_of l ≡ some (u, b)
          → (t == 0) ≡ false
          → (u == 0) ≡ false
          → (r : n.Context × Option (List ℕ)) → n.write l ≡ r
          → Outcome (let (l', w) = written n len r in (l', (some t, (some u, w))))
      unfolding written
      written_lem l t u et eu zt zu (l', none) e =
          let (kt, ki) = doc.write_keeps l in
          let back = ap (λ r. r.0) e in
          (
            valid_here l' t u (sym (ap tcp_of back) ∙ kt ∙ et) (sym (ap ip_of back) ∙ ki ∙ eu) zt
                zu,
            inl refl,
          )
      written_lem l t u et eu zt zu (l', some bytes) e =
          let (kt, ki) = doc.write_keeps l in
          let back = ap (λ r. r.0) e in
          let (x, laid) = doc.write_layout l t u a p b bytes et eu refl (ap (λ r. r.1) e) in
          (
            valid_here l' t u (sym (ap tcp_of back) ∙ kt ∙ et) (sym (ap ip_of back) ∙ ki ∙ eu) zt
                zu,
            inr (bytes, x, refl, laid),
          )

      with_ip_lem :
          (l : n.Context) (t : ℕ) (ip : Tag)
          → tcp_of l ≡ some (t, (a, p))
          → (t == 0) ≡ false
          → valid ip (ip_of l) ≡ true
          → (r : n.Context × Tag) → n.build_ipv4 b ip l ≡ r
          → Outcome (let q = with_ip n len r in (q.0, (some t, q.1)))
      unfolding with_ip
      with_ip_lem l t ip et zt v (l', none) e = (refl, inl refl)
      with_ip_lem l t ip et zt v (l', some u) e =
          let (eu, zu, kt) = doc.ip_built b ip l l' u v e in
          written_lem l' t u (kt ∙ et) eu zt zu (n.write l') refl

      with_tcp_lem :
          (l : n.Context) (tcp ip : Tag)
          → valid tcp (tcp_of l) ≡ true
          → valid ip (ip_of l) ≡ true
          → (r : n.Context × Tag) → n.build_tcp a p tcp l ≡ r
          → Outcome (with_tcp n info len id ip r)
      unfolding with_tcp
      with_tcp_lem l tcp ip vt vi (l', none) e = (refl, inl refl)
      with_tcp_lem l tcp ip vt vi (l', some t) e =
          let (et, zt, ki) = doc.tcp_built a p tcp l l' t vt e in
          with_ip_lem l' t ip et zt (ap (valid ip) ki ∙ vi) (n.build_ipv4 b ip l') refl

      -- A call with a tag that is -1 fails, and leaves one.
      stuck_ip :
          (r : n.Context × Tag)
          → r.1 ≡ none
          → let q = with_ip n len r in (is_minus_one q.1.0 ≡ true) × (q.1.1 ≡ failed)
      unfolding with_ip
      stuck_ip (l', none) e = (refl, refl)
      stuck_ip (l', some u) e = absurd cc

      pub stuck_tcp :
          (ip : Tag) (r : n.Context × Tag)
          → (is_minus_one r.1 || is_minus_one ip) ≡ true
          → let q = with_tcp n info len id ip r in
            ((is_minus_one q.1.0 || is_minus_one q.1.1.0) ≡ true) × (q.1.1.1 ≡ failed)
      unfolding with_tcp
      stuck_tcp ip (l, none) h = (refl, refl)
      stuck_tcp none (l, some t) h = stuck_ip (n.build_ipv4 b none l) (doc.ip_unknown b l)
      stuck_tcp (some u) (l, some t) h = absurd cc

      pub stuck_send :
          (c : n.Context) (tcp ip : Tag)
          → (is_minus_one tcp || is_minus_one ip) ≡ true
          → let q = send_raw_tcp n c info p id tcp ip in
            ((is_minus_one q.1.0 || is_minus_one q.1.1.0) ≡ true) × (q.1.1.1 ≡ failed)
      unfolding send_raw_tcp
      stuck_send c none ip h =
          stuck_tcp ip (n.build_tcp a p none c)
            (ap (λ o. is_minus_one o || is_minus_one ip) (doc.tcp_unknown a p c))
      stuck_send c (some t) none h = stuck_tcp none (n.build_tcp a p (some t) c) (ground arith)
      stuck_send c (some t) (some u) h = absurd cc

      Outcome_stuck :
          (q : n.Context × (Tag × (Tag × Written)))
          → (is_minus_one q.1.0 || is_minus_one q.1.1.0) ≡ true
          → q.1.1.1 ≡ failed
          → Outcome q
      Outcome_stuck (l, (tcp, (ip, w))) h e = (ground (arith, h), inl e)

      pub send_lem :
          (c : n.Context) (tcp ip : Tag)
          → (is_minus_one tcp || is_minus_one ip || valid tcp (tcp_of c) && valid ip (ip_of c))
            ≡ true
          → Outcome (send_raw_tcp n c info p id tcp ip)
      unfolding send_raw_tcp
      send_lem c tcp ip h = elim (Bool-cases (is_minus_one tcp || is_minus_one ip)) [
        | inl e ↦
            let (stays, fails) = stuck_send c tcp ip e in
            Outcome_stuck (send_raw_tcp n c info p id tcp ip) stays fails
        | inr e ↦
            with_tcp_lem c tcp ip (ground (arith, h, e)) (ground (arith, h, e))
              (n.build_tcp a p tcp c) refl
      ]
