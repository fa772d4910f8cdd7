-- ===== src/Packet/Udp/Laws.antt =====
-- What the client sends over UDP, and why the server cannot be started with UDP.
use rsock.Base.{
  inl, inr, ℕ, ◌+◌, ◌≤◌, ◌≡◌, refl, ap, ◌∙◌, sym, subst, Bool, Bool-cases, true, false, not, ◌&&◌,
  ◌||◌, Option, none, some, ◌>>=◌, List, [], ◌∷◌, arith, ◌==◌, if◌then◌else◌, length, find,
  insert_new,
}
use rsock.Wire.ConnInfo.{ConnInfo}
use rsock.Wire.EncHead.{EncHead, IsValid}
use rsock.Wire.KeyGenerator.{Info, udp, type_udp, key_for_ports, key_for_udp}
use rsock.Packet.RConn.{to_udp, delivered, dispatch, contains_key, on_recv}
use rsock.Packet.RConn
use rsock.Packet.RConn.Laws.{on_recv-dispatch}
use rsock.Packet.Udp.{
  Sock, not_bound, bound, BtmUdpConn, no_info, create_btm_udp_conn, init, bind_one, with_conn,
  bind_all, bind_udp_conns, zeros, same_udp, add_udp_conns, keys_of, client_udp_conns,
  server_udp_conns, Datagram, output, send_udp,
}

-- A socket that is bound has a name, with a port that is not 0.
abbrev pub IsNamed : Sock → Type 0
IsNamed not_bound = Unit {0}
IsNamed (bound none starts) = false ≡ true
IsNamed (bound (some (src, sp)) starts) = (sp == 0) ≡ false

abbrev pub all_set : List ℕ → Bool
all_set [] = true
all_set (p ∷ ports) = not (p == 0) && all_set ports

-- The connection has the key of its ends and goes to this target.
abbrev pub Fits : ℕ → BtmUdpConn → Type 0
Fits target c =
    (key_for_udp c.info ≡ some c.key) × (c.info.dst ≡ target) × (c.src_info.dp ≡ c.info.sp)

abbrev pub AllFit : ℕ → List BtmUdpConn → Type 0
AllFit target [] = Unit {0}
AllFit target (c ∷ l) = Fits target c × AllFit target l

abbrev pub MapFits : ℕ → List (ℕ × BtmUdpConn) → Type 0
MapFits target [] = Unit {0}
MapFits target (p ∷ m) = (p.0 ≡ p.1.key) × Fits target p.1 × MapFits target m

abbrev OneFits : ℕ → Option BtmUdpConn → Type 0
OneFits target none = Unit {0}
OneFits target (some c) = Fits target c

bind_one-Fits :
    (s : Sock) (info : ConnInfo)
    → IsNamed s
    → (info.dp == 0) ≡ false
    → (o : Option BtmUdpConn) × (bind_one s info ≡ some o) × OneFits info.dst o
unfolding bind_one create_btm_udp_conn init key_for_udp
bind_one-Fits not_bound info n h = (none, refl, tt)
bind_one-Fits (bound none starts) info n h = absurd cc
bind_one-Fits (bound (some (src, sp)) starts) info n h =
    let key = key_for_ports type_udp sp info.dp in
    let ends : ConnInfo = record info { src = src; sp = sp } in
    let c : BtmUdpConn = record { key = key; info = ends; src_info = no_info } in
    let c' : BtmUdpConn = record c { src_info = record no_info { dst = src; dp = sp } } in
    let made : create_btm_udp_conn (bound (some (src, sp)) starts) info ≡ some (some c) =
      ground (arith, n, h) in
    let inited : init (some (src, sp)) starts c ≡ some (c', starts) = ground (arith, n, h) in
    elim (Bool-cases starts) [
      | inl e ↦ (some c', ground (arith, n, h, e), (ground (arith, n, h), refl, refl))
      | inr e ↦ (none, ground (arith, n, h, e), tt)
    ]

module _ (sock : ConnInfo → Sock) (named : (i : ConnInfo) → IsNamed (sock i)) (src dst : ℕ) where
  bind_all-AllFit :
      (ports : List ℕ)
      → all_set ports ≡ true
      → (l : List BtmUdpConn) × (bind_all sock src dst (zeros ports) ports ≡ some l) × AllFit dst l
  unfolding bind_all
  bind_all-AllFit [] h = ([], refl, tt)
  bind_all-AllFit (q ∷ ports) h =
      let info : ConnInfo = record { src = src; dst = dst; sp = 0; dp = q } in
      let (o, one, fits) = bind_one-Fits (sock info) info (named info) (ground (arith, h)) in
      let (l, rest, all) = bind_all-AllFit ports (ground (arith, h)) in
      (with_conn o l, ground (arith, one, rest), joined o l fits all)
    where
      joined :
          (o : Option BtmUdpConn) (l : List BtmUdpConn)
          → OneFits dst o
          → AllFit dst l
          → AllFit dst (with_conn o l)
      joined none l f all = all
      joined (some c) l f all = (f, all)

insert_new-MapFits :
    (target : ℕ) (c : BtmUdpConn) (m : List (ℕ × BtmUdpConn))
    → Fits target c
    → MapFits target m
    → MapFits target (insert_new same_udp c.key c m)
unfolding insert_new
insert_new-MapFits target c [] f h = (refl, f, tt)
insert_new-MapFits target c (p ∷ m) f (k, g, h) = elim (Bool-cases (c.key == p.0)) [
  | inl e ↦
      subst (λ b. MapFits target (if b then p ∷ m else p ∷ insert_new same_udp c.key c m)) (sym e)
        (k, g, h)
  | inr e ↦
      subst (λ b. MapFits target (if b then p ∷ m else p ∷ insert_new same_udp c.key c m)) (sym e)
        (k, g, insert_new-MapFits target c m f h)
]

add_udp_conns-MapFits :
    (target : ℕ) (l : List BtmUdpConn) (m : List (ℕ × BtmUdpConn))
    → AllFit target l
    → MapFits target m
    → MapFits target (add_udp_conns l m)
unfolding add_udp_conns
add_udp_conns-MapFits target [] m a h = h
add_udp_conns-MapFits target (c ∷ l) m (f, a) h =
    add_udp_conns-MapFits target l (insert_new same_udp c.key c m) a
      (insert_new-MapFits target c m f h)

find-Fits :
    (target key : ℕ) (m : List (ℕ × BtmUdpConn)) (p : ℕ × BtmUdpConn)
    → MapFits target m
    → find same_udp key m ≡ some p
    → (p.1.key ≡ key) × Fits target p.1 × (contains_key key (keys_of m) ≡ true)
unfolding find
find-Fits target key [] p h e = absurd cc
find-Fits target key (q ∷ m) p (k, f, h) e = elim (Bool-cases (key == q.0)) [
  | inl t ↦
      let same : q ≡ p = ground (arith, t, e) in
      (
        subst (λ (r : ℕ × BtmUdpConn). r.1.key ≡ key) same (ground (arith, t, k)),
        subst (λ (r : ℕ × BtmUdpConn). Fits target r.1) same f,
        ground (arith, t),
      )
  | inr t ↦
      let (a, b, c) = find-Fits target key m p h (ground (arith, t, e)) in (a, b, ground (arith, c))
]

pub client_udp_conns-MapFits :
    (sock : ConnInfo → Sock) (self target q : ℕ) (ports : List ℕ)
    → ((i : ConnInfo) → IsNamed (sock i))
    → all_set (q ∷ ports) ≡ true
    → (conns : List (ℕ × BtmUdpConn)) × (client_udp_conns sock self target (q ∷ ports) ≡ some conns)
      × MapFits target conns
unfolding client_udp_conns bind_udp_conns
client_udp_conns-MapFits sock self target q ports named set =
    let (l, all, fit) = bind_all-AllFit sock named self target (q ∷ ports) set in
    (
      add_udp_conns l [],
      ap (λ o. (do l ← o; some (add_udp_conns l []))) all,
      add_udp_conns-MapFits target l [] fit tt,
    )

some_same : {A : Type 0} {a b : A} (o : Option A) → o ≡ some a → o ≡ some b → a ≡ b
some_same none p q = absurd cc
some_same (some x) p q = cc

module _ (md5 : List ℕ → List ℕ) (digest : (m : List ℕ) → length (md5 m) ≡ 16) (hash_key : List ℕ)
    (sock : ConnInfo → Sock) (named : (i : ConnInfo) → IsNamed (sock i)) (self target q : ℕ)
    (ports : List ℕ) where
  -- Where every socket that is bound has a name with a port, and no port of the configuration is 0: a
  -- payload that fits a packet, sent over a UDP connection of the client, leaves by the socket of that
  -- connection, for the target and the port of the connection, as a datagram with the packet. From
  -- that packet whoever gets it with the same key delivers the payload and the head.
  pub on_recv-send_udp :
      (conns : List (ℕ × BtmUdpConn)) (key : ℕ) (c : ℕ × BtmUdpConn) (at : Info) (head : EncHead)
      (d : ℕ) (p : List ℕ)
      → all_set (q ∷ ports) ≡ true
      → client_udp_conns sock self target (q ∷ ports) ≡ some conns
      → find same_udp key conns ≡ some c
      → IsValid head
      → 31 + length (d ∷ p) ≤ 1500
      → (packet : List ℕ) × (sent : Datagram) × (RConn.output md5 hash_key
            (keys_of conns)
            (udp c.1.info)
            head
            (d ∷ p)
          ≡ to_udp key packet)
        × (send_udp conns key c.1.info packet ≡ some sent)
        × (sent ≡ record {
          src = c.1.info.src;
          sp = c.1.info.sp;
          dst = target;
          dp = c.1.info.dp;
          data_ = packet;
        })
        × (on_recv md5 hash_key at packet ≡ delivered (record head { len = 23 }) (d ∷ p))
  unfolding send_udp output
  on_recv-send_udp conns key c at head d p set made found valid room =
      let (conns', made', fit') = client_udp_conns-MapFits sock self target q ports named set in
      let fit : MapFits target conns = subst (MapFits target) (some_same _ made' made) fit' in
      let (keyed, (for_udp, aim, ready), there) = find-Fits target key conns c fit found in
      let (packet, out, long, got) =
        on_recv-dispatch md5 digest hash_key (keys_of conns) (udp c.1.info) at head d p valid
          room in
      (
        packet,
        output c.1 c.1.info packet,
        out ∙ ground (arith, for_udp, keyed, there),
        ground (arith, found),
        ground (arith, aim),
        got,
      )

abbrev pub is_bound : Sock → Bool
is_bound not_bound = false
is_bound (bound name starts) = true

-- Whether one of the ports can be bound.
abbrev pub any_bound : (ConnInfo → Sock) → ℕ → List ℕ → Bool
any_bound sock self [] = false
any_bound sock self (p ∷ ports) =
    is_bound (sock (record { src = self; dst = 0; sp = p; dp = 0 })) || any_bound sock self ports

bind_one-no_peer :
    (s : Sock) (self p : ℕ)
    → bind_one s (record { src = self; dst = 0; sp = p; dp = 0 })
      ≡ (if is_bound s then none else some none)
unfolding bind_one create_btm_udp_conn key_for_udp
bind_one-no_peer not_bound self p = refl
bind_one-no_peer (bound none starts) self p = ground arith
bind_one-no_peer (bound (some (src, sp)) starts) self p = ground arith

bind_all-no_peer :
    (sock : ConnInfo → Sock) (self : ℕ) (ports : List ℕ)
    → bind_all sock self 0 ports (zeros ports)
      ≡ (if any_bound sock self ports then none else some [])
unfolding bind_all
bind_all-no_peer sock self [] = refl
bind_all-no_peer sock self (p ∷ ports) =
    let s = sock (record { src = self; dst = 0; sp = p; dp = 0 }) in
    ground (arith, bind_one-no_peer s self p, bind_all-no_peer sock self ports)

-- The server with UDP and a port: the assertion on the ports of a key fails as soon as one of its
-- ports can be bound, since the port of the peer is 0, and where none can be bound it has no UDP
-- connection.
pub server_udp_conns_lem :
    (sock : ConnInfo → Sock) (self p : ℕ) (ports : List ℕ)
    → server_udp_conns sock self (p ∷ ports)
      ≡ (if any_bound sock self (p ∷ ports) then none else some [])
unfolding server_udp_conns bind_udp_conns add_udp_conns
server_udp_conns_lem sock self p ports = ground (arith, bind_all-no_peer sock self (p ∷ ports))
