-- ===== src/Setup/Devices/Laws.antt =====
-- A device that is found by its name or by the gateway has the address that is found with it.
use rsock.Base.{
  ℕ, ◌<◌, ◌^◌, ◌≡◌, ◌⊎◌, refl, sym, ap, subst, ◌∙◌, inl, inr, Bool, Bool-cases, true, false, ◌&&◌,
  Option, Option-cases, none, some, ◌>>=◌, List, [], ◌∷◌, arith, if◌then◌else◌, bytes_eq,
  bytes_eq_iff,
}
use rsock.App.ConvKey.{in_addr2ip}
use rsock.Setup.Devices.{
  Address, Device, first_with, first_device, any_device, has_addr, same_network, ipv4_of_dev,
  dev_with_ipv4, dev_ip_match, get_iface_info, get_wan_info, get_def_gateway, Gateway,
}

-- The address that is found is of the kind, and another search for a kind that it is of finds one.
first_with_lem :
    (t u : Address → Bool) (l : List Address) (a : Address)
    → first_with t l ≡ some a
    → (t a ≡ true) × (u a ≡ true → (b : Address) × (first_with u l ≡ some b))
unfolding first_with
first_with_lem t u [] a h = absurd (cc)
first_with_lem t u (x ∷ l) a h = elim (Bool-cases (t x)) [
  | inl e ↦
      let same : x ≡ a = ground (arith, h, e) in
      (
        subst (λ y. t y ≡ true) same e,
        λ k. (x, ap (λ (b : Bool). if b then some x else first_with u l) (ap u same ∙ k)),
      )
  | inr e ↦
      let (p, q) = first_with_lem t u l a (ground (arith, h, e)) in
      (
        p,
        λ k. elim (Bool-cases (u x)) [
          | inl f ↦ (x, ap (λ (b : Bool). if b then some x else first_with u l) f)
          | inr f ↦
              let (b, g) = q k in (b, ap (λ (b : Bool). if b then some x else first_with u l) f ∙ g)
        ],
      )
]

-- The address is at devices of this name only.
abbrev pub OnlyAt : ℕ → List ℕ → List Device → Type 0
OnlyAt n name [] = Unit {0}
OnlyAt n name (d ∷ l) =
    ((a : Address) → first_with (has_addr n) d.addresses ≡ some a → d.name ≡ name) × OnlyAt n name l

module _ (n : ℕ) (name : List ℕ) where
  found_in :
      (d : Device) (l : List Device) (o : Option Address)
      → ((a : Address) → o ≡ some a → d.name ≡ name)
      → ((e : Device) × (b : Address) × (first_device any_device (has_addr n) l ≡ some (e, b))
          × (e.name ≡ name))
      → (e : Device) × (b : Address) × (elim o as (λ _. Option (Device × Address)) [
        | none ↦ first_device any_device (has_addr n) l
        | some a ↦ some (d, a)
      ]
          ≡ some (e, b))
        × (e.name ≡ name)
  found_in d l none only rest = rest
  found_in d l (some a) only rest = (d, a, refl, only a refl)

  found_here :
      (d : Device) (l : List Device) (o : Option Address) (b : Address)
      → o ≡ some b
      → ((a : Address) → o ≡ some a → d.name ≡ name)
      → (e : Device) × (b : Address) × (elim o as (λ _. Option (Device × Address)) [
        | none ↦ first_device any_device (has_addr n) l
        | some a ↦ some (d, a)
      ]
          ≡ some (e, b))
        × (e.name ≡ name)
  found_here d l none b h only = absurd (cc)
  found_here d l (some a) b h only = (d, a, refl, only a refl)

  -- What one search finds, the search for its address finds at a device of that name.
  first_device_lem :
      (is_device : Device → Bool) (test : Address → Bool) (l : List Device) (d : Device)
      (a : Address)
      → first_device is_device test l ≡ some (d, a)
      → ((x : Address) → test x ≡ true → x.is_inet ≡ true)
      → a.addr ≡ n
      → OnlyAt n name l
      → (e : Device) × (b : Address) × (first_device any_device (has_addr n) l ≡ some (e, b))
        × (e.name ≡ name)
  unfolding first_device
  first_device_lem is_device test [] d a h inet same only = absurd (cc)
  first_device_lem is_device test (x ∷ l) d a h inet same only = elim (Bool-cases (is_device x)) [
    | inl e ↦ elim (Option-cases (first_with test x.addresses)) [
      | inl f ↦
          found_in x l (first_with (has_addr n) x.addresses) only.0
            (first_device_lem is_device test l d a (ground (arith, h, e, f)) inet same only.1)
      | inr (a', f) ↦
          let it : a' ≡ a = ground (arith, h, e, f) in
          let (p, q) = first_with_lem test (has_addr n) x.addresses a' f in
          let has : has_addr n a' ≡ true = ground (arith, inet a' p, it, same) in
          let (b, g) = q has in found_here x l (first_with (has_addr n) x.addresses) b g only.0
    ]
    | inr e ↦
        found_in x l (first_with (has_addr n) x.addresses) only.0
          (first_device_lem is_device test l d a (ground (arith, h, e)) inet same only.1)
  ]

-- The device that is found by a name has that name.
first_device-named :
    (dev : List ℕ) (test : Address → Bool) (l : List Device) (d : Device) (a : Address)
    → first_device (λ d. bytes_eq dev d.name) test l ≡ some (d, a)
    → d.name ≡ dev
unfolding first_device
first_device-named dev test [] d a h = absurd (cc)
first_device-named dev test (x ∷ l) d a h = elim (Bool-cases (bytes_eq dev x.name)) [
  | inl e ↦ elim (Option-cases (first_with test x.addresses)) [
    | inl f ↦ first_device-named dev test l d a (ground (arith, h, e, f))
    | inr (a', f) ↦
        let it : x ≡ d = ground (arith, h, e, f) in
        ap (λ (d : Device). d.name) (sym it) ∙ sym ((bytes_eq_iff dev x.name).0 e)
  ]
  | inr e ↦ first_device-named dev test l d a (ground (arith, h, e))
]

-- The device stays as it was, or the one that is found for the address matches it.
pub dev_with_ipv4-match :
    (devices : Option (List Device)) (inet_addr : List ℕ → ℕ) (dev ip : List ℕ)
    → ((dev_with_ipv4 devices inet_addr dev ip).0 ≡ dev)
      ⊎ (dev_ip_match devices inet_addr (dev_with_ipv4 devices inet_addr dev ip).0 ip ≡ true)
unfolding dev_with_ipv4 dev_ip_match
dev_with_ipv4-match devices inet_addr dev ip =
    chosen (do l ← devices; first_device any_device (has_addr (inet_addr ip)) l)
  where
    result : List ℕ → Option (Device × Address) → List ℕ × Bool
    result dev o = elim o [ none ↦ (dev, false) | some (d, a) ↦ (d.name, true) ]

    chosen :
        (o : Option (Device × Address))
        → ((result dev o).0 ≡ dev)
          ⊎ (((result [] o).1 && bytes_eq (result [] o).0 (result dev o).0) ≡ true)
    chosen none = inl refl
    chosen (some (d, a)) = inr ((bytes_eq_iff d.name d.name).1 refl)

abbrev pub AreWords : List Address → Type 0
AreWords [] = Unit {0}
AreWords (a ∷ l) = (a.addr < 2 ^ 32) × AreWords l

abbrev pub AllWords : List Device → Type 0
AllWords [] = Unit {0}
AllWords (d ∷ l) = AreWords d.addresses × AllWords l

first_with-word :
    (t : Address → Bool) (l : List Address) (a : Address)
    → first_with t l ≡ some a
    → AreWords l
    → a.addr < 2 ^ 32
unfolding first_with
first_with-word t [] a h w = absurd (cc)
first_with-word t (x ∷ l) a h w = elim (Bool-cases (t x)) [
  | inl e ↦
      let same : x ≡ a = ground (arith, h, e) in subst (λ (y : Address). y.addr < 2 ^ 32) same w.0
  | inr e ↦ first_with-word t l a (ground (arith, h, e)) w.1
]

-- What is found has an address of 32 bits, and the one name of its address.
first_device-owner :
    (is_device : Device → Bool) (test : Address → Bool) (l : List Device) (d : Device) (a : Address)
    (name : List ℕ)
    → first_device is_device test l ≡ some (d, a)
    → ((x : Address) → test x ≡ true → x.is_inet ≡ true)
    → AllWords l
    → OnlyAt a.addr name l
    → (a.addr < 2 ^ 32) × (d.name ≡ name)
unfolding first_device
first_device-owner is_device test [] d a name h inet w only = absurd (cc)
first_device-owner is_device test (x ∷ l) d a name h inet w only = elim (Bool-cases (is_device x)) [
  | inl e ↦ elim (Option-cases (first_with test x.addresses)) [
    | inl f ↦ first_device-owner is_device test l d a name (ground (arith, h, e, f)) inet w.1 only.1
    | inr (a', f) ↦
        let it : a' ≡ a = ground (arith, h, e, f) in
        let here : x ≡ d = ground (arith, h, e, f) in
        let (p, q) = first_with_lem test (has_addr a.addr) x.addresses a' f in
        let has : has_addr a.addr a' ≡ true = ground (arith, inet a' p, it) in
        let (b, g) = q has in
        (
          subst (λ (y : Address). y.addr < 2 ^ 32) it (first_with-word test x.addresses a' f w.0),
          ap (λ (y : Device). y.name) (sym here) ∙ only.0 b g,
        )
  ]
  | inr e ↦ first_device-owner is_device test l d a name (ground (arith, h, e)) inet w.1 only.1
]

module _ (inet_addr : List ℕ → ℕ) (reads : (n : ℕ) → n < 2 ^ 32 → inet_addr (in_addr2ip n) ≡ n)
    (owner : ℕ → List ℕ) (l : List Device) (words : AllWords l)
    (distinct : (n : ℕ) → OnlyAt n (owner n) l) where
  match_found :
      (is_device : Device → Bool) (test : Address → Bool) (d : Device) (a : Address)
      → first_device is_device test l ≡ some (d, a)
      → ((x : Address) → test x ≡ true → x.is_inet ≡ true)
      → dev_ip_match (some l) inet_addr d.name (in_addr2ip a.addr) ≡ true
  unfolding dev_ip_match
  match_found is_device test d a h inet =
      let (small, named) =
        first_device-owner is_device test l d a (owner a.addr) h inet words (distinct a.addr) in
      let (e, b, found, name) =
        first_device_lem a.addr (owner a.addr) is_device test l d a h inet refl (distinct a.addr) in
      let same = (bytes_eq_iff e.name d.name).1 (name ∙ sym named) in
      let read = ap (λ n. first_device any_device (has_addr n) l) (reads a.addr small) in
      ground (arith, found, same, read)

  -- On such a machine the text that `ipv4OfDev` gives for a device matches it.
  pub dev_ip_match-ipv4_of_dev :
      (dev ip : List ℕ)
      → ipv4_of_dev (some l) dev ≡ some ip
      → dev_ip_match (some l) inet_addr dev ip ≡ true
  unfolding ipv4_of_dev
  dev_ip_match-ipv4_of_dev dev ip h =
      elim (Option-cases (first_device (λ d. bytes_eq dev d.name) (λ a. a.is_inet) l)) [
        | inl e ↦ absurd (ground (arith, h, e))
        | inr ((d, a), e) ↦
            let it : in_addr2ip a.addr ≡ ip = ground (arith, h, e) in
            let named = first_device-named dev (λ a. a.is_inet) l d a e in
            subst (λ i. dev_ip_match (some l) inet_addr dev i ≡ true) it
              (subst (λ n. dev_ip_match (some l) inet_addr n (in_addr2ip a.addr) ≡ true) named
                (match_found (λ d. bytes_eq dev d.name) (λ a. a.is_inet) d a e (λ x k. k)))
      ]

  get_iface_info-match :
      (gw : ℕ) (name ip : List ℕ)
      → get_iface_info (some l) gw ≡ some (name, ip)
      → dev_ip_match (some l) inet_addr name ip ≡ true
  unfolding get_iface_info
  get_iface_info-match gw name ip h =
      elim (Option-cases (first_device any_device (same_network gw) l)) [
        | inl e ↦ absurd (ground (arith, h, e))
        | inr ((d, a), e) ↦
            let it : in_addr2ip a.addr ≡ ip = ground (arith, h, e) in
            let named : d.name ≡ name = ground (arith, h, e) in
            subst (λ i. dev_ip_match (some l) inet_addr name i ≡ true) it
              (subst (λ n. dev_ip_match (some l) inet_addr n (in_addr2ip a.addr) ≡ true) named
                (match_found any_device (same_network gw) d a e (λ x k. ground (arith, k))))
      ]

  -- On a machine whose IPv4 addresses are at devices of one name each, and whose `inet_addr` reads the
  -- text of an address back, the device and the text that `GetWanInfo` gives match.
  pub dev_ip_match-get_wan_info :
      (opened : Bool) (route_get : ℕ → Option Gateway) (targets : List (List ℕ)) (name ip : List ℕ)
      → get_wan_info (some l) opened route_get inet_addr targets ≡ some (name, ip)
      → dev_ip_match (some l) inet_addr name ip ≡ true
  unfolding get_wan_info
  dev_ip_match-get_wan_info opened route_get targets name ip h =
      elim (Option-cases (get_def_gateway opened route_get inet_addr targets)) [
        | inl e ↦ absurd (ground (arith, h, e))
        | inr (gw, e) ↦ elim (Bool-cases gw.is_ip) [
          | inl f ↦ get_iface_info-match gw.ip name ip (ground (arith, h, e, f))
          | inr f ↦ absurd (ground (arith, h, e, f))
        ]
      ]
