-- ===== src/Setup/Devices.antt =====
-- The devices of the machine: cap/cap_util.cpp and src/singletons/RouteManager.cpp. The list that
-- `pcap_findalldevs` makes, what `inet_addr` reads and what `route_get` answers are arguments; none is
-- a failure. A text is its bytes.
pub mod Laws
use Prim.Native.Nat.{bit_and}
use rsock.Base.{
  ℕ, Bool, true, false, ◌&&◌, ◌||◌, Option, none, some, ◌>>=◌, List, [], ◌∷◌, ◌++◌, ◌==◌,
  if◌then◌else◌, bytes_eq,
}
use rsock.App.ConvKey.{in_addr2ip}

-- A `pcap_addr`, whose family is AF_INET or another; the numbers are `s_addr`.
pub record Address : Type 0 where
  pub is_inet : Bool
  pub addr : ℕ
  pub netmask : ℕ

pub record Device : Type 0 where
  pub name : List ℕ
  pub addresses : List Address

-- The first address of the kind that is looked for.
pub first_with : (Address → Bool) → List Address → Option Address
first_with test [] = none
first_with test (a ∷ l) = let rest = first_with test l in if test a then some a else rest

-- The first device and address of which it holds.
pub first_device : (Device → Bool) → (Address → Bool) → List Device → Option (Device × Address)
first_device is_device test [] = none
first_device is_device test (d ∷ l) =
    let rest = first_device is_device test l in
    if is_device d
    then elim (first_with test d.addresses) [ none ↦ rest | some a ↦ some (d, a) ]
    else rest

abbrev any_device : Device → Bool
any_device d = true

-- The text of the address, and none for -1.
pub ipv4_of_dev : Option (List Device) → List ℕ → Option (List ℕ)
unfolding first_device first_with
ipv4_of_dev devices dev = do
  l ← devices
  (d, a) ← first_device (λ d. bytes_eq dev d.name) (λ a. a.is_inet) l
  some (in_addr2ip a.addr)

abbrev pub has_addr : ℕ → Address → Bool
has_addr n a = a.is_inet && a.addr == n

-- The name, which stays where there is no such device, and whether 0 is returned.
pub dev_with_ipv4 : Option (List Device) → (List ℕ → ℕ) → List ℕ → List ℕ → List ℕ × Bool
unfolding first_device first_with
dev_with_ipv4 devices inet_addr dev ip =
    elim (do l ← devices; first_device any_device (has_addr (inet_addr ip)) l) [
      | none ↦ (dev, false)
      | some (d, a) ↦ (d.name, true)
    ]

unfoldable pub dev_ip_match : Option (List Device) → (List ℕ → ℕ) → List ℕ → List ℕ → Bool
unfolding dev_with_ipv4
dev_ip_match devices inet_addr dev ip =
    let (d, found) = dev_with_ipv4 devices inet_addr [] ip in found && bytes_eq d dev

-- In the network of the gateway.
abbrev pub same_network : ℕ → Address → Bool
same_network gw a = a.is_inet && bit_and a.addr a.netmask == bit_and gw a.netmask

-- The name of the device and the text of its address.
pub get_iface_info : Option (List Device) → ℕ → Option (List ℕ × List ℕ)
unfolding first_device first_with
get_iface_info devices gw = do
  l ← devices
  (d, a) ← first_device any_device (same_network gw) l
  some (d.name, in_addr2ip a.addr)

-- A `struct addr`, an IPv4 address or another.
pub record Gateway : Type 0 where
  pub is_ip : Bool
  pub ip : ℕ

abbrev pub ali : List ℕ
ali = b'2' ∷ b'2' ∷ b'3' ∷ b'.' ∷ b'5' ∷ b'.' ∷ b'5' ∷ b'.' ∷ b'5' ∷ []

-- The constructor: three rounds of the loop, which do not read its variable.
abbrev pub connect_target : List (List ℕ) → List (List ℕ)
connect_target dns = dns ++ (ali ∷ ali ∷ ali ∷ [])

-- The first target to which there is a route; `route_get` is asked for the value of `inet_addr`.
pub first_route : (ℕ → Option Gateway) → (List ℕ → ℕ) → List (List ℕ) → Option Gateway
first_route route_get inet_addr [] = none
first_route route_get inet_addr (e ∷ targets) =
    let rest = first_route route_get inet_addr targets in
    elim (route_get (inet_addr e)) [ none ↦ rest | some gw ↦ some gw ]

-- `opened` is whether `route_open` gives a table.
pub get_def_gateway : Bool → (ℕ → Option Gateway) → (List ℕ → ℕ) → List (List ℕ) → Option Gateway
unfolding first_route
get_def_gateway opened route_get inet_addr targets =
    if opened then first_route route_get inet_addr targets else none

unfoldable pub get_wan_info :
    Option (List Device)
    → Bool
    → (ℕ → Option Gateway)
    → (List ℕ → ℕ)
    → List (List ℕ)
    → Option (List ℕ × List ℕ)
unfolding get_def_gateway get_iface_info
get_wan_info devices opened route_get inet_addr targets = do
  gw ← get_def_gateway opened route_get inet_addr targets
  (if gw.is_ip then get_iface_info devices gw.ip else none)

-- The reference to the first target of none is not defined: none.
abbrev add_target_front : List ℕ → List (List ℕ) → Option (List (List ℕ))
add_target_front [] targets = some targets
add_target_front (c ∷ target) [] = none
add_target_front (c ∷ target) (t ∷ targets) =
    some (if bytes_eq t (c ∷ target) then (c ∷ target) ∷ targets else (c ∷ target) ∷ t ∷ targets)
