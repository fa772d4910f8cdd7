-- ===== src/Conf/RConfig.antt =====
-- bean/RConfig.cpp: addresses and types of connections as texts. A text is its bytes.
pub mod Addr
pub mod Json
pub mod Parse
use Prim.Native.Nat.{bit_or}
use rsock.Base.{
  ℕ, ◌+◌, ◌-◌, ◌%◌, ◌^◌, Bool, true, false, not, ◌&&◌, ◌||◌, Option, none, some, ◌>>=◌, List, [],
  ◌∷◌, ◌++◌, ltb, leb, ◌==◌, if◌then◌else◌, length, all_digits, bytes_eq,
}
use rsock.Base
use rsock.Conf.PortList.{RPortList, Parsed, accepted, rejected, thrown, from_string, stoi}
use rsock.Conf.PortList

abbrev pub Text : Type 0
Text = List ℕ

-- OM_PIPE_TCP, OM_PIPE_UDP and OM_PIPE_ALL.
abbrev pub om_pipe_tcp : ℕ
om_pipe_tcp = bit_or 0b0010 0b0001

abbrev pub om_pipe_udp : ℕ
om_pipe_udp = bit_or 0b0100 0b1000

abbrev pub om_pipe_all : ℕ
om_pipe_all = bit_or om_pipe_tcp om_pipe_udp

abbrev tcp_text : Text
tcp_text = b't' ∷ b'c' ∷ b'p' ∷ []

abbrev udp_text : Text
udp_text = b'u' ∷ b'd' ∷ b'p' ∷ []

abbrev all_text : Text
all_text = b'a' ∷ b'l' ∷ b'l' ∷ []

abbrev invalid_text : Text
invalid_text = b'i' ∷ b'n' ∷ b'v' ∷ b'a' ∷ b'l' ∷ b'i' ∷ b'd' ∷ []

pub type_of_str : Text → ℕ
type_of_str s =
    if bytes_eq s tcp_text
    then om_pipe_tcp
    else if bytes_eq s udp_text
    then om_pipe_udp
    else if bytes_eq s all_text
    then om_pipe_all
    else om_pipe_tcp

pub str_of_type : ℕ → Text
str_of_type t =
    if t == om_pipe_tcp
    then tcp_text
    else if t == om_pipe_udp
    then udp_text
    else if t == om_pipe_all
    then all_text
    else invalid_text

-- What `inet_pton` returns for AF_INET and a text: 1, 0 or -1.
pub data Pton : Type 0 where
  converted : Pton
  not_an_address : Pton
  no_such_family : Pton

-- `ValidIp4` of util/rhash.cpp, by what `inet_pton` returns.
abbrev pub valid_ip4 : Pton → Bool
valid_ip4 converted = true
valid_ip4 not_an_address = true
valid_ip4 no_such_family = false

-- The text before the first ':', and the one behind it if there is one.
pub split_addr : Text → Text × Option Text
split_addr [] = ([], none)
split_addr (c ∷ s) =
    let (ip, rest) = split_addr s in if c == b':' then ([], some s) else (c ∷ ip, rest)

-- How `parseAddr` ends: it fills the address and the port, it returns false, or an exception of
-- `std::stoi` passes through it.
pub data Address : Type 0 where
  address : Text → ℕ → Address
  refused : Address
  stoi_throws : Address

-- The part from the port on; `port` is what the caller's variable holds before.
port_part : Bool → Text → ℕ → Option Text → Address
port_part false ip port rest = address ip port
port_part true ip port none = refused
port_part true ip port (some []) = refused
port_part true ip port (some (c ∷ s)) =
    if all_digits (c ∷ s)
    then elim (stoi (c ∷ s)) [
      | none ↦ stoi_throws
      | some n ↦ if n % 2 ^ 16 == 0 then refused else address ip (n % 2 ^ 16)
    ]
    else refused

module _ (inet_pton : Text → Pton) where
  -- The test of the address is left out where ':' is the first character.
  ip_passes : Text × Option Text → Bool
  ip_passes ([], some rest) = true
  ip_passes (ip, rest) = valid_ip4 (inet_pton ip)

  unfoldable pub parse_addr : Text → ℕ → Bool → Address
  unfolding port_part ip_passes split_addr
  parse_addr addr port use_port =
      let (ip, rest) = split_addr addr in
      if ip_passes (ip, rest) then port_part use_port ip port rest else refused
