-- ===== src/Conf/RConfig/Addr.antt =====
-- An address with a port is read back from its text.
use rsock.Base.{
  ℕ, ◌%◌, ◌^◌, ◌<◌, ◌≡◌, refl, sym, ap, ◌∙◌, Bool, true, false, not, ◌&&◌, Option, none, some, List,
  [], ◌∷◌, ◌++◌, arith, ltb, ◌==◌, if◌then◌else◌, of_digits, of_digits-to_string, all_digits,
  all_digits-to_string, starts_digit-to_string, lacks, starts_digit,
}
use rsock.Base
use rsock.Conf.PortList.{stoi}
use rsock.Conf.PortList.Scan.{stoi-to_string}
use rsock.Conf.RConfig.Json.{with_port}
use rsock.Conf.RConfig.{
  Text, Pton, valid_ip4, split_addr, address, port_part, ip_passes, parse_addr,
}

split_addr-colon :
    (ip rest : Text) → lacks b':' ip ≡ true → split_addr (ip ++ (b':' ∷ rest)) ≡ (ip, some rest)
unfolding split_addr
split_addr-colon [] rest h = refl
split_addr-colon (c ∷ ip) rest h = ground (arith, h, split_addr-colon ip rest)

split_addr-lacks : (ip : Text) → lacks b':' ip ≡ true → split_addr ip ≡ (ip, none)
unfolding split_addr
split_addr-lacks [] h = refl
split_addr-lacks (c ∷ ip) h = ground (arith, h, split_addr-lacks ip)

port_part-digits :
    (ip s : Text) (old n : ℕ)
    → starts_digit s ≡ true
    → all_digits s ≡ true
    → stoi s ≡ some n
    → 0 < n
    → n < 2 ^ 16
    → port_part true ip old (some s) ≡ address ip n
unfolding port_part
port_part-digits ip [] old n d a e p q = absurd (ground (arith, d))
port_part-digits ip (c ∷ s) old n d a e p q = ground (arith, a, e, p, q)

passes :
    (inet_pton : Text → Pton) (ip : Text) (rest : Option Text)
    → valid_ip4 (inet_pton ip) ≡ true
    → ip_passes inet_pton (ip, rest) ≡ true
unfolding ip_passes
passes inet_pton [] none h = h
passes inet_pton [] (some rest) h = refl
passes inet_pton (c ∷ ip) rest h = h

pub parse_addr-with_port :
    (inet_pton : Text → Pton) (ip : Text) (old port : ℕ)
    → lacks b':' ip ≡ true
    → valid_ip4 (inet_pton ip) ≡ true
    → 0 < port
    → port < 2 ^ 16
    → parse_addr inet_pton (with_port ip port) old true ≡ address ip port
unfolding parse_addr
parse_addr-with_port inet_pton ip old port h v p q =
    let s = Base.to_string port in
    ground (
      arith,
      split_addr-colon ip s h,
      passes inet_pton ip (some s) v,
      port_part-digits ip s old port (starts_digit-to_string port) (all_digits-to_string port)
          (stoi-to_string port q) p q,
    )

pub parse_addr-ip :
    (inet_pton : Text → Pton) (ip : Text) (old : ℕ)
    → lacks b':' ip ≡ true
    → valid_ip4 (inet_pton ip) ≡ true
    → parse_addr inet_pton ip old false ≡ address ip old
unfolding parse_addr port_part
parse_addr-ip inet_pton ip old h v =
    ground (arith, split_addr-lacks ip h, passes inet_pton ip none v)
