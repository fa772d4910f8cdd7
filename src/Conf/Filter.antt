-- ===== src/Conf/Filter.antt =====
-- `BuildFilterStr` of cap/cap_util.cpp: the text by which libpcap is told what to capture.
pub mod Laws
use Prim.Native.Char.{code}
use Prim.Native.String.{String}
use rsock.Base.{
  ℕ, zero, suc, Bool, true, false, ◌&&◌, Option, none, some, ◌>>=◌, List, [], ◌∷◌, ◌++◌, ◌==◌,
  if◌then◌else◌, to_string, length,
}
use rsock.Conf.PortList.{RPortList, PortPair}
use rsock.Conf.RConfig.Parse.{is_empty, is_empty_ports}

-- The bytes of a text in ASCII.
abbrev pub codes : String → List ℕ
codes String.[] = []
codes (String.◌∷◌ c s) = code c ∷ codes s

abbrev pub Text : Type 0
Text = List ℕ

pub ip_text : Bool → Text → Text
ip_text is_src [] = []
ip_text is_src (c ∷ ip) =
    codes " and "
    ++ (codes (if is_src then " (ip src " else " (ip dst ") ++ ((c ∷ ip) ++ codes ")"))

pub single_texts : Bool → List ℕ → Text
single_texts is_src [] = []
single_texts is_src (p ∷ ports) =
    codes (if is_src then " or src port " else " or dst port ")
    ++ (to_string p ++ single_texts is_src ports)

pub range_texts : Bool → List PortPair → Text
range_texts is_src [] = []
range_texts is_src (r ∷ ranges) =
    codes (if is_src then " or src portrange " else " or dst portrange ")
    ++ (to_string r.source ++ (b'-' ∷ (to_string r.dest ++ range_texts is_src ranges)))

-- The text without its first "or"; none where it has none.
pub remove_or : Text → Option Text
remove_or [] = none
remove_or (c ∷ []) = none
remove_or (c ∷ d ∷ s) =
    let rest = (do t ← remove_or (d ∷ s); some (c ∷ t)) in
    if c == b'o' && d == b'r' then some s else rest

-- None is the result false of the function.
unfoldable pub ports_text : Bool → RPortList → Option Text
unfolding single_texts range_texts remove_or
ports_text is_src ports = if is_empty_ports ports then some [] else (do
  s ← remove_or (
      b'('
      ∷ (single_texts is_src ports.single_ones
          ++ (range_texts is_src ports.valentines ++ codes " )")))
  some (codes " and " ++ s))

-- The text with its first "dst" replaced by "src"; none where it has none.
pub replace_dst : Text → Option Text
replace_dst [] = none
replace_dst (c ∷ []) = none
replace_dst (c ∷ d ∷ []) = none
replace_dst (c ∷ d ∷ e ∷ s) =
    let rest = (do t ← replace_dst (d ∷ e ∷ s); some (c ∷ t)) in
    if c == b'd' && (d == b's' && e == b't') then some (b's' ∷ b'r' ∷ b'c' ∷ s) else rest

-- The loop. Each round leaves a "dst" less, so the length of the text is fuel enough.
pub replace_all : ℕ → Text → Text
replace_all zero s = s
replace_all (suc fuel) s = elim (replace_dst s) [ none ↦ s | some t ↦ replace_all fuel t ]

pub for_server : Text → Text
unfolding replace_all replace_dst
for_server bak =
    codes "((tcp[tcpflags] & tcp-syn != 0) and "
    ++ (replace_all (length bak) bak
        ++ (codes ") or (" ++ (bak ++ codes "and (tcp[tcpflags] & (tcp-syn) == 0))")))

unfoldable pub build_filter_str : Text → Text → Text → RPortList → RPortList → Bool → Text
unfolding ip_text for_server
build_filter_str proto src_ip dst_ip src_ports dst_ports is_server =
    elim (do
      a ← ports_text true src_ports
      b ← ports_text false dst_ports
      some (proto ++ (ip_text true src_ip ++ (ip_text false dst_ip ++ (a ++ b))))) [
        | none ↦ []
        | some s ↦ if is_server then for_server s else s
      ]
