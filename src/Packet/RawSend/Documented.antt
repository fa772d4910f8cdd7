-- ===== src/Packet/RawSend/Documented.antt =====
-- What the documentation of libnet (`libnet-functions.h`) promises for the calls of conn/RawTcp.cpp.
use rsock.Base.{ℕ, ◌≡◌, Bool, true, false, not, ◌&&◌, Option, none, some, List, ◌==◌}
use rsock.Wire.TcpInfo.{TcpInfo}
use rsock.Packet.RawTcp.{ipproto_tcp}
use rsock.Packet.RawTcp.Laws.{tcp_header, ip_header}
use rsock.Packet.RawSend.{TcpArgs, IpArgs, Tag, Libnet}

-- A tag is 0 where there is no header of its kind yet, and else the one of that header.
abbrev pub valid : {B : Type 0} → Tag → Option (ℕ × B) → Bool
valid none h = false
valid (some t) none = t == 0
valid (some t) (some (u, b)) = t == u && not (t == 0)

-- The bytes of a packet with these headers; those that do not matter are `x`.
abbrev pub layout : (ℕ → ℕ) → TcpArgs → List ℕ → IpArgs → List ℕ
layout x a p b =
    let info : TcpInfo = record {
      conn = record { src = b.src; dst = b.dst; sp = a.sp; dp = a.dp };
      seq = a.seq;
      ack = a.ack;
      flag = a.control;
    } in
    ip_header x info b.ip_len (tcp_header x info p)

-- `libnet-functions.h`: a handle holds at most one header of each kind here. "protocol tag to modify
-- an existing header, 0 to build a new one"; "protocol tag value on success, -1 on error".
pub record IsDocumented (n : Libnet) : Type 0 where
  pub tcp_of : n.Context → Option (ℕ × (TcpArgs × List ℕ))
  pub ip_of : n.Context → Option (ℕ × IpArgs)
  pub tcp_built :
      (a : TcpArgs) (p : List ℕ) (tag : Tag) (c c' : n.Context) (t : ℕ)
      → valid tag (tcp_of c) ≡ true
      → n.build_tcp a p tag c ≡ (c', some t)
      → (tcp_of c' ≡ some (t, (a, p))) × ((t == 0) ≡ false) × (ip_of c' ≡ ip_of c)
  pub ip_built :
      (b : IpArgs) (tag : Tag) (c c' : n.Context) (t : ℕ)
      → valid tag (ip_of c) ≡ true
      → n.build_ipv4 b tag c ≡ (c', some t)
      → (ip_of c' ≡ some (t, b)) × ((t == 0) ≡ false) × (tcp_of c' ≡ tcp_of c)
  -- No header has the tag -1.
  pub tcp_unknown : (a : TcpArgs) (p : List ℕ) (c : n.Context) → (n.build_tcp a p none c).1 ≡ none
  pub ip_unknown : (b : IpArgs) (c : n.Context) → (n.build_ipv4 b none c).1 ≡ none
  pub write_keeps :
      (c : n.Context) → (tcp_of ((n.write c).0) ≡ tcp_of c) × (ip_of ((n.write c).0) ≡ ip_of c)
  pub write_layout :
      (c : n.Context) (t u : ℕ) (a : TcpArgs) (p : List ℕ) (b : IpArgs) (bytes : List ℕ)
      → tcp_of c ≡ some (t, (a, p))
      → ip_of c ≡ some (u, b)
      → b.prot ≡ ipproto_tcp
      → (n.write c).1 ≡ some bytes
      → (x : ℕ → ℕ) × (bytes ≡ layout x a p b)
