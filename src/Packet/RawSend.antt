-- ===== src/Packet/RawSend.antt =====
-- conn/RawTcp.cpp: how a packet leaves, and what a change of the network does to it. libnet is the
-- interface `Libnet`, whose handle `libnet_init` gives; a tag of a header is a number, or `none` for
-- the -1 of a failure. Payloads are lists, so that `nread` is not negative.
pub mod Documented
pub mod Laws
pub mod State
pub mod Tcp
use rsock.Base.{
  ℕ, ◌+◌, ◌%◌, ◌^◌, Bool, true, false, not, Option, none, some, List, [], ◌∷◌, ◌==◌, if◌then◌else◌,
  length,
}
use rsock.Wire.TcpInfo.{TcpInfo}
use rsock.Packet.RawTcp.{dlt_en10mb, ipproto_tcp}

-- The arguments of `libnet_build_tcp`, less the payload and the tag.
pub record TcpArgs : Type 0 where
  pub sp : ℕ
  pub dp : ℕ
  pub seq : ℕ
  pub ack : ℕ
  pub control : ℕ
  pub win : ℕ
  pub sum : ℕ
  pub urg : ℕ
  pub len : ℕ

-- Those of `libnet_build_ipv4`, which gets no payload here.
pub record IpArgs : Type 0 where
  pub ip_len : ℕ
  pub tos : ℕ
  pub id : ℕ
  pub frag : ℕ
  pub ttl : ℕ
  pub prot : ℕ
  pub sum : ℕ
  pub src : ℕ
  pub dst : ℕ

abbrev pub Tag : Type 0
Tag = Option ℕ

-- The calls of libnet, each with what it makes of its handle; `write` with the bytes it writes.
pub record Libnet : Type 1 where
  pub Context : Type 0
  pub build_tcp : TcpArgs → List ℕ → Tag → Context → Context × Tag
  pub build_ipv4 : IpArgs → Tag → Context → Context × Tag
  pub write : Context → Context × Option (List ℕ)

-- `LIBNET_TCP_H` and `LIBNET_IPV4_H`
abbrev pub libnet_tcp_h : ℕ
libnet_tcp_h = 20

abbrev pub libnet_ipv4_h : ℕ
libnet_ipv4_h = 20

abbrev ip_df : ℕ
ip_df = 0x4000

-- `OM_TTL_OUT`
abbrev om_ttl_out : ℕ
om_ttl_out = 64

-- What a call of `Output` does: it writes these bytes and returns the length of the payload, or it
-- returns -1 and asks for a look at the network.
pub data Written : Type 0 where
  wrote : List ℕ → ℕ → Written
  failed : Written

abbrev pub is_failed : Written → Bool
is_failed (wrote bytes n) = false
is_failed failed = true

module _ (n : Libnet) where
  open n use {Context, build_tcp, build_ipv4, write}

  pub record RawTcp : Type 0 where
    pub datalink : ℕ
    pub ip_id : ℕ
    pub net : Option Context
    pub tcp_tag : Tag
    pub ip_tag : Tag

  abbrev pub tcp_args : TcpInfo → ℕ → TcpArgs
  tcp_args info payload_len = record {
    sp = info.sp;
    dp = info.dp;
    seq = info.seq;
    ack = info.ack;
    control = info.flag;
    win = 65535;
    sum = 0;
    urg = 0;
    len = payload_len + libnet_tcp_h;
  }

  abbrev pub ip_args : TcpInfo → ℕ → ℕ → IpArgs
  ip_args info payload_len ip_id = record {
    ip_len = payload_len + libnet_tcp_h + libnet_ipv4_h;
    tos = 0;
    id = ip_id;
    frag = ip_df;
    ttl = om_ttl_out;
    prot = ipproto_tcp;
    sum = 0;
    src = info.src;
    dst = info.dst;
  }

  -- `SendRawTcp` from `libnet_write` on: the handle, and what is returned.
  unfoldable pub written : ℕ → Context × Option (List ℕ) → Context × Written
  written payload_len (l, none) = (l, failed)
  written payload_len (l, some bytes) = (l, wrote bytes payload_len)

  -- The same from `libnet_build_ipv4` on, with the second tag.
  unfoldable pub with_ip : ℕ → Context × Tag → Context × (Tag × Written)
  unfolding written
  with_ip payload_len (l, none) = (l, (none, failed))
  with_ip payload_len (l, some t) = let (l', w) = written payload_len (write l) in (l', (some t, w))

  unfoldable pub with_tcp :
      TcpInfo → ℕ → ℕ → Tag → Context × Tag → Context × (Tag × (Tag × Written))
  unfolding with_ip
  with_tcp info payload_len ip_id ip (l, none) = (l, (none, (ip, failed)))
  with_tcp info payload_len ip_id ip (l, some t) =
      let r = with_ip payload_len (build_ipv4 (ip_args info payload_len ip_id) ip l) in
      (r.0, (some t, r.1))

  -- Both tags are passed by reference. `payload_len` is a `uint16_t`.
  unfoldable pub send_raw_tcp :
      Context → TcpInfo → List ℕ → ℕ → Tag → Tag → Context × (Tag × (Tag × Written))
  unfolding with_tcp
  send_raw_tcp l info payload ip_id tcp ip =
      let payload_len = length payload % 2 ^ 16 in
      with_tcp info payload_len ip_id ip (build_tcp (tcp_args info payload_len) payload tcp l)

  -- With the handle there is.
  unfoldable pub output_over : RawTcp → TcpInfo → List ℕ → Option Context → RawTcp × Written
  unfolding send_raw_tcp
  output_over s info payload none = (s, failed)
  output_over s info payload (some c) =
      let (l, (tcp, (ip, w))) = send_raw_tcp c info payload s.ip_id s.tcp_tag s.ip_tag in
      (record s { ip_id = (s.ip_id + 1) % 2 ^ 16; net = some l; tcp_tag = tcp; ip_tag = ip }, w)

  -- The state afterwards, and what is done.
  unfoldable pub output : RawTcp → TcpInfo → List ℕ → RawTcp × Written
  unfolding output_over
  output s info payload = output_over s info payload s.net

  -- What the constructor leaves.
  abbrev pub new_raw_tcp : RawTcp
  new_raw_tcp = record {
    datalink = dlt_en10mb;
    ip_id = 0;
    net = none;
    tcp_tag = some 0;
    ip_tag = some 0;
  }

  -- With the handle that `libnet_init` gives, the type of the link, and whether the connection to the
  -- loop can be set up; the second result is whether 0 is returned.
  unfoldable pub init : Option Context → ℕ → Bool → RawTcp → RawTcp × Bool
  init none link sync s = (record s { datalink = link; net = none }, false)
  init (some l) link sync s =
      (record s { datalink = link; net = some l; tcp_tag = some 0; ip_tag = some 0 }, sync)

  -- `l` is what `libnet_init` gives for the device, and `link` what its link layer is.
  unfoldable pub on_net_connected : Option Context → ℕ → RawTcp → RawTcp
  on_net_connected none link s = s
  on_net_connected (some l) link s = record s {
    datalink = link;
    net = some l;
    tcp_tag = some 0;
    ip_tag = some 0;
  }

  unfoldable pub disconnect : RawTcp → Option Context → RawTcp
  disconnect s none = s
  disconnect s (some c) = record s { net = none; tcp_tag = some 0; ip_tag = some 0 }

  unfoldable pub on_net_disconnected : RawTcp → RawTcp
  unfolding disconnect
  on_net_disconnected s = disconnect s s.net

  -- What happens to it: a packet is sent, or the network comes (with the handle there is for it) or
  -- goes.
  pub data Event : Type 0 where
    packet : TcpInfo → List ℕ → Event
    connected : Option Context → ℕ → Event
    disconnected : Event

  unfoldable pub step : RawTcp → Event → RawTcp
  step s (packet info payload) = (output s info payload).0
  step s (connected l link) = on_net_connected l link s
  step s disconnected = on_net_disconnected s

  unfoldable pub run : RawTcp → List Event → RawTcp
  unfolding step
  run s [] = s
  run s (e ∷ events) = run (step s e) events
