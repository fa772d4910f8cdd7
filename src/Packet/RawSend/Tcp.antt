-- ===== src/Packet/RawSend/Tcp.antt =====
-- TCP from `RConn::Output` through `RawTcp` and the wire to `RConn::OnRecv` of the peer.
use Prim.Native.Nat.{bit_and}
use rsock.Base.{
  ℕ, ◌+◌, ◌-◌, ◌%◌, ◌^◌, ◌≤◌, ◌<◌, ◌≡◌, ◌⊎◌, inl, inr, ap, ◌∙◌, sym, subst, Bool, none, some, List,
  [], ◌∷◌, arith, if◌then◌else◌, ltb, length,
}
use rsock.Wire.TcpInfo.{TcpInfo, th_syn}
use rsock.Wire.TcpInfo.Laws.{Fits}
use rsock.Wire.EncHead.{EncHead, IsValid}
use rsock.Wire.KeyGenerator.{Info, tcp}
use rsock.Packet.RConn.{to_raw_tcp, delivered, on_recv, om_max_pkt_size}
use rsock.Packet.RConn
use rsock.Packet.RConn.Laws.{on_recv-dispatch}
use rsock.Packet.RawTcp.{dlt_en10mb, send_sync, raw_input, input, sync_input}
use rsock.Packet.RawTcp.Laws.{frame, received, tcp_header, ip_header, sync_input-raw_input}
use rsock.Packet.RawSend.{
  Libnet, wrote, failed, tcp_args, ip_args, output, init, new_raw_tcp, Event, run,
}
use rsock.Packet.RawSend.Documented.{layout, IsDocumented}
use rsock.Packet.RawSend.Laws.{AllFresh}
use rsock.Packet.RawSend.State.{output_lem, run-is_sound}

-- Bytes behind an Ethernet header for IPv4.
abbrev pub ethernet : (ℕ → ℕ) → List ℕ → List ℕ
ethernet y bytes =
    y 0 ∷ y 1 ∷ y 2 ∷ y 3 ∷ y 4 ∷ y 5 ∷ y 6 ∷ y 7 ∷ y 8 ∷ y 9 ∷ y 10 ∷ y 11 ∷ 8 ∷ 0 ∷ bytes

module _ (n : Libnet) where
  -- The bytes of a packet behind an Ethernet header are a frame that a capture finds.
  frame-layout :
      (x y : ℕ → ℕ) (info : TcpInfo) (p : List ℕ) (id : ℕ)
      → length p < 2 ^ 16
      → let len = length p % 2 ^ 16 in
        (z : ℕ → ℕ) × (frame z info p
          ≡ ethernet y (layout x (tcp_args n info len) p (ip_args n info len id)))
  frame-layout x y info p id h =
      let z : ℕ → ℕ = λ k. if ltb k 50 then x k else y (k - 50) in
      let total : 40 + length p ≡ length p % 2 ^ 16 + 20 + 20 = omega arith in
      (z, ap (λ t. ethernet y (ip_header x info t (tcp_header x info p))) total)

  module _ (doc : IsDocumented n) (md5 : List ℕ → List ℕ)
      (digest : (m : List ℕ) → length (md5 m) ≡ 16) (hash_key : List ℕ) (object_size base_size : ℕ)
      (is_server has_pool : Bool) where
    -- The packet as the peer gets it, behind some Ethernet header.
    abbrev pub Arrives : EncHead → TcpInfo → List ℕ → List ℕ → (ℕ → ℕ) → List ℕ → Type 0
    Arrives head info payload packet y bytes =
        (synced : List ℕ) × (raw_input object_size base_size is_server has_pool dlt_en10mb
            (54 + length packet) (ethernet y bytes)
          ≡ some (send_sync synced))
        × (sync_input synced ≡ input (received info packet) packet)
        × (on_recv md5 hash_key (tcp (received info packet)) packet
            ≡ delivered (record head { len = 23 }) payload)

    arrives :
        (head : EncHead) (info : TcpInfo) (payload packet : List ℕ) (x y : ℕ → ℕ) (id : ℕ)
        → Fits info
        → bit_and info.flag th_syn ≡ 0
        → base_size ≤ object_size
        → object_size ≤ om_max_pkt_size
        → 8 < length packet
        → length packet + 32 ≤ om_max_pkt_size
        → on_recv md5 hash_key (tcp (received info packet)) packet
          ≡ delivered (record head { len = 23 }) payload
        → let len = length packet % 2 ^ 16 in
          Arrives head info payload packet y
            (layout x (tcp_args n info len) packet (ip_args n info len id))
    arrives head info payload packet x y id fits syn small room long short got =
        let (z, framed) = frame-layout x y info packet id (omega arith) in
        let (synced, raw, back) =
          sync_input-raw_input object_size base_size (54 + length packet) is_server has_pool z info
            packet fits small room (omega arith) syn long short in
        (
          synced,
          ap (raw_input object_size base_size is_server has_pool dlt_en10mb (54 + length packet))
                (sym framed)
              ∙ raw,
          back,
          got,
        )

    -- Where libnet behaves as documented and each handle is new: after any changes of the network and
    -- packets, a payload that leaves room for the addresses is put into a packet by `RConn::Output`.
    -- Then `RawTcp::Output` returns -1, or it returns the length of that packet and writes bytes from
    -- which, behind any Ethernet header, a peer with the same key delivers that payload and the head,
    -- with the ends exchanged and the packet counted. The segment has no SYN, its fields fit their
    -- types, and an info's object fits a packet.
    pub on_recv-send_tcp :
        (l : n.Context) (link : ℕ) (sync : Bool) (events : List (Event n)) (conns : List ℕ)
        (info : TcpInfo) (head : EncHead) (d : ℕ) (p : List ℕ) (y : ℕ → ℕ)
        → (doc.tcp_of l ≡ none) × (doc.ip_of l ≡ none)
        → AllFresh n doc events
        → Fits info
        → bit_and info.flag th_syn ≡ 0
        → base_size ≤ object_size
        → object_size ≤ om_max_pkt_size
        → IsValid head
        → 63 + length (d ∷ p) ≤ om_max_pkt_size
        → let s = run n ((init n (some l) link sync (new_raw_tcp n)).0) events in
          (packet : List ℕ) × (RConn.output md5 hash_key conns (tcp info) head (d ∷ p)
            ≡ to_raw_tcp (tcp info) packet)
          × (((output n s info packet).1 ≡ failed)
              ⊎ ((bytes : List ℕ) × ((output n s info packet).1 ≡ wrote bytes (length packet))
                  × Arrives head info (d ∷ p) packet y bytes))
    unfolding init
    on_recv-send_tcp l link sync events conns info head d p y (t, u) fresh fits syn small room valid
          short =
        let s = run n ((init n (some l) link sync (new_raw_tcp n)).0) events in
        let at : ℕ → Info =
          λ m. tcp (record (received info []) { seq = (info.seq + m) % 2 ^ 32 }) in
        let (packet, out, long, got) =
          on_recv-dispatch md5 digest hash_key conns (tcp info) (at (31 + length (d ∷ p))) head d p
            valid (omega arith) in
        let got' =
          subst
            (λ m. on_recv md5 hash_key (at m) packet ≡ delivered (record head { len = 23 }) (d ∷ p))
            (sym long) got in
        let (sound, done) =
          output_lem n doc s info packet
            (run-is_sound n doc _ events (ground (arith, t, u)) fresh) in
        (
          packet,
          out,
          elim done [
            | inl fails ↦ inl fails
            | inr (bytes, x, sent, laid) ↦ inr (
              bytes,
              sent ∙ ap (wrote bytes) (omega (arith, long)),
              subst (Arrives head info (d ∷ p) packet y) (sym laid) (
                  arrives head info (d ∷ p) packet x y s.ip_id fits syn small room
                    (omega (arith, long)) (omega (arith, long)) got'),
            )
          ],
        )
