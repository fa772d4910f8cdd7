-- ===== src/Packet/RawSend/State.antt =====
-- The state between the packets: the tags agree with the handle, or one is -1 for good.
use rsock.Base.{
  ℕ, ◌%◌, ◌^◌, ◌≡◌, ◌⊎◌, inl, refl, ap, sym, subst, Bool, true, ◌&&◌, ◌||◌, Option, none, some,
  List, [], ◌∷◌, arith, length,
}
use rsock.Wire.TcpInfo.{TcpInfo}
use rsock.Packet.RawSend.{
  Libnet, Written, wrote, failed, is_failed, RawTcp, tcp_args, send_raw_tcp, output_over, output,
  disconnect, on_net_connected, on_net_disconnected, Event, packet, connected, disconnected, step,
  run,
}
use rsock.Packet.RawSend.Laws.{
  is_minus_one, is_stuck, is_sound, sound_over, Fresh, AllFresh, len, a, b, stuck_tcp, stuck_send,
  send_lem,
}
use rsock.Packet.RawSend.Documented.{layout, IsDocumented}

abbrev pub all_failed : List Written → Bool
all_failed [] = true
all_failed (w ∷ ws) = is_failed w && all_failed ws

module _ (n : Libnet) where
  -- The results of `Output` for packets, one after the other.
  abbrev pub outputs : RawTcp n → List (TcpInfo × List ℕ) → List Written
  outputs s [] = []
  outputs s ((info, p) ∷ packets) = let (s', w) = output n s info p in w ∷ outputs s' packets

  module _ (doc : IsDocumented n) where
    open doc use {tcp_of, ip_of}

    -- Where the state is sound a packet is written as libnet lays it out, or the call fails.
    abbrev Done : TcpInfo → List ℕ → ℕ → RawTcp n × Written → Type 0
    Done info p id (s', w) =
        (is_sound n doc s' ≡ true)
        × ((w ≡ failed)
            ⊎ ((bytes : List ℕ) × (x : ℕ → ℕ) × (w ≡ wrote bytes (len n doc info p id))
                × (bytes ≡ layout x (a n doc info p id) p (b n doc info p id))))

    pub output_lem :
        (s : RawTcp n) (info : TcpInfo) (p : List ℕ)
        → is_sound n doc s ≡ true
        → Done info p s.ip_id (output n s info p)
    unfolding output output_over
    output_lem s info p h = over s.net h
      where
        over :
            (o : Option n.Context)
            → sound_over n doc s o ≡ true
            → Done info p s.ip_id (output_over n s info p o)
        over none e = (h, inl refl)
        over (some c) e = send_lem n doc info p s.ip_id c s.tcp_tag s.ip_tag e

    pub step-is_sound :
        (s : RawTcp n) (e : Event n)
        → is_sound n doc s ≡ true
        → Fresh n doc e
        → is_sound n doc (step n s e) ≡ true
    unfolding step on_net_connected on_net_disconnected disconnect
    step-is_sound s (packet info p) h f = (output_lem s info p h).0
    step-is_sound s (connected none link) h f = h
    step-is_sound s (connected (some c) link) h (t, u) = ground (arith, t, u)
    step-is_sound s disconnected h f = gone s.net
      where
        gone : (o : Option n.Context) → is_sound n doc (disconnect n s o) ≡ true
        gone none = h
        gone (some c) = refl

    pub run-is_sound :
        (s : RawTcp n) (events : List (Event n))
        → is_sound n doc s ≡ true
        → AllFresh n doc events
        → is_sound n doc (run n s events) ≡ true
    unfolding run
    run-is_sound s [] h f = h
    run-is_sound s (e ∷ events) h (f, g) =
        run-is_sound (step n s e) events (step-is_sound s e h f) g

    output-is_stuck :
        (s : RawTcp n) (info : TcpInfo) (p : List ℕ)
        → is_stuck n s ≡ true
        → (is_stuck n ((output n s info p).0) ≡ true) × ((output n s info p).1 ≡ failed)
    unfolding output output_over
    output-is_stuck s info p h = over s.net
      where
        over :
            (o : Option n.Context)
            → (is_stuck n ((output_over n s info p o).0) ≡ true)
              × ((output_over n s info p o).1 ≡ failed)
        over none = (h, refl)
        over (some c) = stuck_send n doc info p s.ip_id c s.tcp_tag s.ip_tag h

    outputs-is_stuck :
        (s : RawTcp n) (packets : List (TcpInfo × List ℕ))
        → is_stuck n s ≡ true
        → all_failed (outputs s packets) ≡ true
    outputs-is_stuck s [] h = refl
    outputs-is_stuck s ((info, p) ∷ packets) h =
        let (stays, fails) = output-is_stuck s info p h in
        let rest = outputs-is_stuck ((output n s info p).0) packets stays in
        ground (arith, fails, rest)

    -- Where libnet behaves as documented: once `libnet_build_tcp` has failed for a packet, that packet
    -- and every one after it fail, as long as the network does not change.
    pub outputs-build_tcp :
        (s : RawTcp n) (c : n.Context) (info : TcpInfo) (p : List ℕ)
        (packets : List (TcpInfo × List ℕ))
        → s.net ≡ some c
        → (n.build_tcp (tcp_args n info (length p % 2 ^ 16)) p s.tcp_tag c).1 ≡ none
        → all_failed (outputs s ((info, p) ∷ packets)) ≡ true
    unfolding output output_over send_raw_tcp
    outputs-build_tcp s c info p packets e f =
        let to = ap (output_over n s info p) (sym e) in
        let (stays, fails) =
          stuck_tcp n doc info p s.ip_id s.ip_tag
            (n.build_tcp (tcp_args n info (length p % 2 ^ 16)) p s.tcp_tag c)
            (ap (λ o. is_minus_one o || is_minus_one s.ip_tag) f) in
        let rest =
          outputs-is_stuck ((output n s info p).0) packets
            (subst (λ (r : RawTcp n × Written). is_stuck n r.0 ≡ true) to stays) in
        let fails' = subst (λ (r : RawTcp n × Written). r.1 ≡ failed) to fails in
        ground (arith, rest, fails')
