-- ===== src/Tests/Stream.antt =====
-- Two packets over a stream that is cut inside a length and inside a packet.
use rsock.Base.{ℕ, ◌≡◌, refl, some, List, [], ◌∷◌, arith, le_bytes}
use rsock.Sync.Stream.{done, empty, run, send}
use rsock.Sync.Stream.Packets.{send_all, AreSendable, AreReads, joined}
use rsock.Sync.Stream.Delivery.{run-send_all}

abbrev packets : List (List ℕ)
packets = (7 ∷ 8 ∷ 9 ∷ []) ∷ (5 ∷ []) ∷ []

abbrev reads : List (List ℕ)
reads = (3 ∷ 0 ∷ 0 ∷ []) ∷ (0 ∷ 7 ∷ 8 ∷ 9 ∷ 1 ∷ 0 ∷ []) ∷ (0 ∷ 0 ∷ 5 ∷ []) ∷ []

packets-AreSendable : AreSendable packets
packets-AreSendable = ground arith

reads-AreReads : AreReads reads
reads-AreReads = ground arith

send_all-packets : send_all packets ≡ some (joined reads)
unfolding send_all send le_bytes
send_all-packets = refl

run-send_all_example : run empty reads ≡ done empty packets
run-send_all_example =
    run-send_all packets reads packets-AreSendable reads-AreReads send_all-packets
