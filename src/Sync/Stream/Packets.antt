-- ===== src/Sync/Stream/Packets.antt =====
-- Packets one behind the other in a stream, and the first of them.
use rsock.Base.{
  ℕ, suc, ◌≤◌, ◌<◌, ◌≡◌, refl, ap, ◌∙◌, inr, Option, some, ◌>>=◌, List, [], ◌∷◌, ◌++◌, arith,
  length, le_bytes, append_assoc,
}
use rsock.Sync.Stream.{Stream, done, deliver, contents, loop, mark_temp_buf, send}
use rsock.Sync.Stream.Step.{IsValid, loop_short, loop_packet, contents_pos}

-- What the sends of packets write, one after the other.
unfoldable pub send_all : List (List ℕ) → Option (List ℕ)
send_all [] = some []
send_all (f ∷ fs) = do b ← send f; rest ← send_all fs; some (b ++ rest)

-- A packet that both assertions of the sender let pass.
abbrev pub AreSendable : List (List ℕ) → Type 0
AreSendable [] = Unit {0}
AreSendable (f ∷ fs) = ((0 < length f) × (length f < 1496)) × AreSendable fs

-- No read is longer than the buffer that `alloc_buf` gives.
abbrev pub AreReads : List (List ℕ) → Type 0
AreReads [] = Unit {0}
AreReads (c ∷ cs) = (length c ≤ 65536) × AreReads cs

abbrev pub joined : List (List ℕ) → List ℕ
joined [] = []
joined (c ∷ cs) = c ++ joined cs

abbrev pub stream : List (List ℕ) → List ℕ
stream [] = []
stream (f ∷ fs) = le_bytes 4 (length f) ++ (f ++ stream fs)

pub send_all-stream : (fs : List (List ℕ)) → AreSendable fs → send_all fs ≡ some (stream fs)
unfolding send_all send
send_all-stream [] h = refl
send_all-stream (f ∷ fs) h =
    ground (arith, send_all-stream fs h.1, append_assoc (le_bytes 4 (length f)) f (stream fs))

-- A list that starts like another, and is at least as long, is that one with more behind it.
pub append_split :
    (c a b d : List ℕ)
    → a ++ b ≡ c ++ d
    → length c ≤ length a
    → (r : List ℕ) × (a ≡ c ++ r) × (r ++ b ≡ d)
append_split [] a b d e h = (a, refl, e)
append_split (x ∷ c) [] b d e h = absurd (omega arith)
append_split (x ∷ c) (y ∷ a) b d e h =
    let (r, e', l) = append_split c a b d (cc) (omega arith) in (r, cc, l)

-- What the loop leaves over a part `p` of a stream: some packets, and what belongs to the others.
abbrev pub Leaves : ℕ → List ℕ → List ℕ → List (List ℕ) → Type 0
Leaves k p q fs =
    (s : Stream) × (gs : List (List ℕ)) × (rest : List (List ℕ)) × (loop k p ≡ done s gs)
    × (fs ≡ gs ++ rest)
    × (contents s ++ q ≡ stream rest)
    × IsValid s
    × AreSendable rest

-- A packet that is not there to its end is kept.
pub kept :
    (k : ℕ) (f : List ℕ) (fs : List (List ℕ)) (r q : List ℕ)
    → AreSendable (f ∷ fs)
    → length r < length f
    → r ++ q ≡ f ++ stream fs
    → Leaves (suc k) (le_bytes 4 (length f) ++ r) q (f ∷ fs)
unfolding mark_temp_buf
kept k f fs r q h short e = (
  s,
  [],
  f ∷ fs,
  loop_short k (length f) r short (omega arith),
  refl,
  rw (contents_pos s (omega arith), append_assoc (le_bytes 4 (length f)) r q, e),
  record { next_fits = omega arith; partial = inr short },
  h,
)
  where
    s : Stream
    s = record { next_len = length f; temp_buf = r }

-- A whole packet is delivered before what the rest leaves.
pub passed :
    (k : ℕ) (f : List ℕ) (fs : List (List ℕ)) (t q : List ℕ)
    → AreSendable (f ∷ fs)
    → Leaves k t q fs
    → Leaves (suc k) (le_bytes 4 (length f) ++ (f ++ t)) q (f ∷ fs)
passed k f fs t q h (s, gs, rest, looped, parts, left, valid, sendable) = (
  s,
  f ∷ gs,
  rest,
  loop_packet k f t h.0.0 (omega arith) ∙ ap (deliver f) looped,
  ap (λ xs. f ∷ xs) parts,
  left,
  valid,
  sendable,
)
