-- ===== src/Sync/Stream.antt =====
-- src/sync/TcpStreamSyncConn.cpp: packets over a TCP stream of the machine to itself, each behind
-- its length as a native `int`. The host is little-endian. `mTempBuf` is its first `mBufLen`
-- bytes; what `Input` is called with is returned as a list of packets, oldest first, and what it
-- returns, which `streamCb` drops, is left out.
pub mod Step
pub mod Delivery
pub mod Packets
use rsock.Base.{
  ℕ, zero, suc, ◌+◌, ◌*◌, ◌&&◌, Option, none, some, List, [], ◌∷◌, ◌++◌, ltb, leb, ◌==◌,
  if◌then◌else◌, length, le_bytes, of_le_bytes,
}
use rsock.Wire.Enc.{split}

abbrev pub count_size : ℕ
count_size = 4

abbrev pub om_max_pkt_size : ℕ
om_max_pkt_size = 1500

abbrev pub max_buf_size : ℕ
max_buf_size = om_max_pkt_size + count_size * 2

abbrev pub rsock_uv_max_buf : ℕ
rsock_uv_max_buf = 65536

-- The size of `mLargeBuf`.
abbrev pub large_buf_size : ℕ
large_buf_size = rsock_uv_max_buf + max_buf_size

pub record Stream : Type 0 where
  pub next_len : ℕ
  pub temp_buf : List ℕ

abbrev pub empty : Stream
empty = record { next_len = 0; temp_buf = [] }

-- `aborted` is a failed assertion or a write past a buffer, `starved` a loop out of fuel.
pub data Outcome : Type 0 where
  done : Stream → List (List ℕ) → Outcome
  aborted : Outcome
  starved : Outcome

abbrev pub deliver : List ℕ → Outcome → Outcome
deliver f (done s fs) = done s (f ∷ fs)
deliver f aborted = aborted
deliver f starved = starved

abbrev pub deliver_all : List (List ℕ) → Outcome → Outcome
deliver_all [] o = o
deliver_all (f ∷ fs) o = deliver f (deliver_all fs o)

-- What comes after a read, if it did not abort.
abbrev pub and_then : Outcome → (Stream → Outcome) → Outcome
and_then (done s fs) k = deliver_all fs (k s)
and_then aborted k = aborted
and_then starved k = starved

pub mark_temp_buf : ℕ → List ℕ → Stream
mark_temp_buf next_len buf = record { next_len = next_len; temp_buf = buf }

-- The rest of a round of the loop, once a length is read; `again` goes on behind the packet. A
-- length that is negative as an `int` is a large number here, and fails the assertion too.
pub loop_body : ℕ → List ℕ → (List ℕ → Outcome) → Outcome
loop_body next_len p again =
    if ltb 0 next_len && ltb next_len max_buf_size
    then elim (split next_len p) [
      | none ↦ done (mark_temp_buf next_len p) []
      | some (f, q) ↦ deliver f (again q)
    ]
    else aborted

-- `while (left >= 0)` over the bytes of `mLargeBuf`; `left` is the length of the list.
pub loop : ℕ → List ℕ → Outcome
loop zero p = starved
loop (suc fuel) p = elim (split count_size p) [
  | none ↦ done (mark_temp_buf 0 p) []
  | some (n, q) ↦ loop_body (of_le_bytes n) q (λ r. loop fuel r)
]

-- What is put in front of the new bytes.
abbrev pub contents : Stream → List ℕ
contents s = if s.next_len == 0 then s.temp_buf else le_bytes 4 s.next_len ++ s.temp_buf

-- One `rawInput` of `nread > 0` bytes.
pub raw_input : Stream → List ℕ → Outcome
raw_input s buf =
    let tot_len = length buf + length s.temp_buf in
    let large = contents s ++ buf in
    if ltb max_buf_size s.next_len
    then aborted
    else if ltb (rsock_uv_max_buf + max_buf_size) (length buf)
    then aborted
    else if ltb s.next_len tot_len
    then (if ltb large_buf_size (length large) then aborted else loop (suc (length large)) large)
    else if ltb tot_len s.next_len
    then done (record s { temp_buf = s.temp_buf ++ buf }) []
    else done (mark_temp_buf 0 []) ((s.temp_buf ++ buf) ∷ [])

-- `streamCb` over the reads of the stream, in order; an empty read is passed over.
pub run : Stream → List (List ℕ) → Outcome
run s [] = done s []
run s ([] ∷ cs) = run s cs
run s ((b ∷ c) ∷ cs) = and_then (raw_input s (b ∷ c)) (λ s'. run s' cs)

-- The bytes that `Send` writes to the socket, `doSend` included; `none` is a failed assertion.
unfoldable pub send : List ℕ → Option (List ℕ)
send packet =
    if ltb 0 (length packet)
    then (if ltb max_buf_size (length packet + count_size)
        then none
        else if ltb (count_size + length packet) om_max_pkt_size
        then some (le_bytes 4 (length packet) ++ packet)
        else none)
    else some []
