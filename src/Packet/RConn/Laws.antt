-- ===== src/Packet/RConn/Laws.antt =====
-- What is sent is received; what is received carries the hash of its key; and resets.
use rsock.Base.{
  bytes_eq_iff, ℕ, ◌+◌, ◌-◌, ◌≤◌, ◌≡◌, refl, sym, subst, ◌∙◌, true, Option, some, none, List, [],
  ◌∷◌, ◌++◌, arith, length, take, drop, drop-append, take-append, take-length, length-append,
  length-drop, length-take,
}
use rsock.Wire.EncHead.{EncHead, IsValid, get_min_enc_size, decode_buf}
use rsock.Wire.EncHead.Laws.{decode_buf-enc2buf}
use rsock.Wire.KeyGenerator.{Info, udp, tcp, key_for_udp}
use rsock.Packet.Hash.{compute_hash, hash_equal, hash_buf_size}
use rsock.Packet.RConn.{
  returns, delivered, build, output, dispatch, on_recv, check_hash, send_reset, fresh_head, Sent,
  to_udp, to_raw_tcp, contains_key,
}

-- Over UDP there is a connection for the addresses; `o` is what is done with the packet.
abbrev pub HasRoute : List ℕ → Info → Type 0
HasRoute conns (tcp i) = Unit {0}
HasRoute conns (udp c) = (key : ℕ) × (key_for_udp c ≡ some key) × (contains_key key conns ≡ true)

abbrev pub IsSent : Info → List ℕ → Sent → Type 0
IsSent (tcp i) packet o = o ≡ to_raw_tcp (tcp i) packet
IsSent (udp c) packet o = (key : ℕ) × (key_for_udp c ≡ some key) × (o ≡ to_udp key packet)

IsSent-dispatch :
    (conns : List ℕ) (n : ℕ) (from : Info) (packet : List ℕ)
    → HasRoute conns from
    → IsSent from packet (dispatch conns n from packet)
IsSent-dispatch conns n (tcp i) packet h = refl
IsSent-dispatch conns n (udp c) packet (key, e, f) = (key, e, ground (arith, e, f))

module _ (md5 : List ℕ → List ℕ) (digest : (m : List ℕ) → length (md5 m) ≡ 16) (key : List ℕ) where
  length-compute_hash : (d : ℕ) (p : List ℕ) → length (compute_hash md5 key (d ∷ p)) ≡ 8
  unfolding compute_hash
  length-compute_hash d p = omega (
    arith,
    length-take 8 (drop 8 (md5 (key ++ (d ∷ [])))),
    length-drop 8 (md5 (key ++ (d ∷ []))),
    digest (key ++ (d ∷ [])),
  )

  -- The receiver's check passes what starts with the sender's hash.
  hash_equal-compute_hash :
      (d : ℕ) (p rest : List ℕ)
      → hash_equal md5 (compute_hash md5 key (d ∷ p) ++ rest) key (d ∷ p) ≡ true
  unfolding hash_equal
  hash_equal-compute_hash d p rest = (bytes_eq_iff _ _).1 (front ∙ whole)
    where
      eight : length (drop 8 (md5 (key ++ (d ∷ [])))) ≡ 8
      eight = omega (arith, length-drop 8 (md5 (key ++ (d ∷ []))), digest (key ++ (d ∷ [])))

      front : take 8 (compute_hash md5 key (d ∷ p) ++ rest) ≡ compute_hash md5 key (d ∷ p)
      front =
          subst (λ m. take m (compute_hash md5 key (d ∷ p) ++ rest) ≡ compute_hash md5 key (d ∷ p))
            (length-compute_hash d p) (take-append (compute_hash md5 key (d ∷ p)) rest)

      whole : compute_hash md5 key (d ∷ p) ≡ drop 8 (md5 (key ++ (d ∷ [])))
      whole =
          unfold compute_hash in
          subst (λ m. take m (drop 8 (md5 (key ++ (d ∷ [])))) ≡ drop 8 (md5 (key ++ (d ∷ []))))
            eight (take-length (drop 8 (md5 (key ++ (d ∷ [])))))

  behind_hash : (d : ℕ) (p rest : List ℕ) → drop 8 (compute_hash md5 key (d ∷ p) ++ rest) ≡ rest
  behind_hash d p rest =
      subst (λ m. drop m (compute_hash md5 key (d ∷ p) ++ rest) ≡ rest) (length-compute_hash d p)
        (drop-append (compute_hash md5 key (d ∷ p)) rest)

  on_recv-packet :
      (info : Info) (sent : EncHead) (d : ℕ) (p bytes : List ℕ)
      → length bytes ≡ get_min_enc_size
      → decode_buf fresh_head (bytes ++ d ∷ p) ≡ (sent, some (d ∷ p))
      → on_recv md5 key info (compute_hash md5 key (d ∷ p) ++ (bytes ++ d ∷ p))
        ≡ delivered sent (d ∷ p)
  unfolding on_recv check_hash
  on_recv-packet info sent d p bytes l e = ground (
    arith,
    l,
    e,
    length-append (compute_hash md5 key (d ∷ p)) (bytes ++ d ∷ p),
    length-append bytes (d ∷ p),
    length-compute_hash d p,
    behind_hash d p (bytes ++ d ∷ p),
    hash_equal-compute_hash d p (bytes ++ d ∷ p),
  )

  pub on_recv-dispatch :
      (conns : List ℕ) (from at : Info) (head : EncHead) (d : ℕ) (p : List ℕ)
      → IsValid head
      → 31 + length (d ∷ p) ≤ 1500
      → (packet : List ℕ) × (output md5 key conns from head (d ∷ p)
          ≡ dispatch conns (length (d ∷ p)) from packet)
        × (length packet ≡ 31 + length (d ∷ p))
        × (on_recv md5 key at packet ≡ delivered (record head { len = 23 }) (d ∷ p))
  unfolding output build
  on_recv-dispatch conns from at head d p v room =
      let (bytes, sent, e1, l, e2) =
        decode_buf-enc2buf head fresh_head (1500 - length (compute_hash md5 key (d ∷ p))) (d ∷ p) v
          (omega (arith, length-compute_hash d p)) in
      (
        compute_hash md5 key (d ∷ p) ++ (bytes ++ d ∷ p),
        ground (arith, e1, length-compute_hash d p),
        omega (
          arith,
          length-compute_hash d p,
          l,
          length-append (compute_hash md5 key (d ∷ p)) (bytes ++ d ∷ p),
          length-append bytes (d ∷ p),
        ),
        on_recv-packet at (record head { len = 23 }) d p bytes l e2,
      )

  -- A payload of at least one byte that fits a packet of 1500 with the hash and the head, for TCP or
  -- for addresses of whose key there is a UDP connection, is sent: for TCP it is given to `RawTcp` with
  -- its addresses, and for UDP to that connection. What is sent is a packet of 31 bytes more, from
  -- which a receiver with the same key delivers that payload and that head.
  pub on_recv-output :
      (conns : List ℕ) (from at : Info) (head : EncHead) (d : ℕ) (p : List ℕ)
      → HasRoute conns from
      → IsValid head
      → 31 + length (d ∷ p) ≤ 1500
      → (packet : List ℕ) × IsSent from packet (output md5 key conns from head (d ∷ p))
        × (length packet ≡ 31 + length (d ∷ p))
        × (on_recv md5 key at packet ≡ delivered (record head { len = 23 }) (d ∷ p))
  on_recv-output conns from at head d p route v room =
      let (packet, out, long, got) = on_recv-dispatch conns from at head d p v room in
      (
        packet,
        subst (IsSent from packet) (sym out)
            (IsSent-dispatch conns (length (d ∷ p)) from packet route),
        long,
        got,
      )

hash_equal_sound :
    (md5 : List ℕ → List ℕ) (key hashed payload : List ℕ)
    → hash_equal md5 hashed key payload ≡ true
    → (d : ℕ) × (p : List ℕ) × (payload ≡ d ∷ p)
      × (take hash_buf_size hashed ≡ drop 8 (md5 (key ++ (d ∷ []))))
unfolding hash_equal
hash_equal_sound md5 key hashed [] h = cc
hash_equal_sound md5 key hashed (d ∷ p) h = (d, p, refl, (bytes_eq_iff _ _).0 h)

check_hash_sound :
    (md5 : List ℕ → List ℕ) (key hashed : List ℕ) (r : EncHead × Option (List ℕ)) (head : EncHead)
    (payload : List ℕ)
    → check_hash md5 key hashed r ≡ delivered head payload
    → hash_equal md5 hashed key payload ≡ true
unfolding check_hash
check_hash_sound md5 key hashed (h, none) head payload e = cc
check_hash_sound md5 key hashed (h, some p) head payload e = ground arith

-- A payload that is handed up is not empty, and the packet started with the hash that its key
-- and the first byte of the payload have.
pub on_recv_sound :
    (md5 : List ℕ → List ℕ) (key : List ℕ) (info : Info) (base : List ℕ) {head : EncHead}
    {payload : List ℕ}
    → on_recv md5 key info base ≡ delivered head payload
    → (d : ℕ) × (p : List ℕ) × (payload ≡ d ∷ p)
      × (take hash_buf_size base ≡ drop 8 (md5 (key ++ (d ∷ []))))
unfolding on_recv
on_recv_sound md5 key info base {head} {payload} h = hash_equal_sound md5 key base payload (
    check_hash_sound md5 key base (decode_buf fresh_head (drop 8 base)) head payload
      (checked info h))
  where
    checked :
        (i : Info)
        → on_recv md5 key i base ≡ delivered head payload
        → check_hash md5 key base (decode_buf fresh_head (drop 8 base)) ≡ delivered head payload
    checked (udp c) e = ground arith
    checked (tcp t) e = ground arith

-- A reset of a TCP connection is never sent.
pub send_reset_silent : (info : Info) → send_reset info ≡ returns 0
unfolding send_reset
send_reset_silent (tcp i) = refl
send_reset_silent (udp c) = refl
