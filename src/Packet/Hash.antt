-- ===== src/Packet/Hash.antt =====
-- util/rhash.cpp. MD5 is a copy of another project's code, and a parameter: the digest of a
-- string of bytes, which two calls of `MD5_Update` give piece by piece.
use rsock.Base.{ℕ, ◌-◌, Bool, false, List, [], ◌∷◌, ◌++◌, take, drop, bytes_eq}

abbrev pub md5_len : ℕ
md5_len = 16

abbrev pub hash_buf_size : ℕ
hash_buf_size = 8

module _ (md5 : List ℕ → List ℕ) where
  -- The last 8 bytes of the digest of the key and of the first byte of the data; no bytes where
  -- the assertion that there is data fails.
  unfoldable pub compute_hash : List ℕ → List ℕ → List ℕ
  compute_hash key [] = []
  compute_hash key (d ∷ data_rest) =
      take hash_buf_size (drop (md5_len - hash_buf_size) (md5 (key ++ (d ∷ []))))

  unfoldable pub hash_equal : List ℕ → List ℕ → List ℕ → Bool
  hash_equal hashed key [] = false
  hash_equal hashed key (d ∷ data_rest) =
      bytes_eq (take hash_buf_size hashed) (drop (md5_len - hash_buf_size) (md5 (key ++ (d ∷ []))))
