-- ===== src/App/ConvKey.antt =====
-- `KeyGenerator::BuildConvKey` of src/util/KeyGenerator.cpp and `InAddr2Ip` of util/rsutil.cpp: the
-- key of a conversation is a text.
use rsock.Base.{
  ℕ, ◌/◌, ◌%◌, ◌^◌, ◌<◌, ◌≡◌, ◌↔◌, refl, true, false, List, [], ◌∷◌, ◌++◌, arith, to_string,
  to_string_inj, starts_digit, lacks, lacks-append, lacks-to_string,
}

-- The four rounds of the loop.
unfoldable pub in_addr2ip : ℕ → List ℕ
in_addr2ip iaddr =
    to_string (iaddr % 256)
    ++ (b'.'
        ∷ (to_string (iaddr / 256 % 256)
            ++ (b'.'
                ∷ (to_string (iaddr / 256 / 256 % 256)
                    ++ (b'.' ∷ to_string (iaddr / 256 / 256 / 256 % 256))))))

unfoldable pub build_conv_key : ℕ → ℕ → List ℕ
unfolding in_addr2ip
build_conv_key dst conv =
    b'c' ∷ b'o' ∷ b'n' ∷ b'v' ∷ b':' ∷ (in_addr2ip dst ++ (b':' ∷ to_string conv))

-- Texts that are joined by a character that the first parts lack.
joined :
    (x : ℕ) (s s' t t' : List ℕ)
    → lacks x s ≡ true
    → lacks x s' ≡ true
    → s ++ (x ∷ t) ≡ s' ++ (x ∷ t')
    → (s ≡ s') × (t ≡ t')
joined x [] [] t t' p q h = ground (arith, h)
joined x [] (c ∷ s') t t' p q h = ground (arith, q, h)
joined x (c ∷ s) [] t t' p q h = ground (arith, p, h)
joined x (c ∷ s) (d ∷ s') t t' p q h =
    let (e, f) = joined x s s' t t' (ground (arith, p)) (ground (arith, q)) (ground (arith, h)) in
    (ground (arith, h, e), f)

lacks-dotted :
    (n : ℕ) (t : List ℕ) → lacks b':' t ≡ true → lacks b':' (to_string n ++ (b'.' ∷ t)) ≡ true
lacks-dotted n t h = lacks-append b':' (to_string n) (b'.' ∷ t) (lacks-to_string b':' n refl) h

lacks-in_addr2ip : (a : ℕ) → lacks b':' (in_addr2ip a) ≡ true
unfolding in_addr2ip
lacks-in_addr2ip a =
    lacks-dotted _ _ (lacks-dotted _ _ (lacks-dotted _ _ (lacks-to_string b':' _ refl)))

in_addr2ip_inj : (a b : ℕ) → a < 2 ^ 32 → b < 2 ^ 32 → in_addr2ip a ≡ in_addr2ip b → a ≡ b
unfolding in_addr2ip
in_addr2ip_inj a b p q h =
    let (e, h') = dot _ _ _ _ h in
    let (e', h'') = dot _ _ _ _ h' in
    let (e'', h''') = dot _ _ _ _ h'' in let e''' = to_string_inj _ _ h''' in omega arith
  where
    dot :
        (m n : ℕ) (s t : List ℕ)
        → to_string m ++ (b'.' ∷ s) ≡ to_string n ++ (b'.' ∷ t)
        → (m ≡ n) × (s ≡ t)
    dot m n s t e =
        let (x, y) =
          joined b'.' (to_string m) (to_string n) s t (lacks-to_string b'.' m refl)
            (lacks-to_string b'.' n refl) e in
        (to_string_inj m n x, y)

-- Two conversations have the same key exactly when the address, of 32 bits, and the number are
-- equal.
pub build_conv_key_iff :
    (a b c d : ℕ)
    → a < 2 ^ 32
    → b < 2 ^ 32
    → (build_conv_key a c ≡ build_conv_key b d) ↔ ((a ≡ b) × (c ≡ d))
unfolding build_conv_key
build_conv_key_iff a b c d p q = (
  (λ h.
      let rest : in_addr2ip a ++ (b':' ∷ to_string c) ≡ in_addr2ip b ++ (b':' ∷ to_string d) =
        ground (arith, h) in
      let (x, y) =
        joined b':' (in_addr2ip a) (in_addr2ip b) (to_string c) (to_string d) (lacks-in_addr2ip a)
          (lacks-in_addr2ip b) rest in
      (in_addr2ip_inj a b p q x, to_string_inj c d y)),
  (λ (e, f). ground (arith, e, f)),
)

pub starts_digit-build_conv_key : (dst conv : ℕ) → starts_digit (build_conv_key dst conv) ≡ false
unfolding build_conv_key
starts_digit-build_conv_key dst conv = refl
