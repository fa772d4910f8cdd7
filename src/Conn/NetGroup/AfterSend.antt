-- ===== src/Conn/NetGroup/AfterSend.antt =====
-- `mNew` of the connection that has sent (conn/INetConn.cpp), in both maps.
use rsock.Base.{ℕ, zero, suc, ◌≡◌, refl, some, List, [], ◌∷◌, arith, get_elem?, map}
use rsock.Conn.NetGroup.{NetConn, with_sent}
use rsock.Conn.NetGroup.Keyed.{keyed}

-- The connections after the one of a key has sent.
abbrev pub after_sent : ℕ → List NetConn → List NetConn
after_sent key [] = []
after_sent key (c ∷ cs) = with_sent key c ∷ after_sent key cs

pub keyed-after_sent :
    {K : Type 0} (name : ℕ → K) (key : ℕ) (cs : List NetConn)
    → map (λ p. (p.0, with_sent key p.1)) (map (keyed (λ c. name c.int_key)) cs)
      ≡ map (keyed (λ c. name c.int_key)) (after_sent key cs)
keyed-after_sent name key [] = refl
keyed-after_sent name key (c ∷ cs) = ground (arith, keyed-after_sent name key cs)

pub get_elem?-with_sent :
    (key : ℕ) (l : List (List ℕ × NetConn)) (i : ℕ) (p : List ℕ × NetConn)
    → get_elem? l i ≡ some p
    → get_elem? {A = List ℕ × NetConn} (map (λ q. (q.0, with_sent key q.1)) l) i
      ≡ some (p.0, with_sent key p.1)
get_elem?-with_sent key [] i p h = ground (arith, h)
get_elem?-with_sent key (q ∷ l) zero p h = ground (arith, h)
get_elem?-with_sent key (q ∷ l) (suc i) p h = get_elem?-with_sent key l i p h
