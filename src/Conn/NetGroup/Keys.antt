-- ===== src/Conn/NetGroup/Keys.antt =====
-- The two maps of a group hold the same connections, so that the assertions on their sizes hold.
use rsock.Wire.KeyGenerator.{str_for_int_key}
use rsock.Base.{
  to_string_inj, ℕ, ◌≡◌, refl, sym, ap, ◌∙◌, inl, inr, Bool, Bool-cases, true, false, ◌&&◌, Option,
  none, some, List, arith, ◌==◌, ==_iff, if◌then◌else◌, length, map, length-map, bytes_eq,
  bytes_eq_iff, find, contains, insert_new, erase,
}
use rsock.Conn.NetGroup.{
  NetConn, NetGroup, same_key, add_net_conn, remove_conn, conn_of_int_key, xnor,
}
use rsock.Conn.NetGroup.Keyed.{
  without, put, of_key, is_some, keyed, erase-keyed, insert_new-keyed, find-keyed, contains-keyed,
}

true-false : true ≡ false → ⊥
true-false h = cc

xnor_refl : (b : Bool) → xnor b b ≡ true
xnor_refl true = refl
xnor_refl false = refl

==_refl : (n : ℕ) → (n == n) ≡ true
==_refl n = ground arith

-- Two maps of one list are of one size.
same_length :
    {K L : Type 0} (k : NetConn → K) (l : NetConn → L) (cs : List NetConn) {m : List (K × NetConn)}
    {n : List (L × NetConn)}
    → m ≡ map (keyed k) cs
    → n ≡ map (keyed l) cs
    → (length m == length n) ≡ true
same_length k l cs p q =
    ground (arith, ap length p, ap length q, length-map cs (keyed k), length-map cs (keyed l))

test : {a b c t : Bool} → a ≡ c → b ≡ c → t ≡ true → xnor a b && t ≡ true
test {c = c} p q r = ground (arith, p, q, r, xnor_refl c)

stored :
    (key : ℕ) (cs : List NetConn)
    → ◌≡◌ {A = Option NetConn}
        (elim (elim (of_key key cs) as (λ _. Option (ℕ × NetConn)) [
          | none ↦ none
          | some d ↦ some (d.int_key, d)
        ]) [ none ↦ none | some p ↦ some p.1 ])
        (of_key key cs)
stored key cs =
    elim (of_key key cs)
      as (λ o.
        ◌≡◌ {A = Option NetConn}
          (elim (elim o as (λ _. Option (ℕ × NetConn)) [
            | none ↦ none
            | some d ↦ some (d.int_key, d)
          ]) [ none ↦ none | some p ↦ some p.1 ])
          o) [ none ↦ refl | some d ↦ refl ]

abbrev pub string_key : NetConn → List ℕ
string_key c = str_for_int_key c.int_key

abbrev pub number_key : NetConn → ℕ
number_key c = c.int_key

string_test : (j k : ℕ) → bytes_eq (str_for_int_key j) (str_for_int_key k) ≡ (j == k)
string_test j k = elim (Bool-cases (j == k)) [
  | inl e ↦
      ((bytes_eq_iff (str_for_int_key j) (str_for_int_key k)).1
        (ap str_for_int_key ((==_iff j k).0 e)))
      ∙ sym e
  | inr e ↦ elim (Bool-cases (bytes_eq (str_for_int_key j) (str_for_int_key k))) [
    | inl t ↦ absurd (
        true-false (
          sym (
            (==_iff j k).1
              (to_string_inj j k ((bytes_eq_iff (str_for_int_key j) (str_for_int_key k)).0 t)))
          ∙ e))
    | inr f ↦ f ∙ sym e
  ]
]

-- The group holds the connections `cs`.
pub record Holds (cs : List NetConn) (g : NetGroup) : Type 0 where
  pub by_string : g.conns ≡ map (keyed string_key) cs
  pub by_number : g.conn_map ≡ map (keyed number_key) cs

-- In a group whose two maps hold the same connections, removing one fails no assertion: it returns
-- whether there was one of its key, leaves the others in both maps, and leaves the handler as it is.
pub remove_conn_lem :
    (cs : List NetConn) (g : NetGroup) (c : NetConn)
    → Holds cs g
    → (g' : NetGroup) × (remove_conn g c ≡ some (g', is_some (of_key c.int_key cs)))
      × Holds (without c.int_key cs) g'
      × (g'.handler ≡ g.handler)
unfolding remove_conn
remove_conn_lem cs g c h =
    let by_string =
      ap (λ m. erase bytes_eq (string_key c) m) h.by_string
      ∙ erase-keyed bytes_eq string_key (string_key c) c.int_key
          (λ d. string_test c.int_key d.int_key) cs in
    let by_number =
      ap (λ m. erase same_key c.int_key m) h.by_number
      ∙ erase-keyed same_key number_key c.int_key c.int_key (λ d. refl) cs in
    let ok =
      ap (λ m. contains bytes_eq (string_key c) m) h.by_string
      ∙ contains-keyed bytes_eq string_key (string_key c) c.int_key
          (λ d. string_test c.int_key d.int_key) cs in
    let ok2 =
      ap (λ m. contains same_key c.int_key m) h.by_number
      ∙ contains-keyed same_key number_key c.int_key c.int_key (λ d. refl) cs in
    let g' = record g {
      conns = erase bytes_eq (string_key c) g.conns;
      conn_map = erase same_key c.int_key g.conn_map;
    } in
    (
      g',
      ap (λ t. if t then some (g', contains bytes_eq (string_key c) g.conns) else none)
            (test ok ok2
              (same_length number_key string_key (without c.int_key cs) by_number by_string))
          ∙ ap (λ b. some (g', b)) ok,
      record { by_string = by_string; by_number = by_number },
      refl,
    )

-- In a group whose maps hold the same connections, adding one fails no assertion: both maps hold it
-- afterwards, or the one that had its key.
pub add_net_conn_lem :
    (cs : List NetConn) (g : NetGroup) (c : NetConn)
    → Holds cs g
    → (g' : NetGroup) × (add_net_conn g c ≡ some g') × Holds (put c cs) g'
unfolding add_net_conn
add_net_conn_lem cs g c h =
    let by_string =
      ap (λ m. insert_new bytes_eq (string_key c) c m) h.by_string
      ∙ insert_new-keyed bytes_eq string_key c (λ d. string_test c.int_key d.int_key) cs in
    let by_number =
      ap (λ m. insert_new same_key c.int_key c m) h.by_number
      ∙ insert_new-keyed same_key number_key c (λ d. refl) cs in
    let g' = record g {
      conns = insert_new bytes_eq (string_key c) c g.conns;
      conn_map = insert_new same_key c.int_key c g.conn_map;
    } in
    (
      g',
      ap (λ t. if t then some g' else none)
          (same_length number_key string_key (put c cs) by_number by_string),
      record { by_string = by_string; by_number = by_number },
    )

pub conn_of_int_key_lem :
    (cs : List NetConn) (g : NetGroup) (key : ℕ)
    → Holds cs g
    → conn_of_int_key g key ≡ some (of_key key cs)
unfolding conn_of_int_key
conn_of_int_key_lem cs g key h =
    ap
      (λ t.
        if t
        then some (elim (find same_key key g.conn_map) [ none ↦ none | some p ↦ some p.1 ])
        else none)
      (same_length number_key string_key cs h.by_number h.by_string)
    ∙ ap (λ m. some (elim (find same_key key m) [ none ↦ none | some p ↦ some p.1 ])) h.by_number
    ∙ ap (λ o. some (elim o [ none ↦ none | some p ↦ some p.1 ]))
        (find-keyed same_key number_key key key (λ d. refl) cs)
    ∙ ap (λ o. some o) (stored key cs)
