-- ===== src/Runtime/Handler/Removal.antt =====
-- `RemoveMessages`, which sorts the messages to remove to the front and takes them from there,
-- against a filter.
use rsock.Base.{
  ℕ, suc, ◌+◌, ◌-◌, ◌≡◌, refl, ap, sym, ◌∙◌, inl, inr, Bool, Bool-cases, true, false, ◌||◌, List,
  [], ◌∷◌, ◌++◌, some, arith, if◌then◌else◌, none, length, get_elem?, length-append, append_assoc,
}
use rsock.Runtime.Handler.{
  Handler, Message, has_what, any_what, what_at, swap_at, move_down, gather, pop_what,
  remove_messages, has_messages,
}

-- The messages with another `what`, in their order; and those with this one.
abbrev pub others : ℕ → List Message → List Message
others w [] = []
others w (m ∷ ms) = let rest = others w ms in if has_what w m then rest else m ∷ rest

abbrev hits : ℕ → List Message → List Message
hits w [] = []
hits w (m ∷ ms) = let rest = hits w ms in if has_what w m then m ∷ rest else rest

-- The first list backwards, in front of the second.
abbrev unrev : List Message → List Message → List Message
unrev [] l = l
unrev (x ∷ r) l = unrev r (x ∷ l)

unrev-append : (r a b : List Message) → unrev r a ++ b ≡ unrev r (a ++ b)
unrev-append [] a b = refl
unrev-append (x ∷ r) a b = unrev-append r (x ∷ a) b

length-unrev : (r a : List Message) → length (unrev r a) ≡ length r + length a
length-unrev [] a = omega arith
length-unrev (x ∷ r) a = omega (arith, length-unrev r (x ∷ a))

swap_at-append :
    (p : List Message) (x y : Message) (l : List Message)
    → swap_at (length p) (p ++ x ∷ y ∷ l) ≡ p ++ y ∷ x ∷ l
unfolding swap_at
swap_at-append [] x y l = refl
swap_at-append (z ∷ []) x y l = refl
swap_at-append (z ∷ z' ∷ p) x y l = ap (λ t. z ∷ t) (swap_at-append (z' ∷ p) x y l)

get_elem?-append :
    (p : List Message) (x : Message) (l : List Message) → get_elem? (p ++ x ∷ l) (length p) ≡ some x
get_elem?-append [] x l = refl
get_elem?-append (z ∷ p) x l = get_elem?-append p x l

-- Everything in front of the place at which the loop stands.
front : List Message → List Message → List Message
front p r = p ++ unrev r []

front-append : (p r l : List Message) → p ++ unrev r l ≡ front p r ++ l
unfolding front
front-append p r l = sym (append_assoc p (unrev r []) l ∙ ap (λ t. p ++ t) (unrev-append r [] l))

length-front : (p r : List Message) → length (front p r) ≡ length r + length p
unfolding front
length-front p r = omega (arith, length-append p (unrev r []), length-unrev r [])

swap_unrev :
    (p r : List Message) (x y : Message) (l : List Message)
    → swap_at (length r + length p) (p ++ unrev r (x ∷ y ∷ l)) ≡ p ++ unrev r (y ∷ x ∷ l)
swap_unrev p r x y l =
    rw (front-append p r (x ∷ y ∷ l), front-append p r (y ∷ x ∷ l), ← length-front p r)
      (swap_at-append (front p r) x y l)

-- The swaps carry a message over the ones between.
move_down-unrev :
    (p r : List Message) (x : Message) (l : List Message)
    → move_down (length r) (length p) (p ++ unrev r (x ∷ l)) ≡ p ++ x ∷ unrev r l
unfolding move_down
move_down-unrev p [] x l = refl
move_down-unrev p (y ∷ r) x l =
    ap (λ t. move_down (length r) (length p) t) (swap_unrev p r y x l)
    ∙ move_down-unrev p r x (y ∷ l)

get_elem?-front :
    (p r : List Message) (x : Message) (l : List Message)
    → get_elem? (p ++ unrev r (x ∷ l)) (length r + length p) ≡ some x
get_elem?-front p r x l =
    rw (front-append p r (x ∷ l), ← length-front p r) (get_elem?-append (front p r) x l)

what_at-front :
    (w : ℕ) (p r : List Message) (x : Message) (l : List Message)
    → what_at w (length r + length p) (p ++ unrev r (x ∷ l)) ≡ has_what w x
what_at-front w p r x l =
    ap (λ o. elim o [ none ↦ false | some m ↦ has_what w m ]) (get_elem?-front p r x l)

minus : (a b : ℕ) → a + b - b ≡ a
minus a b = omega arith

gather-cong :
    (n w : ℕ) {i i' k k' : ℕ} {l l' : List Message}
    → i ≡ i'
    → k ≡ k'
    → l ≡ l'
    → gather n w i k l ≡ gather n w i' k' l'
gather-cong n w p q r = cc

-- One round of the loop, at a message to remove and at another.
gather-hit :
    (n w : ℕ) (p r : List Message) (x : Message) (l : List Message)
    → has_what w x ≡ true
    → gather (suc n) w (length r + length p) (length p) (p ++ unrev r (x ∷ l))
      ≡ gather n w
          (length r + length (p ++ x ∷ []))
          (length (p ++ x ∷ []))
          ((p ++ x ∷ []) ++ unrev r l)
unfolding gather
gather-hit n w p r x l h =
    ap
      (λ b. gather n w (length r + length p + 1) (if b then length p + 1 else length p) (
        if b
        then move_down (length r + length p - length p) (length p) (p ++ unrev r (x ∷ l))
        else p ++ unrev r (x ∷ l)))
      (what_at-front w p r x l ∙ h)
    ∙ gather-cong n w (omega (arith, length-append p (x ∷ [])))
        (omega (arith, length-append p (x ∷ [])))
        (ap (λ j. move_down j (length p) (p ++ unrev r (x ∷ l))) (minus (length r) (length p))
          ∙ move_down-unrev p r x l
          ∙ sym (append_assoc p (x ∷ []) (unrev r l)))

gather-miss :
    (n w : ℕ) (p r : List Message) (x : Message) (l : List Message)
    → has_what w x ≡ false
    → gather (suc n) w (length r + length p) (length p) (p ++ unrev r (x ∷ l))
      ≡ gather n w (length (x ∷ r) + length p) (length p) (p ++ unrev (x ∷ r) l)
unfolding gather
gather-miss n w p r x l h =
    ap
      (λ b. gather n w (length r + length p + 1) (if b then length p + 1 else length p) (
        if b
        then move_down (length r + length p - length p) (length p) (p ++ unrev r (x ∷ l))
        else p ++ unrev r (x ∷ l)))
      (what_at-front w p r x l ∙ h)
    ∙ gather-cong n w (omega arith) refl refl

split-hit :
    (w : ℕ) (r : List Message) (x : Message) (l : List Message)
    → has_what w x ≡ true
    → hits w (x ∷ l) ++ unrev r (others w (x ∷ l)) ≡ x ∷ (hits w l ++ unrev r (others w l))
split-hit w r x l h = ground (arith, h)

split-miss :
    (w : ℕ) (r : List Message) (x : Message) (l : List Message)
    → has_what w x ≡ false
    → hits w (x ∷ l) ++ unrev r (others w (x ∷ l)) ≡ hits w l ++ unrev r (x ∷ others w l)
split-miss w r x l h = ground (arith, h)

gather-hits :
    (w : ℕ) (p r l : List Message)
    → gather (length l) w (length r + length p) (length p) (p ++ unrev r l)
      ≡ p ++ (hits w l ++ unrev r (others w l))
unfolding gather
gather-hits w p r [] = refl
gather-hits w p r (x ∷ l) = elim (Bool-cases (has_what w x)) [
  | inl hit ↦
      gather-hit (length l) w p r x l hit
      ∙ gather-hits w (p ++ x ∷ []) r l
      ∙ append_assoc p (x ∷ []) (hits w l ++ unrev r (others w l))
      ∙ sym (ap (λ t. p ++ t) (split-hit w r x l hit))
  | inr miss ↦
      gather-miss (length l) w p r x l miss
      ∙ gather-hits w p (x ∷ r) l
      ∙ sym (ap (λ t. p ++ t) (split-miss w r x l miss))
]

-- Taking them from the front leaves the others.
others-NoHit : (w : ℕ) (l : List Message) → any_what w (others w l) ≡ false
unfolding any_what
others-NoHit w [] = refl
others-NoHit w (x ∷ l) = ground (arith, others-NoHit w l)

pop_what-NoHit : (w : ℕ) (l : List Message) → any_what w l ≡ false → pop_what w l ≡ (l, false)
unfolding any_what pop_what
pop_what-NoHit w [] h = refl
pop_what-NoHit w (x ∷ l) h = ground arith

pop_what-hits :
    (w : ℕ) (l b : List Message)
    → pop_what w (hits w l ++ b) ≡ ((pop_what w b).0, any_what w l || (pop_what w b).1)
unfolding any_what pop_what
pop_what-hits w [] b = refl
pop_what-hits w (x ∷ l) b = ground (arith, pop_what-hits w l b)

-- The first message, which the loop skips, stands between the removed ones and the others.
pop_what-first :
    (w : ℕ) (x : Message) (l : List Message)
    → ◌≡◌ {A = List Message × Bool}
        ((pop_what w (x ∷ others w l)).0, any_what w l || (pop_what w (x ∷ others w l)).1)
        (others w (x ∷ l), any_what w (x ∷ l))
unfolding any_what pop_what
pop_what-first w x l = ground (arith, pop_what-NoHit w (others w l) (others-NoHit w l))

suc_sub : (n : ℕ) → suc n - 1 ≡ n
suc_sub n = omega arith

removed :
    (w : ℕ) (l : List Message)
    → pop_what w (gather (length l - 1) w 1 0 l) ≡ (others w l, any_what w l)
unfolding gather pop_what any_what
removed w [] = refl
removed w (x ∷ l) =
    ap (λ n. pop_what w (gather n w 1 0 (x ∷ l))) (suc_sub (length l))
    ∙ ap (λ t. pop_what w t) (gather-hits w [] (x ∷ []) l)
    ∙ pop_what-hits w l (x ∷ others w l)
    ∙ pop_what-first w x l

-- `RemoveMessages(w)` keeps exactly the messages with another `what`, in their order, changes
-- nothing else, and returns whether there was one to remove; afterwards `HasMessages(w)` is false.
pub remove_messages_lem :
    (h : Handler) (w : ℕ)
    → (remove_messages h w ≡ (record h { messages = others w h.messages }, has_messages h w))
      × (has_messages (remove_messages h w).0 w ≡ false)
unfolding remove_messages has_messages
remove_messages_lem h w = (
  ap (λ t. (record h { messages = t.0 }, t.1)) (removed w h.messages),
  ap (λ t. any_what w t.0) (removed w h.messages) ∙ others-NoHit w h.messages,
)
