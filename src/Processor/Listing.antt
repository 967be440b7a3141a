-- ===== src/Processor/Listing.antt =====
-- A ready queue is a sequence of freds, sorted by priority and in order of arrival within one priority.
use mathlib.Core.List.{append-nil}
use libfibre.Base.{
  ℕ, zero, suc, ◌≡◌, refl, sym, ap, ◌∙◌, ◌⊎◌, inl, inr, Bool-cases, true, false, not, Option, none,
  some, List, [], ◌∷◌, ◌++◌, map, ltb, if◌then◌else◌, update, arith,
}
use libfibre.Processor.{ReadyQueue, dequeue, probe, enqueue, is_empty}

List-cases : (xs : List ℕ) → (xs ≡ []) ⊎ ((y : ℕ) × (ys : List ℕ) × (xs ≡ y ∷ ys))
List-cases [] = inl refl
List-cases (x ∷ xs) = inr (x, xs, refl)

-- A priority and a fred.
abbrev pub Item : Type 0
Item = ℕ × ℕ

abbrev of_class : ℕ → List ℕ → List Item
of_class p xs = map (λ f. (p, f)) xs

abbrev pub listing : ReadyQueue → List Item
listing q = of_class 0 (q 0) ++ (of_class 1 (q 1) ++ of_class 2 (q 2))

-- Behind the items of the same or a higher priority, before those of a lower one.
abbrev pub file : ℕ → ℕ → List Item → List Item
file p f [] = (p, f) ∷ []
file p f (x ∷ xs) = if ltb p x.0 then (p, f) ∷ x ∷ xs else x ∷ file p f xs

abbrev pub first_fred : List Item → Option ℕ
first_fred [] = none
first_fred (x ∷ xs) = some x.1

abbrev pub others : List Item → List Item
others [] = []
others (x ∷ xs) = xs

file-behind :
    (p f k : ℕ) (xs : List ℕ) (ys : List Item)
    → ltb p k ≡ false
    → file p f (of_class k xs ++ ys) ≡ of_class k xs ++ file p f ys
file-behind p f k [] ys h = refl
file-behind p f k (x ∷ xs) ys h = rw h (ap (λ l. (k, x) ∷ l) (file-behind p f k xs ys h))

file-before :
    (p f k : ℕ) (xs : List ℕ) (ys : List Item)
    → ltb p k ≡ true
    → file p f ys ≡ (p, f) ∷ ys
    → file p f (of_class k xs ++ ys) ≡ (p, f) ∷ of_class k xs ++ ys
file-before p f k [] ys h e = e
file-before p f k (x ∷ xs) ys h e = rw h refl

of_class-snoc :
    (p f : ℕ) (xs : List ℕ) (ys : List Item)
    → of_class p (xs ++ f ∷ []) ++ ys ≡ of_class p xs ++ (p, f) ∷ ys
of_class-snoc p f [] ys = refl
of_class-snoc p f (x ∷ xs) ys = ap (λ l. (p, x) ∷ l) (of_class-snoc p f xs ys)

file-last :
    (p f k : ℕ) (xs : List ℕ) → ltb p k ≡ true → file p f (of_class k xs) ≡ (p, f) ∷ of_class k xs
file-last p f k [] h = refl
file-last p f k (x ∷ xs) h = rw h refl

listing-update :
    (q : ReadyQueue) (p f : ℕ)
    → ltb p 3 ≡ true
    → listing (update q p (q p ++ f ∷ [])) ≡ file p f (listing q)
listing-update q zero f h =
    of_class-snoc 0 f (q 0) (of_class 1 (q 1) ++ of_class 2 (q 2))
    ∙ sym (
        file-behind 0 f 0 (q 0) (of_class 1 (q 1) ++ of_class 2 (q 2)) refl
        ∙ ap (λ l. of_class 0 (q 0) ++ l)
            (file-before 0 f 1 (q 1) (of_class 2 (q 2)) refl (file-last 0 f 2 (q 2) refl)))
listing-update q (suc zero) f h =
    ap (λ l. of_class 0 (q 0) ++ l) (of_class-snoc 1 f (q 1) (of_class 2 (q 2)))
    ∙ sym (
        file-behind 1 f 0 (q 0) (of_class 1 (q 1) ++ of_class 2 (q 2)) refl
        ∙ ap (λ l. of_class 0 (q 0) ++ l)
            (file-behind 1 f 1 (q 1) (of_class 2 (q 2)) refl
              ∙ ap (λ l. of_class 1 (q 1) ++ l) (file-last 1 f 2 (q 2) refl)))
listing-update q (suc (suc zero)) f h =
    ap (λ l. of_class 0 (q 0) ++ (of_class 1 (q 1) ++ l))
      (sym (append-nil (of_class 2 (q 2 ++ f ∷ [])))
        ∙ of_class-snoc 2 f (q 2) []
        ∙ sym (
            ap (λ l. file 2 f l) (sym (append-nil (of_class 2 (q 2))))
            ∙ file-behind 2 f 2 (q 2) [] refl))
    ∙ sym (
        file-behind 2 f 0 (q 0) (of_class 1 (q 1) ++ of_class 2 (q 2)) refl
        ∙ ap (λ l. of_class 0 (q 0) ++ l) (file-behind 2 f 1 (q 1) (of_class 2 (q 2)) refl))
listing-update q (suc (suc (suc p))) f h = absurd (ground (arith, h))

-- Every enqueue with a priority in range files the fred behind all of its own or a higher priority, in
-- order of arrival, and changes nothing else of the sequence; every other enqueue fails its assertion.
pub enqueue-listing :
    (f p : ℕ) (q : ReadyQueue)
    → (enqueue f p q ≡ none) × (ltb p 3 ≡ false)
      ⊎ ((q' : ReadyQueue) × (enqueue f p q ≡ some q') × (listing q' ≡ file p f (listing q)))
unfolding enqueue
enqueue-listing f p q = elim (Bool-cases (ltb p 3)) [
  | inl h ↦ inr (update q p (q p ++ f ∷ []), rw h refl, listing-update q p f h)
  | inr h ↦ inl (rw h refl, h)
]

-- A dequeue takes the first fred of the sequence, if there is one, and leaves the others; `probe` tells
-- whether there is one.
pub dequeue-listing :
    (q : ReadyQueue)
    → ((dequeue q).0 ≡ first_fred (listing q))
      × (listing (dequeue q).1 ≡ others (listing q))
      × (probe q ≡ not (is_empty (listing q)))
unfolding dequeue probe
dequeue-listing q = elim (List-cases (q 0)) [
  | inl a ↦ elim (List-cases (q 1)) [
    | inl b ↦ elim (List-cases (q 2)) [
      | inl c ↦ rw (a, b, c) (rw (a, b, c) (refl, refl, refl))
      | inr (x, xs, c) ↦ rw (a, b, c) (rw (a, b) (refl, refl, refl))
    ]
    | inr (x, xs, b) ↦ rw (a, b) (rw a (refl, refl, refl))
  ]
  | inr (x, xs, a) ↦ rw a (refl, refl, refl)
]
