-- ===== src/Container/Chains.antt =====
-- Links, and chains of nodes in a heap.
use libfibre.Base.{
  ℕ, zero, suc, ◌≡◌, refl, ◌∙◌, ◌≢◌, true, false, ◌||◌, Option, none, some, List, [], ◌∷◌, ◌++◌,
  arith, ◌==◌, if◌then◌else◌, update, mem, Distinct, mem-append,
}

-- `Sentinel`: the address 0xdeadbeef, which is no node's.
abbrev pub sentinel : ℕ
sentinel = 3735928559

abbrev pub null : ℕ
null = 0

abbrev pub IsNode : ℕ → Type 0
IsNode a = (a ≢ 0) × (a ≢ sentinel)

abbrev pub Heap : Type 0
Heap = ℕ → ℕ

-- `Next(*a)`; `none` if there is no node at the address.
abbrev pub next : ℕ → Heap → Option ℕ
next a h = if (a == null) || (a == sentinel) then none else some (h a)

-- The nodes from `a` on, until the link `e`.
abbrev pub Seg : Heap → ℕ → List ℕ → ℕ → Type 0
Seg h a [] e = a ≡ e
Seg h a (x ∷ xs) e = (a ≡ x) × IsNode x × Seg h (h x) xs e

abbrev pub last : ℕ → List ℕ → ℕ
last d [] = d
last d (x ∷ xs) = last x xs

abbrev pub take : ℕ → List ℕ → List ℕ
take zero xs = []
take (suc n) [] = []
take (suc n) (x ∷ xs) = x ∷ take n xs

abbrev pub drop : ℕ → List ℕ → List ℕ
drop zero xs = xs
drop (suc n) [] = []
drop (suc n) (x ∷ xs) = drop n xs

pub mem-last : (x : ℕ) (xs : List ℕ) → mem (last x xs) (x ∷ xs) ≡ true
mem-last x [] = ground arith
mem-last x (y ∷ xs) = ground (arith, mem-last y xs)

pub last-append : (d x : ℕ) (xs ys : List ℕ) → last d (xs ++ x ∷ ys) ≡ last x ys
last-append d x [] ys = refl
last-append d x (y ∷ xs) ys = last-append y x xs ys

pub mem-take : (a n : ℕ) (xs : List ℕ) → mem a (take n xs) ≡ true → mem a xs ≡ true
mem-take a zero xs h = cc
mem-take a (suc n) [] h = cc
mem-take a (suc n) (x ∷ xs) h = ground (arith, mem-take a n xs)

pub mem-drop : (a n : ℕ) (xs : List ℕ) → mem a (drop n xs) ≡ true → mem a xs ≡ true
mem-drop a zero xs h = h
mem-drop a (suc n) [] h = h
mem-drop a (suc n) (x ∷ xs) h = ground (arith, mem-drop a n xs h)

pub Distinct-take : (n : ℕ) (xs : List ℕ) → Distinct xs → Distinct (take n xs)
Distinct-take zero xs d = tt
Distinct-take (suc n) [] d = tt
Distinct-take (suc n) (x ∷ xs) d = ground (arith, Distinct-take n xs d.1, mem-take x n xs)

pub Distinct-drop : (n : ℕ) (xs : List ℕ) → Distinct xs → Distinct (drop n xs)
Distinct-drop zero xs d = d
Distinct-drop (suc n) [] d = tt
Distinct-drop (suc n) (x ∷ xs) d = Distinct-drop n xs d.1

pub Distinct-append :
    (xs ys : List ℕ)
    → Distinct xs
    → Distinct ys
    → ((a : ℕ) → mem a xs ≡ true → mem a ys ≡ false)
    → Distinct (xs ++ ys)
Distinct-append [] ys d e h = e
Distinct-append (x ∷ xs) ys d e h = (
  ground (arith, mem-append x xs ys, h x),
  Distinct-append xs ys d.1 e (λ a m. h a (ground (arith, m))),
)

-- The last node taken is not among those that stay.
pub last-mem-drop :
    (n x : ℕ) (xs : List ℕ) → Distinct (x ∷ xs) → mem (last x (take n xs)) (drop n xs) ≡ false
last-mem-drop zero x xs d = d.0
last-mem-drop (suc n) x [] d = refl
last-mem-drop (suc n) x (y ∷ xs) d = last-mem-drop n y xs d.1

pub last-drop :
    (n x : ℕ) (xs : List ℕ)
    → Distinct (x ∷ xs)
    → (if last x xs == last x (take n xs) then sentinel else last x xs) ≡ last sentinel (drop n xs)
last-drop zero x [] d = ground arith
last-drop zero x (y ∷ xs) d = ground (arith, mem-last y xs)
last-drop (suc n) x [] d = ground arith
last-drop (suc n) x (y ∷ xs) d = last-drop n y xs d.1

pub Seg-frame :
    (h : Heap) (a e b v : ℕ) (xs : List ℕ)
    → mem b xs ≡ false
    → Seg h a xs e
    → Seg (update h b v) a xs e
Seg-frame h a e b v [] m s = s
Seg-frame h a e b v (x ∷ xs) m (p, q, s) = ground (arith, p, q, Seg-frame h (h x) e b v xs)

pub Seg-append :
    (h : Heap) (a b e : ℕ) (xs ys : List ℕ) → Seg h a xs b → Seg h b ys e → Seg h a (xs ++ ys) e
Seg-append h a b e [] [] s t = s ∙ t
Seg-append h a b e [] (y ∷ ys) s (p, q, t) = (s ∙ p, q, t)
Seg-append h a b e (x ∷ xs) ys (p, q, s) t = (p, q, Seg-append h (h x) b e xs ys s t)

-- A chain whose last link is written.
pub Seg-retarget :
    (h : Heap) (a e v x : ℕ) (xs : List ℕ)
    → Distinct (x ∷ xs)
    → Seg h a (x ∷ xs) e
    → Seg (update h (last x xs) v) a (x ∷ xs) v
Seg-retarget h a e v x [] d (p, q, s) = ground (arith, p, q)
Seg-retarget h a e v x (y ∷ xs) d (p, q, s) =
    ground (arith, p, q, d, mem-last y xs, Seg-retarget h (h x) e v y xs d.1 s)

pub Seg-take :
    (h : Heap) (a e n x : ℕ) (xs : List ℕ)
    → Seg h a (x ∷ xs) e
    → Seg h a (x ∷ take n xs) (h (last x (take n xs)))
Seg-take h a e zero x xs (p, q, s) = (p, q, refl)
Seg-take h a e (suc n) x [] (p, q, s) = (p, q, refl)
Seg-take h a e (suc n) x (y ∷ xs) (p, q, s) = (p, q, Seg-take h (h x) e n y xs s)

pub Seg-drop :
    (h : Heap) (a e n x : ℕ) (xs : List ℕ)
    → Seg h a (x ∷ xs) e
    → Seg h (h (last x (take n xs))) (drop n xs) e
Seg-drop h a e zero x xs (p, q, s) = s
Seg-drop h a e (suc n) x [] (p, q, s) = s
Seg-drop h a e (suc n) x (y ∷ xs) (p, q, s) = Seg-drop h (h x) e n y xs s

pub last-link : (h : Heap) (a e x : ℕ) (xs : List ℕ) → Seg h a (x ∷ xs) e → h (last x xs) ≡ e
last-link h a e x [] (p, v, s) = s
last-link h a e x (y ∷ xs) (p, v, s) = last-link h (h x) e y xs s

pub member-IsNode : (h : Heap) (a e b : ℕ) (xs : List ℕ) → Seg h a xs e → mem b xs ≡ true → IsNode b
member-IsNode h a e b [] s m = cc
member-IsNode h a e b (x ∷ xs) (p, q, s) m = ground (arith, q, member-IsNode h (h x) e b xs s)
