-- ===== src/Container/Ring/Chains.antt =====
-- Doubly linked chains, and rings made of them.
use libfibre.Base.{
  ℕ, ◌≡◌, refl, ◌≢◌, ◌⊎◌, true, false, List, [], ◌∷◌, ◌++◌, arith, mem, Distinct, mem-append,
}
use libfibre.Container.Chains.{last, mem-last}
use libfibre.Container.Ring.{Links, set_next, set_prev}

-- The links between neighbours of `x ∷ xs`; the outer links of both ends are free.
abbrev pub Inner : Links → ℕ → List ℕ → Type 0
Inner h x [] = Unit
Inner h x (y ∷ ys) = (h.next x ≡ y) × (h.prev y ≡ x) × Inner h y ys

-- Distinct nodes, none of them null.
abbrev pub Nodes : List ℕ → Type 0
Nodes xs = (mem 0 xs ≡ false) × Distinct xs

abbrev pub IsRing : Links → ℕ → List ℕ → Type 0
IsRing h x xs = Inner h x xs × (h.next (last x xs) ≡ x) × (h.prev x ≡ last x xs) × Nodes (x ∷ xs)

-- A chain whose outer links are null.
abbrev pub IsChain : Links → ℕ → List ℕ → Type 0
IsChain h x xs = Inner h x xs × (h.next (last x xs) ≡ 0) × (h.prev x ≡ 0) × Nodes (x ∷ xs)

abbrev pub Disjoint : List ℕ → List ℕ → Type 0
Disjoint xs ys = (a : ℕ) → mem a xs ≡ true → mem a ys ≡ false

-- Writes outside a chain, or at its ends.
pub Inner-set_next :
    (h : Links) (p v x : ℕ) (xs : List ℕ)
    → Distinct (x ∷ xs)
    → (p ≡ last x xs) ⊎ (mem p (x ∷ xs) ≡ false)
    → Inner h x xs
    → Inner (set_next p v h) x xs
Inner-set_next h p v x [] d o i = tt
Inner-set_next h p v x (y ∷ ys) d o (e, f, i) =
    ground (arith, e, f, o, mem-last y ys, Inner-set_next h p v y ys d.1 (ground (arith, o)) i)

pub Inner-set_prev :
    (h : Links) (p v x : ℕ) (xs : List ℕ)
    → mem p xs ≡ false
    → Inner h x xs
    → Inner (set_prev p v h) x xs
Inner-set_prev h p v x [] o i = tt
Inner-set_prev h p v x (y ∷ ys) o (e, f, i) =
    ground (arith, e, f, Inner-set_prev h p v y ys (ground (arith, o)) i)

pub Inner-append :
    (h : Links) (x : ℕ) (xs : List ℕ) (y : ℕ) (ys : List ℕ)
    → Inner h x xs
    → h.next (last x xs) ≡ y
    → h.prev y ≡ last x xs
    → Inner h y ys
    → Inner h x (xs ++ y ∷ ys)
Inner-append h x [] y ys i n p j = (n, p, j)
Inner-append h x (z ∷ zs) y ys (e, f, i) n p j = (e, f, Inner-append h z zs y ys i n p j)

pub Inner-split :
    (h : Links) (x : ℕ) (xs : List ℕ) (y : ℕ) (ys : List ℕ)
    → Inner h x (xs ++ y ∷ ys)
    → Inner h x xs × (h.next (last x xs) ≡ y) × (h.prev y ≡ last x xs) × Inner h y ys
Inner-split h x [] y ys (n, p, j) = (tt, n, p, j)
Inner-split h x (z ∷ zs) y ys (e, f, i) =
    let (a, b, c, d) = Inner-split h z zs y ys i in ((e, f, a), b, c, d)

-- Nodes of a list and of its parts.
pub Nodes-append : (xs ys : List ℕ) → Nodes xs → Nodes ys → Disjoint xs ys → Nodes (xs ++ ys)
Nodes-append [] ys n m d = m
Nodes-append (x ∷ xs) ys n m d = ground (
  arith,
  n,
  m,
  d x,
  mem-append x xs ys,
  mem-append 0 xs ys,
  Nodes-append xs ys (ground (arith, n)) m (λ a q. d a (ground (arith, q))),
)

pub Nodes-split : (xs ys : List ℕ) → Nodes (xs ++ ys) → Nodes xs × Nodes ys × Disjoint xs ys
Nodes-split [] ys n = ((refl, tt), n, λ a q. cc)
Nodes-split (x ∷ xs) ys n =
    let (a, b, d) = Nodes-split xs ys (ground (arith, n)) in
    (ground (arith, n, a, mem-append x xs ys), b, λ c q. ground (arith, n, d c, mem-append x xs ys))

pub Disjoint-sym : (xs ys : List ℕ) → Disjoint xs ys → Disjoint ys xs
Disjoint-sym xs ys d a q = ground (arith, d a)

-- A member is not null.
pub mem-ne-zero : (a : ℕ) (xs : List ℕ) → mem 0 xs ≡ false → mem a xs ≡ true → a ≢ 0
mem-ne-zero a xs z m = ground arith

-- Four writes, each outside a chain or at one of its ends.
pub Inner-writes :
    (h : Links) (p v q w m u n t x : ℕ) (xs : List ℕ)
    → Distinct (x ∷ xs)
    → mem p xs ≡ false
    → mem q xs ≡ false
    → (m ≡ last x xs) ⊎ (mem m (x ∷ xs) ≡ false)
    → (n ≡ last x xs) ⊎ (mem n (x ∷ xs) ≡ false)
    → Inner h x xs
    → Inner (set_next n t (set_next m u (set_prev q w (set_prev p v h)))) x xs
Inner-writes h p v q w m u n t x xs d a b e f i =
    let h1 : Links = set_prev p v h in
    let h2 : Links = set_prev q w h1 in
    let h3 : Links = set_next m u h2 in
    Inner-set_next h3 n t x xs d f (
      Inner-set_next h2 m u x xs d e (Inner-set_prev h1 q w x xs b (Inner-set_prev h p v x xs a i)))
