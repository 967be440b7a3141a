-- ===== src/Container/Ring/Insertion.antt =====
-- Chains go into a ring behind or before a node, and two rings become one.
use libfibre.Base.{
  ℕ, ◌≡◌, refl, ◌≢◌, Bool, true, false, some, List, [], ◌∷◌, ◌++◌, arith, mem, mem-append, inl, inr,
}
use mathlib.Core.List.{append-nil}
use libfibre.Container.Chains.{last, mem-last, last-append}
use libfibre.Container.Ring.{
  Links, set_next, set_prev, combine_after, combine_before, insert_after, insert_before, join_after,
  join_before,
}
use libfibre.Container.Ring.Chains.{
  Inner, Nodes, IsRing, IsChain, Disjoint, Disjoint-sym, Inner-writes, Inner-append, Nodes-append,
}

-- The links after `combine_after x y (last y ys)`, where `z` follows `x`.
abbrev inserted : Links → (x z y l : ℕ) → Links
inserted h x z y l = set_next x y (set_next l z (set_prev z l (set_prev y x h)))

after_lone :
    (h : Links) (x y : ℕ) (ys : List ℕ)
    → IsRing h x []
    → Inner h y ys
    → Nodes (y ∷ ys)
    → Disjoint (x ∷ []) (y ∷ ys)
    → IsRing (inserted h x x y (last y ys)) x (y ∷ ys)
after_lone h x y ys (i, e, p, z) c n d =
    let l : ℕ = last y ys in
    let off : mem x (y ∷ ys) ≡ false = d x (ground arith) in
    let in_l : mem l (y ∷ ys) ≡ true = mem-last y ys in
    (
      (
        ground arith,
        ground (arith, off),
        Inner-writes h y x x l l x x y y ys n.1 n.1.0 (ground (arith, off)) (inl refl) (inr off) c,
      ),
      ground (arith, off, in_l),
      ground arith,
      Nodes-append (x ∷ []) (y ∷ ys) z n d,
    )

after_more :
    (h : Links) (x z : ℕ) (zs : List ℕ) (y : ℕ) (ys : List ℕ)
    → IsRing h x (z ∷ zs)
    → Inner h y ys
    → Nodes (y ∷ ys)
    → Disjoint (x ∷ z ∷ zs) (y ∷ ys)
    → IsRing (inserted h x z y (last y ys)) x ((y ∷ ys) ++ z ∷ zs)
after_more h x z zs y ys ((e, f, i), g, p, k) c n d =
    let l : ℕ = last y ys in
    let off : mem x (y ∷ ys) ≡ false = d x (ground arith) in
    let off_z : mem z (y ∷ ys) ≡ false = d z (ground arith) in
    let in_l : mem l (y ∷ ys) ≡ true = mem-last y ys in
    let off_l : mem l (x ∷ z ∷ zs) ≡ false = Disjoint-sym (x ∷ z ∷ zs) (y ∷ ys) d l in_l in
    let off_y : mem y (x ∷ z ∷ zs) ≡ false =
      Disjoint-sym (x ∷ z ∷ zs) (y ∷ ys) d y (ground arith) in
    let in_e : mem (last z zs) (z ∷ zs) ≡ true = mem-last z zs in
    let between : Nodes ((y ∷ ys) ++ z ∷ zs) =
      Nodes-append (y ∷ ys) (z ∷ zs) n (ground (arith, k))
        (λ a q. ground (arith, Disjoint-sym (x ∷ z ∷ zs) (y ∷ ys) d a q)) in
    let j : Inner (inserted h x z y l) y ys =
      Inner-writes h y x z l l z x y y ys n.1 n.1.0 (ground (arith, off_z)) (inl refl) (inr off)
        c in
    let o : Inner (inserted h x z y l) z zs =
      Inner-writes h y x z l l z x y z zs k.1.1 (ground (arith, off_y)) k.1.1.0
        (inr (ground (arith, off_l))) (inr (ground (arith, k))) i in
    (
      (
        ground arith,
        ground (arith, off_z),
        Inner-append (inserted h x z y l) y ys z zs j (ground (arith, off_l)) (ground arith) o,
      ),
      ground (arith, last-append y z ys zs, g, off_l, in_e, k),
      ground (arith, last-append y z ys zs, p, off_z, off),
      ground (arith, k, off, between, mem-append x (y ∷ ys) (z ∷ zs)),
    )

-- The links after `combine_before x y (last y ys)`, where `e` comes before `x`.
abbrev put_before : Links → (x e y l : ℕ) → Links
put_before h x e y l = set_prev x l (set_prev y e (set_next e y (set_next l x h)))

before_any :
    (h : Links) (x : ℕ) (xs : List ℕ) (y : ℕ) (ys : List ℕ)
    → IsRing h x xs
    → Inner h y ys
    → Nodes (y ∷ ys)
    → Disjoint (x ∷ xs) (y ∷ ys)
    → IsRing (put_before h x (last x xs) y (last y ys)) x (xs ++ y ∷ ys)
before_any h x xs y ys (i, g, p, k) c n d =
    let l : ℕ = last y ys in
    let e : ℕ = last x xs in
    let in_e : mem e (x ∷ xs) ≡ true = mem-last x xs in
    let in_l : mem l (y ∷ ys) ≡ true = mem-last y ys in
    let off : mem x (y ∷ ys) ≡ false = d x (ground arith) in
    let off_e : mem e (y ∷ ys) ≡ false = d e in_e in
    let off_l : mem l (x ∷ xs) ≡ false = Disjoint-sym (x ∷ xs) (y ∷ ys) d l in_l in
    let off_y : mem y (x ∷ xs) ≡ false = Disjoint-sym (x ∷ xs) (y ∷ ys) d y (ground arith) in
    let j : Inner (put_before h x e y l) y ys =
      Inner-writes h y e x l l x e y y ys n.1 n.1.0 (ground (arith, off)) (inl refl) (inr off_e)
        c in
    let o : Inner (put_before h x e y l) x xs =
      Inner-writes h y e x l l x e y x xs k.1 (ground (arith, off_y)) k.1.0 (inr off_l) (inl refl)
        i in
    (
      Inner-append (put_before h x e y l) x xs y ys o (ground (arith, off_e, in_l))
          (ground (arith, off)) j,
      ground (arith, last-append x y xs ys, off_e, in_l),
      ground (arith, last-append x y xs ys),
      Nodes-append (x ∷ xs) (y ∷ ys) k n d,
    )

pub neighbours-ne-zero :
    (h : Links) (x : ℕ) (xs : List ℕ) → IsRing h x xs → (h.next x ≢ 0) × (h.prev x ≢ 0) × (x ≢ 0)
neighbours-ne-zero h x [] (i, g, p, k) = ground (arith, g, p, k)
neighbours-ne-zero h x (z ∷ zs) (i, g, p, k) = ground (arith, i, g, p, k, mem-last z zs)

combine_after-IsRing :
    (h : Links) (x : ℕ) (xs : List ℕ) (y : ℕ) (ys : List ℕ)
    → IsRing h x xs
    → Inner h y ys
    → Nodes (y ∷ ys)
    → Disjoint (x ∷ xs) (y ∷ ys)
    → (h' : Links) × (combine_after x y (last y ys) h ≡ some h') × IsRing h' x ((y ∷ ys) ++ xs)
unfolding combine_after
combine_after-IsRing h x [] y ys r c n d = (
  inserted h x x y (last y ys),
  ground (arith, neighbours-ne-zero h x [] r, r, d x),
  rw (append-nil ys) (after_lone h x y ys r c n d),
)
combine_after-IsRing h x (z ∷ zs) y ys r c n d = (
  inserted h x z y (last y ys),
  ground (arith, neighbours-ne-zero h x (z ∷ zs) r, r, d x),
  after_more h x z zs y ys r c n d,
)

combine_before-IsRing :
    (h : Links) (x : ℕ) (xs : List ℕ) (y : ℕ) (ys : List ℕ)
    → IsRing h x xs
    → Inner h y ys
    → Nodes (y ∷ ys)
    → Disjoint (x ∷ xs) (y ∷ ys)
    → (h' : Links) × (combine_before x y (last y ys) h ≡ some h') × IsRing h' x (xs ++ y ∷ ys)
unfolding combine_before
combine_before-IsRing h x xs y ys r c n d = (
  put_before h x (last x xs) y (last y ys),
  ground (arith, neighbours-ne-zero h x xs r, r, d x, mem-last y ys),
  before_any h x xs y ys r c n d,
)

-- A chain of nodes that are not in a ring, its outer links null, goes behind the ring's node `x` by
-- `insert_after` and before it by `insert_before`, in its order, and no assertion fails.
pub insert-IsRing :
    (h : Links) (force : Bool) (x : ℕ) (xs : List ℕ) (y : ℕ) (ys : List ℕ)
    → IsRing h x xs
    → IsChain h y ys
    → Disjoint (x ∷ xs) (y ∷ ys)
    → ((h' : Links) × (insert_after force x y (last y ys) h ≡ some h')
        × IsRing h' x ((y ∷ ys) ++ xs))
      × ((h' : Links) × (insert_before x y (last y ys) h ≡ some h') × IsRing h' x (xs ++ y ∷ ys))
unfolding insert_after insert_before
insert-IsRing h force x xs y ys r (c, e, p, n) d =
    let (a, ae, ar) = combine_after-IsRing h x xs y ys r c n d in
    let (b, be, br) = combine_before-IsRing h x xs y ys r c n d in
    ((a, ground (arith, e, p, ae), ar), (b, ground (arith, e, p, be), br))

-- A ring goes into another ring behind the node `x` by `join_after` and before it by `join_before`, in
-- its order from `y` on, and no assertion fails.
pub join-IsRing :
    (h : Links) (x : ℕ) (xs : List ℕ) (y : ℕ) (ys : List ℕ)
    → IsRing h x xs
    → IsRing h y ys
    → Disjoint (x ∷ xs) (y ∷ ys)
    → ((h' : Links) × (join_after x y (last y ys) h ≡ some h') × IsRing h' x ((y ∷ ys) ++ xs))
      × ((h' : Links) × (join_before x y (last y ys) h ≡ some h') × IsRing h' x (xs ++ y ∷ ys))
unfolding join_after join_before
join-IsRing h x xs y ys r (c, e, p, n) d =
    let (a, ae, ar) = combine_after-IsRing h x xs y ys r c n d in
    let (b, be, br) = combine_before-IsRing h x xs y ys r c n d in
    ((a, ground (arith, e, p, ae), ar), (b, ground (arith, e, p, be), br))
