-- ===== src/Container/List/Contents.antt =====
-- The list is the sequence of the nodes behind its anchor.
use mathlib.Core.Path.{subst}
use mathlib.Core.List.{append-nil}
use libfibre.Base.{
  ℕ, zero, suc, ◌+◌, ◌≡◌, refl, ap, sym, ◌∙◌, ◌≢◌, true, false, some, List, [], ◌∷◌, ◌++◌, arith,
  leb, if◌then◌else◌, mem, length,
}
use libfibre.Container.Chains.{last, take, drop, mem-last, last-append}
use libfibre.Container.Ring.{Links, linked, combine_after, combine_before}
use libfibre.Container.Ring
use libfibre.Container.Ring.Chains.{Inner, IsRing, IsChain, Disjoint, Inner-split, Nodes-split}
use libfibre.Container.Ring.Insertion.{insert-IsRing, neighbours-ne-zero}
use libfibre.Container.Ring.Removal.{first_next, last_prev}
use libfibre.Container.Ring.Rotation.{remove-middle}
use libfibre.Container.List.{
  fresh, is_empty, push_front, push_back, splice_back, pop_front, pop_back, remove_all, remove_loop,
  remove,
}

-- The anchor and the elements, in order, are a ring.
abbrev pub IsList : ℕ → List ℕ → Links → Type 0
IsList a xs h = IsRing h a xs

fresh-IsList : (h : Links) (a : ℕ) → a ≢ 0 → IsList a [] (fresh a h)
unfolding fresh Ring.close
fresh-IsList h a nz = (tt, ground arith, ground arith, ground arith)

-- What follows the last node comes before the anchor.
back-next : (h : Links) (a : ℕ) (xs : List ℕ) → IsList a xs h → h.next (h.prev a) ≡ a
back-next h a xs (i, e, p, n) = rw p e

front-prev : (h : Links) (a : ℕ) (xs : List ℕ) → IsList a xs h → h.prev (h.next a) ≡ a
front-prev h a [] (i, e, p, n) = ground (arith, e, p)
front-prev h a (x ∷ xs) (i, e, p, n) = ground (arith, i)

back-linked : (h : Links) (a : ℕ) (xs : List ℕ) → IsList a xs h → linked (h.prev a) h ≡ true
back-linked h a xs (i, e, p, n) =
    let (b, c, d) = neighbours-ne-zero h a xs (i, e, p, n) in
    ground (arith, e, p, d, last_prev h a xs i n c)

front-linked : (h : Links) (a : ℕ) (xs : List ℕ) → IsList a xs h → linked (h.next a) h ≡ true
front-linked h a [] r =
    let (i, e, p, n) = r in
    let (b, c, d) = neighbours-ne-zero h a [] r in ground (arith, e, p, b, c)
front-linked h a (x ∷ []) r = let (i, e, p, n) = r in ground (arith, i, e, p, n)
front-linked h a (x ∷ y ∷ xs) r = let (i, e, p, n) = r in ground (arith, i, e, p, n)

-- Behind the last node is before the anchor.
splice_back-insert_before :
    (h : Links) (a : ℕ) (xs : List ℕ) (y l : ℕ)
    → IsList a xs h
    → splice_back a y l h ≡ Ring.insert_before a y l h
unfolding splice_back Ring.insert_before Ring.insert_after Ring.combine_after Ring.combine_before
splice_back-insert_before h a xs y l r =
    let (b, c, d) = neighbours-ne-zero h a xs r in
    ground (arith, b, c, d, back-next h a xs r, back-linked h a xs r)

-- Before the first node is behind the anchor.
push_front-insert_after :
    (h : Links) (a : ℕ) (xs : List ℕ) (y : ℕ)
    → IsList a xs h
    → push_front a y h ≡ Ring.insert_after false a y y h
unfolding push_front Ring.insert_before Ring.insert_after Ring.combine_after Ring.combine_before
push_front-insert_after h a xs y r =
    let (b, c, d) = neighbours-ne-zero h a xs r in
    ground (arith, b, c, d, front-prev h a xs r, front-linked h a xs r)

lone_apart : (a y : ℕ) (xs : List ℕ) → mem y (a ∷ xs) ≡ false → Disjoint (a ∷ xs) (y ∷ [])
lone_apart a y xs o b q = ground (arith, o, q)

-- A node that is in no list goes to the front by `push_front` and to the back by `push_back`, and no
-- assertion fails.
pub push-IsList :
    (h : Links) (a : ℕ) (xs : List ℕ) (y : ℕ)
    → IsList a xs h
    → IsChain h y []
    → mem y (a ∷ xs) ≡ false
    → ((h' : Links) × (push_front a y h ≡ some h') × IsList a (y ∷ xs) h')
      × ((h' : Links) × (push_back a y h ≡ some h') × IsList a (xs ++ y ∷ []) h')
unfolding push_back splice_back
push-IsList h a xs y r c o =
    let ((h1, e, f), (h2, g, b)) = insert-IsRing h false a xs y [] r c (lone_apart a y xs o) in
    (
      (h1, push_front-insert_after h a xs y r ∙ e, f),
      (h2, splice_back-insert_before h a xs y y r ∙ g, b),
    )

-- A chain of nodes that are in no list goes to the back in its order, and no assertion fails.
pub splice_back-IsList :
    (h : Links) (a : ℕ) (xs : List ℕ) (y : ℕ) (ys : List ℕ)
    → IsList a xs h
    → IsChain h y ys
    → Disjoint (a ∷ xs) (y ∷ ys)
    → (h' : Links) × (splice_back a y (last y ys) h ≡ some h') × IsList a (xs ++ y ∷ ys) h'
splice_back-IsList h a xs y ys r c d =
    let (_, (h2, g, b)) = insert-IsRing h false a xs y ys r c d in
    (h2, splice_back-insert_before h a xs y (last y ys) r ∙ g, b)

nonempty : (h : Links) (a x : ℕ) (xs : List ℕ) → IsList a (x ∷ xs) h → is_empty a h ≡ some false
unfolding is_empty
nonempty h a x xs (i, e, p, n) = ground (arith, i, p, n, mem-last x xs)

nonempty_snoc :
    (h : Links) (a : ℕ) (xs : List ℕ) (z : ℕ)
    → IsList a (xs ++ z ∷ []) h
    → is_empty a h ≡ some false
nonempty_snoc h a [] z r = nonempty h a z [] r
nonempty_snoc h a (x ∷ xs) z r = nonempty h a x (xs ++ z ∷ []) r

-- `pop_front` of a list that is not empty removes and returns its first node, `pop_back` its last one,
-- with null links, and no assertion fails.
pub pop-IsList :
    (h h₂ : Links) (a x : ℕ) (xs : List ℕ)
    → IsList a (x ∷ xs) h
    → IsList a (xs ++ x ∷ []) h₂
    → ((h' : Links) × (pop_front a h ≡ some (x, h')) × IsList a xs h' × IsChain h' x [])
      × ((h' : Links) × (pop_back a h₂ ≡ some (x, h')) × IsList a xs h' × IsChain h' x [])
unfolding pop_front pop_back
pop-IsList h h₂ a x xs r s =
    let (h1, e, f, c) = remove-middle h a [] x [] xs r in
    let (h2, g, b, d) = remove-middle h₂ a xs x [] [] s in
    let back_is : h₂.prev a ≡ x = s.2 ∙ last-append a x xs [] in
    (
      (h1, ground (arith, nonempty h a x xs r, e, r), f, c),
      (
        h2,
        ground (arith, nonempty_snoc h₂ a xs x s, back_is, g),
        subst (λ l. IsList a l h2) (append-nil xs) b,
        d,
      ),
    )

take-drop : (n : ℕ) (xs : List ℕ) → take n xs ++ drop n xs ≡ xs
take-drop zero xs = refl
take-drop (suc n) [] = refl
take-drop (suc n) (x ∷ xs) = ap (λ (l : List ℕ). x ∷ l) (take-drop n xs)

remove_loop_lem :
    (h : Links) (a n i count y : ℕ) (zs : List ℕ)
    → Inner h y zs
    → h.next (last y zs) ≡ a
    → mem a zs ≡ false
    → remove_loop n i count a y h
      ≡ (last y (take n zs), if leb n (length zs) then count else i + length zs)
unfolding remove_loop
remove_loop_lem h a zero i count y zs c e o = ground arith
remove_loop_lem h a (suc n) i count y [] c e o = ground (arith, e)
remove_loop_lem h a (suc n) i count y (z ∷ zs) (f, g, c) e o =
    ground (arith, f, o, remove_loop_lem h a n (suc i) count z zs c e)

-- An element and what follows it.
from_middle :
    (h : Links) (a : ℕ) (ps : List ℕ) (y : ℕ) (zs : List ℕ)
    → IsList a (ps ++ y ∷ zs) h
    → Inner h y zs × (h.next (last y zs) ≡ a) × (mem a zs ≡ false) × (linked y h ≡ true)
from_middle h a ps y zs (i, e, p, n) =
    let (j, f, g, c) = Inner-split h a ps y zs i in
    let (m, o, d) = Nodes-split (a ∷ ps) (y ∷ zs) n in
    let up : h.next (last y zs) ≡ a = ground (arith, e, last-append a y ps zs) in
    (
      c,
      up,
      ground (arith, d a),
      ground (arith, g, m, mem-last a ps, first_next h y zs c o (ground (arith, up, m))),
    )

-- `remove` with a positive count, from an element on, removes as many nodes as the count says and the
-- list has from there. It returns the last of them and how many they are; they are left as a chain
-- with null ends, the other elements stay in order, and no assertion fails.
pub remove-IsList :
    (h : Links) (a : ℕ) (ps : List ℕ) (y : ℕ) (zs : List ℕ) (n : ℕ)
    → IsList a (ps ++ y ∷ zs) h
    → (h' : Links) × (remove a y (suc n) h
        ≡ some (
          (last y (take n zs), if leb (suc n) (suc (length zs)) then suc n else suc (length zs)),
          h',
        ))
      × IsList a (ps ++ drop n zs) h'
      × IsChain h' y (take n zs)
unfolding remove
remove-IsList h a ps y zs n r =
    let (c, e, o, l) = from_middle h a ps y zs r in
    let s : IsList a (ps ++ y ∷ (take n zs ++ drop n zs)) h =
      subst (λ (w : List ℕ). IsList a (ps ++ y ∷ w) h) (sym (take-drop n zs)) r in
    let (h', f, ring, chain) = remove-middle h a ps y (take n zs) (drop n zs) s in
    (h', ground (arith, l, remove_loop_lem h a n 1 (suc n) y zs c e o, f), ring, chain)

-- `removeAll` of a list that is not empty empties it, returns its last node, and leaves the nodes as a
-- chain with null ends.
pub remove_all-IsList :
    (h : Links) (a x : ℕ) (xs : List ℕ)
    → IsList a (x ∷ xs) h
    → (h' : Links) × (remove_all a h ≡ some (last x xs, h')) × IsList a [] h' × IsChain h' x xs
unfolding remove_all
remove_all-IsList h a x xs r =
    let s : IsList a (x ∷ (xs ++ [])) h =
      subst (λ (w : List ℕ). IsList a (x ∷ w) h) (sym (append-nil xs)) r in
    let (h', e, ring, chain) = remove-middle h a [] x xs [] s in
    (h', ground (arith, e, r), ring, chain)
