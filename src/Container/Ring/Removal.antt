-- ===== src/Container/Ring/Removal.antt =====
-- Chains are taken out of a ring.
use mathlib.Core.List.{append-nil}
use mathlib.Core.Path.{subst}
use libfibre.Base.{ℕ, ◌≡◌, refl, ◌≢◌, false, some, List, [], ◌∷◌, ◌++◌, arith, mem, inl, inr}
use libfibre.Container.Chains.{last, mem-last, last-append}
use libfibre.Container.Ring.{Links, set_next, set_prev, take_out, close, remove, split}
use libfibre.Container.Ring.Chains.{
  Inner, Nodes, IsRing, IsChain, Disjoint, Disjoint-sym, Inner-set_next, Inner-set_prev,
  Inner-split, Nodes-split,
}

-- The links after `take_out y l`, where `x` comes before `y` and `z` follows `l`.
abbrev taken : Links → (x z : ℕ) → Links
taken h x z = set_prev z x (set_next x z h)

-- Everything but `x` is taken out.
taken_all :
    (h : Links) (x y : ℕ) (ys : List ℕ)
    → IsRing h x (y ∷ ys)
    → IsRing (taken h x x) x [] × Inner (taken h x x) y ys
taken_all h x y ys ((e, f, i), g, p, k) = (
  (tt, ground arith, ground arith, ground (arith, k)),
  Inner-set_prev (set_next x x h) x x y ys (ground (arith, k))
      (Inner-set_next h x x y ys k.1.1 (inr (ground (arith, k))) i),
)

taken_some :
    (h : Links) (x y : ℕ) (ys : List ℕ) (z : ℕ) (zs : List ℕ)
    → IsRing h x ((y ∷ ys) ++ z ∷ zs)
    → IsRing (taken h x z) x (z ∷ zs) × Inner (taken h x z) y ys
taken_some h x y ys z zs ((e, f, i), g, p, k) =
    let (a, b, c, j) = Inner-split h y ys z zs i in
    let (m, n, d) = Nodes-split (x ∷ y ∷ ys) (z ∷ zs) k in
    let off : mem x (z ∷ zs) ≡ false = d x (ground arith) in
    let off_z : mem z (x ∷ y ∷ ys) ≡ false =
      Disjoint-sym (x ∷ y ∷ ys) (z ∷ zs) d z (ground arith) in
    let l : h.next (last z zs) ≡ x = ground (arith, g, last-append y z ys zs) in
    let q : h.prev x ≡ last z zs = ground (arith, p, last-append y z ys zs) in
    (
      (
        (
          ground arith,
          ground arith,
          Inner-set_prev (set_next x z h) z x z zs n.1.0
              (Inner-set_next h x z z zs n.1 (inr off) j),
        ),
        ground (arith, l, off, mem-last z zs),
        ground (arith, q, off),
        ground (arith, m, n, off),
      ),
      Inner-set_prev (set_next x z h) z x y ys (ground (arith, off_z))
          (Inner-set_next h x z y ys m.1.1 (inr (ground (arith, m))) a),
    )

-- The outer links of a chain are written, and a ring apart from it stays.
outer_written :
    (h : Links) (x : ℕ) (zs : List ℕ) (y : ℕ) (ys : List ℕ) (u v : ℕ)
    → IsRing h x zs
    → Inner h y ys
    → Nodes (y ∷ ys)
    → Disjoint (x ∷ zs) (y ∷ ys)
    → let h' = set_prev y u (set_next (last y ys) v h) in
      IsRing h' x zs × Inner h' y ys × (h'.next (last y ys) ≡ v) × (h'.prev y ≡ u)
outer_written h x zs y ys u v (i, e, p, k) c n d =
    let l : ℕ = last y ys in
    let off_l : mem l (x ∷ zs) ≡ false = Disjoint-sym (x ∷ zs) (y ∷ ys) d l (mem-last y ys) in
    let off_y : mem y (x ∷ zs) ≡ false = Disjoint-sym (x ∷ zs) (y ∷ ys) d y (ground arith) in
    let off_e : mem (last x zs) (y ∷ ys) ≡ false = d (last x zs) (mem-last x zs) in
    (
      (
        Inner-set_prev (set_next l v h) y u x zs (ground (arith, off_y))
            (Inner-set_next h l v x zs k.1 (inr off_l) i),
        ground (arith, e, off_e, mem-last y ys, off_l, mem-last x zs),
        ground (arith, p, off_y),
        k,
      ),
      Inner-set_prev (set_next l v h) y u y ys n.1.0 (Inner-set_next h l v y ys n.1 (inl refl) c),
      ground arith,
      ground arith,
    )

-- What is left when `y ∷ ys` is taken out from behind `x`.
abbrev Taken : Links → Links → ℕ → List ℕ → ℕ → List ℕ → Type 0
Taken h h' x zs y ys =
    (take_out y (last y ys) h ≡ some h')
    × IsRing h' x zs
    × Inner h' y ys
    × Nodes (y ∷ ys)
    × Disjoint (x ∷ zs) (y ∷ ys)

pub first_next :
    (h : Links) (y : ℕ) (ys : List ℕ)
    → Inner h y ys
    → Nodes (y ∷ ys)
    → h.next (last y ys) ≢ 0
    → h.next y ≢ 0
first_next h y [] c n e = e
first_next h y (z ∷ ys) c n e = ground (arith, c, n)

pub last_prev :
    (h : Links) (y : ℕ) (ys : List ℕ)
    → Inner h y ys
    → Nodes (y ∷ ys)
    → h.prev y ≢ 0
    → h.prev (last y ys) ≢ 0
last_prev h y [] c n p = p
last_prev h y (z ∷ ys) (e, f, c) n p = last_prev h z ys c (ground (arith, n)) (ground (arith, n, f))

take_out_lem :
    (h : Links) (x y : ℕ) (ys zs : List ℕ)
    → IsRing h x ((y ∷ ys) ++ zs)
    → (h' : Links) × Taken h h' x zs y ys
unfolding take_out
take_out_lem h x y ys [] r =
    let s : IsRing h x (y ∷ ys) = subst (IsRing h x) (append-nil (y ∷ ys)) r in
    let ((a, b, c), d, e, n) = s in
    let m : Nodes (y ∷ ys) = ground (arith, n) in
    let (ring, inner) = taken_all h x y ys s in
    (
      taken h x x,
      (
        ground (arith, b, d, n, first_next h y ys c m, last_prev h y ys c m),
        ring,
        inner,
        m,
        λ w q. ground (arith, n),
      ),
    )
take_out_lem h x y ys (z ∷ zs) r =
    let ((a, b, i), d, e, n) = r in
    let (c, f, g, j) = Inner-split h y ys z zs i in
    let (m, k, off) = Nodes-split (x ∷ y ∷ ys) (z ∷ zs) n in
    let o : Nodes (y ∷ ys) = ground (arith, m) in
    let (ring, inner) = taken_some h x y ys z zs r in
    (
      taken h x z,
      (
        ground (arith, b, f, m, k, first_next h y ys c o, last_prev h y ys c o, off x),
        ring,
        inner,
        o,
        λ w q. ground (arith, q, m, Disjoint-sym (x ∷ y ∷ ys) (z ∷ zs) off w),
      ),
    )

-- When a chain that follows the node `x` of a ring is removed, no assertion fails, the last node of the
-- chain is returned, the other nodes are a ring in the same order, and the chain is left with null
-- outer links, fit to be inserted again.
pub remove-IsRing :
    (h : Links) (x y : ℕ) (ys zs : List ℕ)
    → IsRing h x ((y ∷ ys) ++ zs)
    → (h' : Links) × (remove y (last y ys) h ≡ some (last y ys, h'))
      × IsRing h' x zs
      × IsChain h' y ys
unfolding remove
remove-IsRing h x y ys zs r =
    let (h1, (e, ring, inner, n, d)) = take_out_lem h x y ys zs r in
    let (ring', inner', a, b) = outer_written h1 x zs y ys 0 0 ring inner n d in
    (set_prev y 0 (set_next (last y ys) 0 h1), ground (arith, e), ring', (inner', a, b, n))

-- When a chain that follows the node `x` of a ring is split off, no assertion fails, the last node of
-- the chain is returned, and the chain and the other nodes are a ring each, in the same order.
pub split-IsRing :
    (h : Links) (x y : ℕ) (ys zs : List ℕ)
    → IsRing h x ((y ∷ ys) ++ zs)
    → (h' : Links) × (split y (last y ys) h ≡ some (last y ys, h'))
      × IsRing h' x zs
      × IsRing h' y ys
unfolding split close
split-IsRing h x y ys zs r =
    let (h1, (e, ring, inner, n, d)) = take_out_lem h x y ys zs r in
    let (ring', inner', a, b) = outer_written h1 x zs y ys (last y ys) y ring inner n d in
    (
      set_prev y (last y ys) (set_next (last y ys) y h1),
      ground (arith, e),
      ring',
      (inner', a, b, n),
    )
