-- ===== src/Container/Ring/Rotation.antt =====
-- A ring may be read from any of its nodes on.
use mathlib.Core.Path.{subst}
use mathlib.Core.List.{append_assoc}
use libfibre.Base.{ℕ, ◌≡◌, refl, ap, sym, ◌⊎◌, inl, inr, some, [], List, ◌∷◌, ◌++◌, arith}
use libfibre.Container.Chains.{last, last-append}
use libfibre.Container.Ring.{Links, remove, join_after, split}
use libfibre.Container.Ring.Removal.{remove-IsRing, split-IsRing}
use libfibre.Container.Ring.Insertion.{join-IsRing}
use libfibre.Container.Ring.Chains.{
  IsChain, IsRing, Disjoint, Disjoint-sym, Inner-append, Inner-split, Nodes-append, Nodes-split,
}

pub IsRing-rotate :
    (h : Links) (x : ℕ) (xs : List ℕ) (y : ℕ) (ys : List ℕ)
    → IsRing h x (xs ++ y ∷ ys)
    → IsRing h y (ys ++ x ∷ xs)
IsRing-rotate h x xs y ys (i, e, p, n) =
    let (a, f, g, b) = Inner-split h x xs y ys i in
    let (l, m, d) = Nodes-split (x ∷ xs) (y ∷ ys) n in
    (
      Inner-append h y ys x xs b (ground (arith, e, last-append x y xs ys))
          (ground (arith, p, last-append x y xs ys)) a,
      ground (arith, f, last-append y x ys xs),
      ground (arith, g, last-append y x ys xs),
      Nodes-append (y ∷ ys) (x ∷ xs) m l (Disjoint-sym (x ∷ xs) (y ∷ ys) d),
    )

-- A list is empty or has a last element.
snoc_view : (xs : List ℕ) → (xs ≡ []) ⊎ ((ws : List ℕ) × (w : ℕ) × (xs ≡ ws ++ w ∷ []))
snoc_view [] = inl refl
snoc_view (x ∷ xs) = elim (snoc_view xs) [
  | inl e ↦ inr ([], x, ap (λ (l : List ℕ). x ∷ l) e)
  | inr (ws, w, e) ↦ inr (x ∷ ws, w, ap (λ (l : List ℕ). x ∷ l) e)
]

-- A chain is removed from behind the node `w`.
remove_behind :
    (h : Links) (a : ℕ) (ws : List ℕ) (w y : ℕ) (ys zs : List ℕ)
    → IsRing h a ((ws ++ w ∷ []) ++ (y ∷ (ys ++ zs)))
    → (h' : Links) × (remove y (last y ys) h ≡ some (last y ys, h'))
      × IsRing h' a ((ws ++ w ∷ []) ++ zs)
      × IsChain h' y ys
remove_behind h a ws w y ys zs r =
    let r1 : IsRing h a (ws ++ w ∷ y ∷ (ys ++ zs)) =
      subst (IsRing h a) (append_assoc ws (w ∷ []) (y ∷ (ys ++ zs))) r in
    let r2 : IsRing h w (y ∷ ((ys ++ zs) ++ a ∷ ws)) = IsRing-rotate h a ws w (y ∷ (ys ++ zs)) r1 in
    let r3 : IsRing h w (y ∷ (ys ++ (zs ++ a ∷ ws))) =
      subst (λ (l : List ℕ). IsRing h w (y ∷ l)) (append_assoc ys zs (a ∷ ws)) r2 in
    let (h', f, ring, chain) = remove-IsRing h w y ys (zs ++ a ∷ ws) r3 in
    let ring' : IsRing h' a (ws ++ w ∷ zs) = IsRing-rotate h' w zs a ws ring in
    (h', f, subst (IsRing h' a) (sym (append_assoc ws (w ∷ []) zs)) ring', chain)

-- A chain is removed from any place of a ring.
pub remove-middle :
    (h : Links) (a : ℕ) (ps : List ℕ) (y : ℕ) (ys zs : List ℕ)
    → IsRing h a (ps ++ (y ∷ (ys ++ zs)))
    → (h' : Links) × (remove y (last y ys) h ≡ some (last y ys, h'))
      × IsRing h' a (ps ++ zs)
      × IsChain h' y ys
remove-middle h a ps y ys zs r = elim (snoc_view ps) [
  | inl e ↦
      let (h', f, ring, chain) =
        remove-IsRing h a y ys zs
          (subst (λ (l : List ℕ). IsRing h a (l ++ (y ∷ (ys ++ zs)))) e r) in
      (h', f, subst (λ (l : List ℕ). IsRing h' a (l ++ zs)) (sym e) ring, chain)
  | inr (ws, w, e) ↦
      let (h', f, ring, chain) =
        remove_behind h a ws w y ys zs
          (subst (λ (l : List ℕ). IsRing h a (l ++ (y ∷ (ys ++ zs)))) e r) in
      (h', f, subst (λ (l : List ℕ). IsRing h' a (l ++ zs)) (sym e) ring, chain)
]

-- Two disjoint rings that are joined behind `x` are one ring, and splitting off what was joined leaves
-- two rings with the nodes and the order of before; no assertion fails.
pub split-join_after :
    (h : Links) (x : ℕ) (xs : List ℕ) (y : ℕ) (ys : List ℕ)
    → IsRing h x xs
    → IsRing h y ys
    → Disjoint (x ∷ xs) (y ∷ ys)
    → (h' h'' : Links) × (join_after x y (last y ys) h ≡ some h')
      × IsRing h' x ((y ∷ ys) ++ xs)
      × (split y (last y ys) h' ≡ some (last y ys, h''))
      × IsRing h'' x xs
      × IsRing h'' y ys
split-join_after h x xs y ys r q d =
    let ((h', e, ring), _) = join-IsRing h x xs y ys r q d in
    let (h'', f, left, right) = split-IsRing h' x y ys xs ring in (h', h'', e, ring, f, left, right)
