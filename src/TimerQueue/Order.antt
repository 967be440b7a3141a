-- ===== src/TimerQueue/Order.antt =====
-- The multimap of TimerQueue is sorted, and holds at most one element for a node.
use libfibre.Base.{
  ℕ, ◌≡◌, refl, sym, ap, Bool, true, false, not, ◌&&◌, ◌||◌, some, if◌then◌else◌, List, [], ◌∷◌,
  ◌==◌, arith, Bool-cases, inl, inr,
}
use libfibre.Time.{Time, lt}
use libfibre.TimerQueue.{Entry, insert, keep, take_out}

pub lt_asym : (a b : Time) → lt a b ≡ true → lt b a ≡ false
unfolding lt
lt_asym a b h = ground (arith, h)

pub le_trans : (a b c : Time) → lt b a ≡ false → lt c b ≡ false → lt c a ≡ false
unfolding lt
le_trans a b c h k = ground (arith, h, k)

-- No element of the list is due before the time.
abbrev pub Later : Time → List Entry → Type 0
Later t [] = Unit
Later t (e ∷ es) = (lt e.time t ≡ false) × Later t es

abbrev pub IsSorted : List Entry → Type 0
IsSorted [] = Unit
IsSorted (e ∷ es) = Later e.time es × IsSorted es

abbrev pub holds : ℕ → List Entry → Bool
holds f [] = false
holds f (e ∷ es) = (f == e.fred) || holds f es

-- A node stands at most once in the queue.
abbrev pub IsOnce : List Entry → Type 0
IsOnce [] = Unit
IsOnce (e ∷ es) = (holds e.fred es ≡ false) × IsOnce es

pub Later-trans : (a b : Time) (es : List Entry) → lt b a ≡ false → Later b es → Later a es
Later-trans a b [] h l = tt
Later-trans a b (e ∷ es) h l = (le_trans a b e.time h l.0, Later-trans a b es h l.1)

Later-insert :
    (t : Time) (n : Entry) (es : List Entry)
    → lt n.time t ≡ false
    → Later t es
    → Later t (insert n es)
unfolding insert
Later-insert t n [] h l = (h, tt)
Later-insert t n (e ∷ es) h l = elim (Bool-cases (lt n.time e.time)) [
  | inl p ↦ rw p (h, l)
  | inr p ↦ rw p (l.0, Later-insert t n es h l.1)
]

pub insert-IsSorted : (n : Entry) (es : List Entry) → IsSorted es → IsSorted (insert n es)
unfolding insert
insert-IsSorted n [] s = (tt, tt)
insert-IsSorted n (e ∷ es) s = elim (Bool-cases (lt n.time e.time)) [
  | inl p ↦
      rw p
        ((lt_asym n.time e.time p, Later-trans n.time e.time es (lt_asym n.time e.time p) s.0), s)
  | inr p ↦ rw p ((Later-insert e.time n es p s.0, insert-IsSorted n es s.1))
]

-- The elements of the other nodes.
abbrev pub others : ℕ → List Entry → List Entry
others f [] = []
others f (e ∷ es) = let rest = others f es in if f == e.fred then rest else e ∷ rest

pub Later-others : (t : Time) (f : ℕ) (es : List Entry) → Later t es → Later t (others f es)
Later-others t f [] l = tt
Later-others t f (e ∷ es) l = elim (Bool-cases (f == e.fred)) [
  | inl p ↦ rw p (Later-others t f es l.1)
  | inr p ↦ rw p (l.0, Later-others t f es l.1)
]

pub others-IsSorted : (f : ℕ) (es : List Entry) → IsSorted es → IsSorted (others f es)
others-IsSorted f [] s = tt
others-IsSorted f (e ∷ es) s = elim (Bool-cases (f == e.fred)) [
  | inl p ↦ rw p (others-IsSorted f es s.1)
  | inr p ↦ rw p (Later-others e.time f es s.0, others-IsSorted f es s.1)
]

pub holds-insert :
    (f : ℕ) (n : Entry) (es : List Entry) → holds f (insert n es) ≡ ((f == n.fred) || holds f es)
unfolding insert
holds-insert f n [] = refl
holds-insert f n (e ∷ es) = ground (arith, holds-insert f n es)

pub insert-IsOnce :
    (n : Entry) (es : List Entry) → holds n.fred es ≡ false → IsOnce es → IsOnce (insert n es)
unfolding insert
insert-IsOnce n [] h o = (refl, tt)
insert-IsOnce n (e ∷ es) h o = ground (arith, insert-IsOnce n es, holds-insert e.fred n es, o)

pub holds-others :
    (f g : ℕ) (es : List Entry) → holds g (others f es) ≡ (holds g es && not (g == f))
holds-others f g [] = refl
holds-others f g (e ∷ es) = ground (arith, holds-others f g es)

pub others-IsOnce : (f : ℕ) (es : List Entry) → IsOnce es → IsOnce (others f es)
others-IsOnce f [] o = tt
others-IsOnce f (e ∷ es) o = elim (Bool-cases (f == e.fred)) [
  | inl p ↦ rw p (others-IsOnce f es o.1)
  | inr p ↦ rw p (ground (arith, holds-others f e.fred es, o.0), others-IsOnce f es o.1)
]

pub others_same : (f : ℕ) (es : List Entry) → holds f es ≡ false → others f es ≡ es
others_same f [] h = refl
others_same f (e ∷ es) h =
    let same = others_same f es (ground (arith, h)) in ground (arith, h, same)

-- The element of a node that is in the queue is taken out, and it only.
pub take_out_lem :
    (f : ℕ) (es : List Entry) → IsOnce es → holds f es ≡ true → take_out f es ≡ some (others f es)
unfolding take_out
take_out_lem f [] o h = cc
take_out_lem f (e ∷ es) o h = elim (Bool-cases (f == e.fred)) [
  | inl p ↦
      let same : f ≡ e.fred = ground (arith, p) in
      rw p (ap some (sym (others_same f es (rw same o.0))))
  | inr p ↦ rw p (ap (keep e) (take_out_lem f es o.1 (ground (arith, h, p))))
]
