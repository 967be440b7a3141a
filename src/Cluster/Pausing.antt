-- ===== src/Cluster/Pausing.antt =====
-- Every worker but the caller's is paused once.
use mathlib.Core.List.{append_assoc, append-nil}
use libfibre.Base.{
  ℕ, suc, ◌-◌, ◌≡◌, refl, sym, ap, ◌∙◌, true, false, some, ◌>>=◌, List, [], ◌∷◌, ◌++◌, ◌==◌,
  ==_true, if◌then◌else◌, length, mem, Distinct, arith, Bool-cases, inl, inr,
}
use libfibre.Processor.Stealing.{Route}
use libfibre.Cluster.{pause_loop, pause, resume_posts}

abbrev pub all_but : ℕ → List ℕ → List ℕ
all_but c [] = []
all_but c (x ∷ xs) = if x == c then all_but c xs else x ∷ all_but c xs

all_but-absent : (c : ℕ) (xs : List ℕ) → mem c xs ≡ false → length (all_but c xs) ≡ length xs
all_but-absent c [] h = refl
all_but-absent c (x ∷ xs) h = elim (Bool-cases (x == c)) [
  | inl e ↦ absurd (ground (arith, e, h))
  | inr e ↦ rw e (omega (arith, all_but-absent c xs (ground (arith, h))))
]

length-all_but :
    (c : ℕ) (xs : List ℕ) → mem c xs ≡ true → Distinct xs → suc (length (all_but c xs)) ≡ length xs
length-all_but c [] h d = cc
length-all_but c (x ∷ xs) h d = elim (Bool-cases (x == c)) [
  | inl e ↦
      let same : x ≡ c = ground (arith, e) in
      rw e (omega (arith, all_but-absent c xs (rw (← same) d.0)))
  | inr e ↦ rw e (omega (arith, length-all_but c xs (ground (arith, h, e)) d.1))
]

module _ (next : ℕ → ℕ) (current place : ℕ) where
  step :
      (n proc : ℕ) (made : List ℕ)
      → pause_loop (suc n) next current place proc made ≡ (
          if next proc == place
          then some (if proc == current then made else made ++ proc ∷ [])
          else pause_loop n next current place
              (next proc)
              (if proc == current then made else made ++ proc ∷ []))
  unfolding pause_loop
  step n proc made = refl

  grown :
      (proc : ℕ) (made rest : List ℕ)
      → (if proc == current then made else made ++ proc ∷ []) ++ all_but current rest
        ≡ made ++ all_but current (proc ∷ rest)
  grown proc made rest = elim (Bool-cases (proc == current)) [
    | inl e ↦ rw e refl
    | inr e ↦ rw e (append_assoc made (proc ∷ []) (all_but current rest))
  ]

  pause_loop_from :
      (proc : ℕ) (rest made : List ℕ)
      → Route next (next proc) rest place
      → pause_loop (suc (length rest)) next current place proc made
        ≡ some (made ++ all_but current (proc ∷ rest))
  pause_loop_from proc [] made e =
      rw (step 0 proc made, ==_true e) (ap some (sym (append-nil _) ∙ grown proc made []))
  pause_loop_from proc (x ∷ xs) made (e, d, r) =
      rw (step (suc (length xs)) proc made, e, d)
        (pause_loop_from x xs _ r ∙ ap some (grown proc made (x ∷ xs)))

  -- On a ring of distinct processors, the caller's among them, `pause` ends after one round, passes its
  -- assertion, puts a pause fibre on every other processor, in the order of the ring, and waits for as
  -- many confirmations as it made fibres; `resume` raises their semaphore as often.
  pub pause-covers :
      (others : List ℕ)
      → Distinct (place ∷ others)
      → mem current (place ∷ others) ≡ true
      → Route next (next place) others place
      → (pause (suc (length others)) next current place (suc (length others))
          ≡ some (all_but current (place ∷ others), length others))
        × (length (all_but current (place ∷ others)) ≡ resume_posts (suc (length others)))
  unfolding pause resume_posts
  pause-covers others d m r =
      let n : suc (length (all_but current (place ∷ others))) ≡ suc (length others) =
        length-all_but current (place ∷ others) m d in
      let all : length (all_but current (place ∷ others)) ≡ length others = omega (arith, n) in
      let k : suc (length others) - 1 ≡ length others = omega arith in
      (rw (pause_loop_from place others [] r, ◌>>=◌, k) (rw (==_true all) refl), all ∙ sym k)
