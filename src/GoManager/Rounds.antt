-- ===== src/GoManager/Rounds.antt =====
-- What a caller of `unblock` finds.
use libfibre.Base.{
  ℕ, ◌≡◌, refl, sym, ap, ◌∙◌, Bool, true, false, not, Option, none, some, List, [], ◌∷◌, ==_true,
  if◌then◌else◌, update, erase, mem, ltb, arith, Bool-cases, inl, inr,
}
use libfibre.GoManager.{GoManager, Round, is_own, chosen, unblock_round}

pub round_returns :
    (a : Bool) (p : Option ℕ) (m m' : GoManager)
    → unblock_round a p m ≡ (Round.returns, m')
    → (m.wait_counter ≡ 0) × (m' ≡ m)
unfolding unblock_round
round_returns a p m m' h = elim (Bool-cases (ltb 0 m.wait_counter)) [
  | inl e ↦ absurd (never a m.waiting_procs (rw e at h))
  | inr e ↦ (ground (arith, e), sym (ap (λ r. r.1) (rw e at h)))
]
  where
    never :
        (a : Bool) (ps : List ℕ)
        → (if not a then (Round.again, m) else chosen p m ps) ≡ (Round.returns, m')
        → ⊥
    never false ps k = cc
    never true [] k = cc
    never true (x ∷ xs) k = ground (arith, k)

abbrev pub Chosen : ℕ → GoManager → List ℕ → GoManager → Type 0
Chosen q m ps m' =
    (mem q ps ≡ true)
    × (m' ≡ record m { waiting_procs = erase q ps; halting = update m.halting q false })

module _ (m m' : GoManager) (q : ℕ) where
  same_wake :
      (x : ℕ) (n : GoManager)
      → Path (Round × GoManager) (Round.wakes x, n) (Round.wakes q, m')
      → (x ≡ q) × (n ≡ m')
  same_wake x n h = (cc, cc)

  first_Chosen :
      (x : ℕ) (xs : List ℕ)
      → Path
          (Round × GoManager)
          (Round.wakes x, record m { waiting_procs = xs; halting = update m.halting x false })
          (Round.wakes q, m')
      → Chosen q m (x ∷ xs) m'
  first_Chosen x xs h =
      let (e, f) = same_wake x _ h in rw (← e) (ground arith, rw (==_true {a = x} refl) (sym f))

  own_Chosen :
      (y : ℕ) (l : List ℕ)
      → mem y l ≡ true
      → Path
          (Round × GoManager)
          (
            Round.wakes y,
            record m { waiting_procs = erase y l; halting = update m.halting y false },
          )
          (Round.wakes q, m')
      → Chosen q m l m'
  own_Chosen y l there h = let (e, f) = same_wake y _ h in rw (← e) (there, sym f)

  chosen-Chosen :
      (p : Option ℕ) (ps : List ℕ)
      → ((x : ℕ) → m.halting x ≡ mem x ps)
      → chosen p m ps ≡ (Round.wakes q, m')
      → Chosen q m ps m'
  unfolding is_own
  chosen-Chosen p [] flags h = cc
  chosen-Chosen none (x ∷ xs) flags h = first_Chosen x xs h
  chosen-Chosen (some y) (x ∷ xs) flags h = elim (Bool-cases (m.halting y)) [
    | inl e ↦ own_Chosen y (x ∷ xs) (sym (flags y) ∙ e) (rw e at h)
    | inr e ↦ first_Chosen x xs (rw e at h)
  ]

  pub round_wakes :
      (a : Bool) (p : Option ℕ)
      → ((x : ℕ) → m.halting x ≡ mem x m.waiting_procs)
      → unblock_round a p m ≡ (Round.wakes q, m')
      → Chosen q m m.waiting_procs m'
  unfolding unblock_round
  round_wakes a p flags h = elim (Bool-cases (ltb 0 m.wait_counter)) [
    | inl e ↦ got a (rw e at h)
    | inr e ↦ absurd (no_return (rw e at h))
  ]
    where
      no_return : Path (Round × GoManager) (Round.returns, m) (Round.wakes q, m') → ⊥
      no_return k = cc

      no_again : Path (Round × GoManager) (Round.again, m) (Round.wakes q, m') → ⊥
      no_again k = cc

      got :
          (a : Bool)
          → (if not a then (Round.again, m) else chosen p m m.waiting_procs) ≡ (Round.wakes q, m')
          → Chosen q m m.waiting_procs m'
      got false k = absurd (no_again k)
      got true k = chosen-Chosen p m.waiting_procs flags k
