-- ===== src/SpinCondMutex/Holder.antt =====
-- At most one fred holds the mutex, in every reachable state.
use libfibre.Base.{
  ℕ, ◌≡◌, refl, true, false, not, ◌&&◌, none, some, arith, ◌==◌, inl, inr, Bool-cases, ap, ◌⊎◌,
}
use libfibre.SpinCondMutex.{
  idle, swapping, holding, clearing, notifying, asking, parking, suspended, is_fred, write_owner,
  release_value, ask, park, leave, wake,
}
use libfibre.SpinCondMutex.System.{
  System, init, Step, starts, tries, swaps, owns, clears, frees, wakes, asks, parks, leaves,
  expires, Reach, here, later,
}
use libfibre.SpinCondMutex.Exclusion.{
  Exclusive, has, holds, moves, start-free, tries-Exclusive, swaps-Exclusive, owner-Exclusive,
  freed-Exclusive,
}

abbrev IsExclusive : System → Type 0
IsExclusive s = Exclusive s.mutex s.phase

Step-Exclusive : {s t : System} → Step s t → IsExclusive s → IsExclusive t
unfolding write_owner release_value ask park leave wake
Step-Exclusive {s} (starts owner_lock args f p e h) x =
    moves s x s.mutex f idle p e (refl, start-free s x owner_lock args f p e h) refl refl
Step-Exclusive {s} (tries once more f e) x = tries-Exclusive s x once more f e
Step-Exclusive {s} (swaps more f e) x = swaps-Exclusive s x more f e
Step-Exclusive {s} (owns f e) x =
    owner-Exclusive s.mutex s.phase f holding (some f) x (ap has e) refl (λ g. ground arith)
Step-Exclusive {s} (clears f e) x =
    owner-Exclusive s.mutex s.phase f clearing none x (ap has e) refl (λ g. ground arith)
Step-Exclusive {s} (frees f e) x =
    freed-Exclusive s.mutex s.phase f _ x e (ground arith) (ground arith)
Step-Exclusive {s} (wakes f e l) x = moves s x _ f notifying idle e (refl, refl) refl refl
Step-Exclusive {s} (asks f e l) x = elim (Bool-cases (s.mutex.value == 2)) [
  | inl z ↦ rw z (moves s x _ f asking parking e (refl, refl) refl refl)
  | inr z ↦ rw z (moves s x _ f asking swapping e (refl, refl) refl refl)
]
Step-Exclusive {s} (parks args f e) x = moves s x _ f parking _ e (refl, ground arith) refl refl
Step-Exclusive {s} (leaves f e d) x = moves s x _ f suspended _ e (refl, ground arith) refl refl
Step-Exclusive {s} (expires f timer nz ne) x = record {
  one = x.one;
  taken = x.taken;
  holder = x.holder;
  owned = x.owned;
  small = x.small;
}

init-Exclusive : (address : ℕ) → IsExclusive (init address)
init-Exclusive address = record {
  one = λ f g a b. absurd (ground (arith, a));
  taken = λ f a. absurd (ground (arith, a));
  holder = inl refl;
  owned = λ f. refl;
  small = omega arith;
}

pub Reach-Exclusive :
    {address : ℕ} {s : System} → Reach (init address) s → Exclusive s.mutex s.phase
Reach-Exclusive {address} here = init-Exclusive address
Reach-Exclusive {address} (later r st) = Step-Exclusive st (Reach-Exclusive r)

-- In every reachable state no two freds have the value, from the exchange by which a fred takes it to that by
-- which it gives it back; the value is not 0 if some fred has it, and 0 if none has; and `owner` names a fred
-- exactly if that fred holds the mutex.
pub cond_mutex_exclusion :
    {address : ℕ} {s : System} (f g : ℕ)
    → Reach (init address) s
    → ((has (s.phase f) && (has (s.phase g) && not (g == f))) ≡ false)
      × ((has (s.phase f) && (s.mutex.value == 0)) ≡ false)
      × ((s.mutex.value ≡ 0) ⊎ ((h : ℕ) × (has (s.phase h) ≡ true)))
      × (is_fred s.mutex.owner g ≡ holds (s.phase g))
cond_mutex_exclusion f g r =
    let x = Reach-Exclusive r in
    (ground (arith, x.one f g), ground (arith, x.taken f), x.holder, x.owned g)
