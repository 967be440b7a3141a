-- ===== src/SpinLocks/Binary/Exclusion.antt =====
-- Mutual exclusion of a BinaryLock.
use libfibre.Base.{
  ℕ, suc, ◌+◌, ◌≤◌, ◌≡◌, refl, sym, ap, ◌∙◌, Bool, true, false, none, some, [], ◌∷◌, ◌++◌, ◌==◌,
  if◌then◌else◌, erase, mem, length, length-append, length-erase, arith,
}
use libfibre.Base.Tracking.{
  Tracks, Tracks-stay, Tracks-erase, Tracks-snoc, mem-of-one, one-le-length,
}
use libfibre.SpinLocks.Binary.{
  test_and_set, try_acquire, Pc, idle, acquiring, holding, trying, System, init, go, Step, begin,
  read, attempt, retry, attempt_try, refuse, leave, Reach, here, later,
}
use libfibre.SpinLocks.Binary

abbrev pub is_holding : Pc → Bool
is_holding holding = true
is_holding _ = false

record Inv (s : System) : Type 0 where
  pub inside : Tracks is_holding s.pc s.holders
  pub counted : length s.holders ≡ (if s.locked then 1 else 0)

taken : (locked l : Bool) → test_and_set locked ≡ (true, l) → (locked ≡ false) × (l ≡ true)
unfolding test_and_set
taken locked l h = ground (arith, h)

found_taken : (locked l : Bool) → test_and_set locked ≡ (false, l) → l ≡ locked
unfolding test_and_set
found_taken locked l h = ground (arith, h)

taken_try : (r locked l : Bool) → try_acquire r locked ≡ (true, l) → (locked ≡ false) × (l ≡ true)
unfolding try_acquire test_and_set
taken_try r locked l h = ground (arith, h)

refused : (r locked l : Bool) → try_acquire r locked ≡ (false, l) → l ≡ locked
unfolding try_acquire test_and_set
refused r locked l h = ground (arith, h)

left : (locked l : Bool) → Binary.release locked ≡ some l → (locked ≡ true) × (l ≡ false)
unfolding Binary.release
left locked l h = ground (arith, h)

module _ {s : System} (v : Inv s) (i : ℕ) where
  stay : (c : Pc) → is_holding (s.pc i) ≡ is_holding c → Inv (go i c s)
  stay c h = record { inside = Tracks-stay is_holding s.pc i c v.inside h; counted = v.counted }

  enter-Inv :
      (l : Bool)
      → is_holding (s.pc i) ≡ false
      → (s.locked ≡ false) × (l ≡ true)
      → Inv (go i holding (record s { locked = l; holders = s.holders ++ i ∷ [] }))
  enter-Inv l h (free, got) = record {
    inside = Tracks-snoc is_holding s.pc i holding v.inside h refl;
    counted =
        length-append s.holders (i ∷ [])
        ∙ ap (λ n. n + 1) (v.counted ∙ ap (λ b. if b then 1 else 0) free)
        ∙ ap (λ b. if b then 1 else 0) (sym got);
  }

  leave-Inv :
      (l : Bool)
      → s.pc i ≡ holding
      → (s.locked ≡ true) × (l ≡ false)
      → Inv (go i idle (record s { locked = l; holders = erase i s.holders }))
  leave-Inv l e (busy, free) = record {
    inside = Tracks-erase is_holding s.pc i idle v.inside refl;
    counted =
        less (length-erase i s.holders (v.inside.same i ∙ ap is_holding e))
          (v.counted ∙ ap (λ b. if b then 1 else 0) busy)
        ∙ ap (λ b. if b then 1 else 0) (sym free);
  }
    where
      less : {a b : ℕ} → suc a ≡ b → b ≡ 1 → a ≡ 0
      less p q = omega (arith, p, q)

Step-Inv : {s t : System} → Step s t → Inv s → Inv t
Step-Inv (begin i e) v = stay v i acquiring (ap is_holding e)
Step-Inv {s} (read i e) v = stay v i (trying s.locked) (ap is_holding e)
Step-Inv {s} (attempt i l e h) v = enter-Inv v i l (ap is_holding e) (taken s.locked l h)
Step-Inv {s} (retry i l e h) v = rw (found_taken s.locked l h) v
Step-Inv {s} (attempt_try i r l e h) v =
    enter-Inv v i l (ap is_holding e) (taken_try r s.locked l h)
Step-Inv {s} (refuse i r l e h) v = rw (refused r s.locked l h) (stay v i idle (ap is_holding e))
Step-Inv {s} (leave i l e h) v = leave-Inv v i l e (left s.locked l h)

Reach-Inv : {s : System} → Reach s → Inv s
Reach-Inv here = record { inside = record { once = tt; same = λ f. refl }; counted = refl }
Reach-Inv (later r step) = Step-Inv step (Reach-Inv r)

at_most : (b : Bool) → (if b then 1 else 0) ≤ 1
at_most true = omega arith
at_most false = omega arith

-- While a thread is inside, in any reachable state, no other is, and its release passes the assertion.
pub binary_lock_exclusion :
    {s : System} (f g : ℕ)
    → Reach s
    → s.pc f ≡ holding
    → (is_holding (s.pc g) ≡ (g == f)) × (Binary.release s.locked ≡ some false)
unfolding Binary.release
binary_lock_exclusion {s} f g r h =
    let v = Reach-Inv r in
    let there : mem f s.holders ≡ true = v.inside.same f ∙ ap is_holding h in
    (
      sym (v.inside.same g) ∙ mem-of-one f g s.holders there (rw v.counted (at_most s.locked)),
      locked_at s.locked (length s.holders) v.counted (one-le-length f s.holders there),
    )
  where
    locked_at :
        (b : Bool) (n : ℕ)
        → n ≡ (if b then 1 else 0)
        → 1 ≤ n
        → (if b then some false else none) ≡ some false
    locked_at true n e k = refl
    locked_at false n e k = absurd (omega (arith, e, k))
