-- ===== src/SimpleMutex/Holders.antt =====
-- One permit goes round: it is in the counter, with the fred inside, or with a fred that hands it over.
use libfibre.Base.{ℕ, ◌≡◌, refl, sym, ap, ◌∙◌, true, false, ◌==◌, mem, arith}
use libfibre.Base.Int.{pos, pos_part, neg_part}
use libfibre.Base.Tracking.{mem-of-one, one-le-length, mem-of-none}
use libfibre.SimpleMutex.{holding, System, Reach}
use libfibre.SimpleMutex.Invariant.{is_holding, is_popping, is_pushing, is_sleeping, Reach-Inv}

-- While a fred is inside, in any reachable state, no other is, none is about to hand the mutex over, and
-- the counter has no permit.
pub simple_mutex_exclusion :
    {s : System} (f g : ℕ)
    → Reach s
    → s.pc f ≡ holding
    → (is_holding (s.pc g) ≡ (g == f)) × (is_popping (s.pc g) ≡ false) × (pos_part s.counter ≡ 0)
simple_mutex_exclusion {s} f g r h =
    let v = Reach-Inv r in
    let there : mem f s.holders ≡ true = v.holding.same f ∙ ap is_holding h in
    let inside = one-le-length f s.holders there in
    (
      sym (v.holding.same g) ∙ mem-of-one f g s.holders there (omega (arith, v.permit)),
      sym (v.popping.same g) ∙ mem-of-none g s.poppers (omega (arith, v.permit, inside)),
      omega (arith, v.permit, inside),
    )

-- While the permit is in the counter no fred sleeps, or is about to.
pub simple_mutex_wakeup :
    {s : System} (f : ℕ)
    → Reach s
    → s.counter ≡ pos 1
    → (is_sleeping (s.pc f) ≡ false) × (is_pushing (s.pc f) ≡ false)
simple_mutex_wakeup {s} f r h =
    let v = Reach-Inv r in
    let free : pos_part s.counter ≡ 1 = rw h refl in
    let owed : neg_part s.counter ≡ 0 = rw h refl in
    (
      sym (v.sleeping.same f) ∙ mem-of-none f s.queue (omega (arith, v.permit, v.owed, free, owed)),
      sym (v.pushing.same f)
          ∙ mem-of-none f s.pushers (omega (arith, v.permit, v.owed, free, owed)),
    )
