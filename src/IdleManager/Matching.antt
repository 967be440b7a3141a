-- ===== src/IdleManager/Matching.antt =====
-- Idle processors and freds that have none meet.
use libfibre.Base.{
  ℕ, ◌≡◌, refl, sym, ◌∙◌, ◌≢◌, ◌⊎◌, inl, inr, Bool, true, false, ◌&&◌, Option, none, some, List, [],
  ◌∷◌, ◌++◌, arith, mem, length,
}
use libfibre.Base.Int.{neg_part}
use libfibre.IdleManager.{
  IdleManager, unblock, may_get, try_get, get_ready_fred, add_ready_fred, Proc, working, trying,
  blocking, halted, System, Step, read, exchange, ready, unready, run_block, resume, enqueue, add,
  run_unblock, Reach, here, later,
}
use libfibre.IdleManager.Invariant.{
  is_halted, is_unblocking, Inv, counted, moved, unready-Inv, run_block-Inv, Unblocks, unblock_lem,
  given-Inv,
}

own_waits :
    (wake_own : Bool) {s : System} (p : ℕ)
    → Inv wake_own s
    → (wake_own && s.manager.halting p) ≡ true
    → mem p s.manager.waiting_procs ≡ true
own_waits wake_own p v h = ground (arith, v.flagged p, v.waiter p)

Step-Inv : (wake_own : Bool) {s t : System} → Step wake_own s t → Inv wake_own s → Inv wake_own t
unfolding may_get try_get get_ready_fred add_ready_fred
Step-Inv wake_own {s} (read p e h) v =
    moved p (trying s.manager.fred_counter) v (ground arith) (ground arith) refl refl (ground arith)
Step-Inv wake_own {s} (exchange p c b n e h) v =
    moved p working (counted n v (ground (arith, v.expects p))) (ground arith) (ground arith) refl
      refl tt
Step-Inv wake_own {s} (ready p n e h) v = counted n v (ground arith)
Step-Inv wake_own {s} (unready p n e h) v = unready-Inv p n v e h
Step-Inv wake_own {s} (run_block p f m e h) v = run_block-Inv wake_own p f m v e h
Step-Inv wake_own {s} (resume p f e) v =
    moved p working v (ground arith) (ground arith) refl refl tt
Step-Inv wake_own {s} (enqueue a n e h) v = counted n v (ground arith)
Step-Inv wake_own {s} (add a f p n e h) v = record {
  distinct_b = v.distinct_b;
  distinct_a = ground (arith, v.distinct_a, v.add_er a);
  distinct_p = v.distinct_p;
  blocker = v.blocker;
  waiter = v.waiter;
  add_er = λ j. ground (arith, v.add_er j, v.add_er a);
  flagged = v.flagged;
  expects = v.expects;
  apart = v.apart;
  balance = ground (arith, v.balance);
}
Step-Inv wake_own {s} (run_unblock a f p q m e h) v =
    given-Inv wake_own a f p q m v e
      (ground (arith, h, unblock_lem wake_own f p s.manager (own_waits wake_own p v)))

Reach-Inv : (wake_own : Bool) {s : System} → Reach wake_own s → Inv wake_own s
Reach-Inv wake_own here = record {
  distinct_b = tt;
  distinct_a = tt;
  distinct_p = tt;
  blocker = λ p. refl;
  waiter = λ p. refl;
  add_er = λ a. refl;
  flagged = λ p. refl;
  expects = λ p. tt;
  apart = inl refl;
  balance = refl;
}
Reach-Inv wake_own (later r st) = Step-Inv wake_own st (Reach-Inv wake_own r)

nobody : (l : List ℕ) → ((a : ℕ) → mem a l ≡ false) → l ≡ []
nobody [] h = refl
nobody (x ∷ l) h = ground (arith, h x)

halted_if : (q : Proc) → is_halted q ≡ true → q ≡ halted
halted_if q h = ground arith

handed_or_queued :
    {wake_own : Bool} {s : System} (f : ℕ)
    → Inv wake_own s
    → (q : Option ℕ) (m : IdleManager) → Unblocks wake_own f s.manager q m
    → ((g : ℕ) × (q ≡ some g) × (s.proc g ≡ halted))
      ⊎ ((q ≡ none) × (m.waiting_freds ≡ s.manager.waiting_freds ++ f ∷ []))
handed_or_queued f v none m (h, u) = inr (refl, ground (arith, u))
handed_or_queued {s} f v (some g) m (h, u) =
    inl (g, refl, halted_if (s.proc g) (sym (v.waiter g) ∙ h))

-- In every reachable state no fred waits in the idle manager while a processor does.
pub idle_matching :
    (wake_own : Bool) {s : System}
    → Reach wake_own s
    → (s.manager.waiting_freds ≡ []) ⊎ (s.manager.waiting_procs ≡ [])
idle_matching wake_own r = (Reach-Inv wake_own r).apart

-- In every reachable state in which no processor has yet to run `block` and no caller of `addReadyFred`
-- has yet to run `unblock`: no fred waits in the idle manager, and the processors that wait are as many
-- as the counter is below 0.
pub idle_quiescent :
    (wake_own : Bool) {s : System}
    → Reach wake_own s
    → ((p : ℕ) → s.proc p ≢ blocking)
    → ((a : ℕ) → is_unblocking (s.adder a) ≡ false)
    → (s.manager.waiting_freds ≡ [])
      × (length s.manager.waiting_procs ≡ neg_part s.manager.fred_counter)
idle_quiescent wake_own {s} r b a =
    let v = Reach-Inv wake_own r in
    let nb : s.blockers ≡ [] = nobody s.blockers (λ p. ground (arith, v.blocker p, b p)) in
    let na : s.adders ≡ [] = nobody s.adders (λ x. v.add_er x ∙ a x) in
    ground (arith, v.balance, v.apart, nb, na)

-- In every reachable state, `unblock` hands its fred to a processor that is halted, if it hands it to
-- any, and else the fred is the last of those that wait.
pub unblock-halted :
    (wake_own : Bool) {s : System}
    → Reach wake_own s
    → (f p : ℕ)
    → ((g : ℕ) × ((unblock wake_own f p s.manager).0 ≡ some g) × (s.proc g ≡ halted))
      ⊎ (((unblock wake_own f p s.manager).0 ≡ none)
          × ((unblock wake_own f p s.manager).1.waiting_freds ≡ s.manager.waiting_freds ++ f ∷ []))
unblock-halted wake_own {s} r f p =
    let v = Reach-Inv wake_own r in
    handed_or_queued f v (unblock wake_own f p s.manager).0 (unblock wake_own f p s.manager).1
      (unblock_lem wake_own f p s.manager (own_waits wake_own p v))
