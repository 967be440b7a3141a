-- ===== src/GoManager/Waking.antt =====
-- No fred stays ready in a queue that no processor will look into.
use libfibre.Base.{
  ℕ, suc, ◌+◌, ◌^◌, ◌<◌, ◌≡◌, refl, sym, ap, ◌∙◌, Bool, true, false, not, List, [], ◌∷◌, update,
  length, mem, Distinct, arith,
}
use libfibre.GoManager.{
  GoManager, inc_spinning, dec_spinning, inc_waiting, dec_waiting, unblock_spin,
}
use libfibre.GoManager.Counting.{one_if, count, count-le-length, count-update, has}
use libfibre.GoManager.System.{
  runs, spins, waits, Pc, doing, dequeuing, found, found_late, spun, blocking, leaving, System, go,
  plus_if, Step, enter, put, seize, pop, pop_none, fail, yield, spin, find, stop, wait, find_late,
  find_none, halt, finish, choose, wake, Reach, here, later,
}
use libfibre.GoManager.Rounds.{round_returns}
use libfibre.GoManager.Moves.{
  is_halted, is_counted, will_look, is_served, looked_serves, Inv, no_wrap_up, no_wrap_down, move,
  Served-go, some_look, halt-Inv, choose-Inv,
}
use libfibre.GoManager.Looks.{served_kept, enter-Inv, seize-Inv, pop-Inv, pop_none-Inv, fail-Inv}

spun_manager : (b : Bool) (m m' : GoManager) → unblock_spin m ≡ (b, m') → m' ≡ dec_spinning m
unfolding unblock_spin dec_spinning
spun_manager b m m' h = sym (ap (λ r. r.1) h)

module _ (procs : List ℕ) (d : Distinct procs) (few : length procs < 2 ^ 64)
    (some_proc : 0 < length procs) where
  -- Fewer processors are counted than there are.
  room :
      {s : System} (i : ℕ) (c : Pc)
      → Inv procs s
      → mem i procs ≡ true
      → is_counted (s.pc i) ≡ false
      → is_counted c ≡ true
      → s.manager.wait_counter + 1 < 2 ^ 64
  room {s} i c v there a b =
      let n = count-update is_counted s.pc i c procs there d in
      let l = count-le-length is_counted (update s.pc i c) procs in
      omega (arith, few, n, l, v.counted, ap one_if a, ap one_if b)

  someone :
      {s : System} (i : ℕ) (c : Pc)
      → Inv procs s
      → mem i procs ≡ true
      → is_counted (s.pc i) ≡ true
      → is_counted c ≡ false
      → (0 < s.manager.wait_counter) × (s.manager.wait_counter < 2 ^ 64)
  someone {s} i c v there a b =
      let n = count-update is_counted s.pc i c procs there d in
      let l = count-le-length is_counted s.pc procs in
      (omega (arith, n, v.counted, ap one_if a, ap one_if b), omega (arith, few, l, v.counted))

  -- A processor goes on to a place from which it will look into every queue.
  move_on :
      {s : System} (i : ℕ) (c : Pc) (m : GoManager) (ready : ℕ → ℕ) (lock : ℕ → Bool) (k : ℕ)
      → Inv procs s
      → mem i procs ≡ true
      → m.waiting_procs ≡ s.manager.waiting_procs
      → ((p : ℕ) → m.halting p ≡ s.manager.halting p)
      → is_halted (s.pc i) ≡ false
      → is_halted c ≡ false
      → m.wait_counter + one_if (is_counted (s.pc i))
        ≡ s.manager.wait_counter + one_if (is_counted c)
      → ((q : ℕ) → will_look q c ≡ true)
      → Inv procs
          (record { manager = m; pc = update s.pc i c; ready = ready; lock = lock; unblockers = k })
  move_on {s} i c m ready lock k v there l f a b n w =
      move procs d few v i there c m ready lock k l f a b n (
        Served-go procs d few (record s { manager = m; ready = ready; lock = lock; unblockers = k })
          i c there w)

  -- The same where the counter of waiting processors stays.
  move_same :
      {s : System} (i : ℕ) (old c : Pc) (m : GoManager) (ready : ℕ → ℕ) (lock : ℕ → Bool) (k : ℕ)
      → Inv procs s
      → mem i procs ≡ true
      → s.pc i ≡ old
      → m.waiting_procs ≡ s.manager.waiting_procs
      → ((p : ℕ) → m.halting p ≡ s.manager.halting p)
      → m.wait_counter ≡ s.manager.wait_counter
      → is_halted old ≡ false
      → is_halted c ≡ false
      → is_counted old ≡ is_counted c
      → ((q : ℕ) → will_look q c ≡ true)
      → Inv procs
          (record { manager = m; pc = update s.pc i c; ready = ready; lock = lock; unblockers = k })
  move_same {s} i old c m ready lock k v there e l f n a b same w =
      move_on i c m ready lock k v there l f (ap is_halted e ∙ a) b
        (rw n (ap (λ x. s.manager.wait_counter + one_if x) (ap is_counted e ∙ same))) w

  -- The same where the processor is not counted as waiting any more.
  move_down :
      {s : System} (i : ℕ) (old : Pc)
      → Inv procs s
      → mem i procs ≡ true
      → s.pc i ≡ old
      → is_halted old ≡ false
      → is_counted old ≡ true
      → Inv procs (go i (doing runs) (record s { manager = dec_waiting s.manager }))
  unfolding dec_waiting
  move_down {s} i old v there e a b =
      let (z, l) = someone i (doing runs) v there (ap is_counted e ∙ b) refl in
      move_on i (doing runs) (dec_waiting s.manager) s.ready s.lock s.unblockers v there refl
        (λ p. refl) (ap is_halted e ∙ a) refl
        (omega (arith, ap one_if (ap is_counted e ∙ b), no_wrap_down s.manager.wait_counter z l, z))
        (λ q. refl)

  Step-Inv : {s t : System} → Step procs s t → Inv procs s → Inv procs t
  unfolding inc_spinning dec_spinning inc_waiting
  Step-Inv (enter q z l) v = enter-Inv procs d few v q
  Step-Inv {s} (put q z l) v = record {
    counted = v.counted;
    sleepers = v.sleepers;
    flags = v.flags;
    outside = v.outside;
    served = λ r y. ground arith;
  }
  Step-Inv (seize i q m there z e l) v = seize-Inv procs d few v i q m there e
  Step-Inv (pop i q k m there e n) v = pop-Inv procs d few v i q m there k e
  Step-Inv (pop_none i q m there e n) v = pop_none-Inv procs d few v i q m there e n
  Step-Inv (fail i q m there e n) v = fail-Inv procs d few v i q m there e n
  Step-Inv {s} (yield i q there e) v =
      move_same i (dequeuing q runs) (doing runs) s.manager (update s.ready q (suc (s.ready q)))
        (update s.lock q false) s.unblockers v there e refl (λ p. refl) refl refl refl refl
        (λ r. refl)
  Step-Inv {s} (spin i there e) v =
      move_same i (doing runs) (doing spins) (inc_spinning s.manager) s.ready s.lock s.unblockers v
        there e refl (λ p. refl) refl refl refl refl (λ r. refl)
  Step-Inv {s} (find i b m there e h) v = rw (spun_manager b s.manager m h) (
      move_same i found (doing runs) (dec_spinning s.manager) s.ready s.lock
        (plus_if b s.unblockers) v there e refl (λ p. refl) refl refl refl refl (λ r. refl))
  Step-Inv {s} (stop i there e) v =
      move_same i (doing spins) spun (dec_spinning s.manager) s.ready s.lock s.unblockers v there e
        refl (λ p. refl) refl refl refl refl (λ r. refl)
  Step-Inv {s} (wait i there e) v =
      let c : Pc = doing (waits (λ _. false)) in
      move_on i c (inc_waiting s.manager) s.ready s.lock s.unblockers v there refl (λ p. refl)
        (ap is_halted e) refl
        (omega (
          arith,
          ap (λ x. one_if (is_counted x)) e,
          no_wrap_up s.manager.wait_counter (room i c v there (ap is_counted e) refl),
        ))
        (λ q. refl)
  Step-Inv (find_late i there e) v = move_down i found_late v there e refl refl
  Step-Inv {s} (find_none i seen there e all) v =
      move procs d few v i there blocking s.manager s.ready s.lock s.unblockers refl (λ p. refl)
        (ap is_halted e) refl (ap (λ c. s.manager.wait_counter + one_if (is_counted c)) e)
        (λ r z. served_kept procs d few v i blocking r z (ap (will_look r) e ∙ ap not (all r z)))
  Step-Inv (halt i there e) v = halt-Inv procs d few v i there e
  Step-Inv {s} (finish k a p m u h) v =
      let (z, same) = round_returns a p s.manager m h in
      rw same record {
        counted = v.counted;
        sleepers = v.sleepers;
        flags = v.flags;
        outside = v.outside;
        served = λ q y.
            looked_serves (s.ready q) (s.lock q) k
              (some_look procs d few q s.pc procs some_proc (sym v.counted ∙ z));
      }
  Step-Inv (choose k q a p m u h) v = choose-Inv procs d few v k q a p m h
  Step-Inv (wake i there e) v = move_down i leaving v there e refl refl

  Reach-Inv : {s : System} → Reach procs s → Inv procs s
  Reach-Inv here = record {
    counted = sym (none_counted procs);
    sleepers = record { once = tt; same = λ f. refl };
    flags = λ p. refl;
    outside = λ p. ground arith;
    served = λ q z. refl;
  }
    where
      none_counted : (ps : List ℕ) → count is_counted (λ _. doing runs) ps ≡ 0
      none_counted [] = refl
      none_counted (p ∷ ps) = omega (arith, none_counted ps)
  Reach-Inv (later r step) = Step-Inv step (Reach-Inv r)

  -- In every reachable state in which a fred is in the ready queue of q, nobody holds the lock of that queue, and
  -- no call of `unblock` is under way, some processor is neither halted nor about to be, and will look into that
  -- queue before it blocks, if no search gives it another fred.
  pub Reach-awake :
      {s : System} (q : ℕ)
      → Reach procs s
      → mem q procs ≡ true
      → s.lock q ≡ false
      → s.unblockers ≡ 0
      → 0 < s.ready q
      → has (will_look q) s.pc procs ≡ true
  Reach-awake {s} q r z l u n =
      look_of (s.ready q) (s.lock q) s.unblockers ((Reach-Inv r).served q z) l u n
    where
      look_of :
          (n : ℕ) (l : Bool) (k : ℕ) {x : Bool}
          → is_served n l k x ≡ true
          → l ≡ false
          → k ≡ 0
          → 0 < n
          → x ≡ true
      look_of n l k h e z p = ground (arith, h, e, z, p)
