-- ===== src/GoManager/Moves.antt =====
-- The places of the processors and the state of the manager agree, one move at a time.
use native.Mathlib.Nat.{mod-eq_of_lt}
use libfibre.Base.{
  ℕ, ◌+◌, ◌-◌, ◌^◌, ◌<◌, ◌≡◌, refl, sym, ap, ◌∙◌, Bool, true, false, not, ◌||◌, Option, List, [],
  ◌∷◌, ◌==◌, ==_true, update, length, mem, Distinct, ltb, arith, Bool-cases, inl, inr,
}
use libfibre.Base.Tracking.{Tracks, Tracks-stay, Tracks-erase, Tracks-cons}
use libfibre.GoManager.{GoManager, up, down, block, Round, unblock_round}
use libfibre.GoManager.Counting.{one_if, count, count-update, has, has-mem}
use libfibre.GoManager.System.{
  runs, spins, waits, Pc, doing, dequeuing, found, found_late, spun, blocking, halted, leaving,
  System, go,
}
use libfibre.GoManager.Rounds.{round_wakes}

abbrev pub is_running : Pc → Bool
is_running (doing runs) = true
is_running _ = false

abbrev pub is_halted : Pc → Bool
is_halted halted = true
is_halted _ = false

-- Counted as waiting.
abbrev pub is_counted : Pc → Bool
is_counted (doing (waits seen)) = true
is_counted (dequeuing q (waits seen)) = true
is_counted found_late = true
is_counted blocking = true
is_counted halted = true
is_counted leaving = true
is_counted _ = false

-- The processor will look into the queue of q before it blocks.
abbrev pub will_look : (q : ℕ) → Pc → Bool
will_look q (doing (waits seen)) = not (seen q)
will_look q (dequeuing r (waits seen)) = not (seen q)
will_look q blocking = false
will_look q halted = false
will_look q _ = true

-- A fred in a queue has someone that sees to it.
abbrev pub is_served : (ready : ℕ) → (locked : Bool) → (unblockers : ℕ) → (looked : Bool) → Bool
is_served n locked k looked = (n == 0) || (locked || (ltb 0 k || looked))

abbrev pub Served : List ℕ → System → Type 0
Served procs s =
    (q : ℕ)
    → mem q procs ≡ true
    → is_served (s.ready q) (s.lock q) s.unblockers (has (will_look q) s.pc procs) ≡ true

pub record Inv (procs : List ℕ) (s : System) : Type 0 where
  pub counted : s.manager.wait_counter ≡ count is_counted s.pc procs
  pub sleepers : Tracks is_halted s.pc s.manager.waiting_procs
  pub flags : (p : ℕ) → s.manager.halting p ≡ is_halted (s.pc p)
  pub outside : (p : ℕ) → (mem p procs || is_running (s.pc p)) ≡ true
  pub served : Served procs s

pub looked_serves : (n : ℕ) (l : Bool) (k : ℕ) {x : Bool} → x ≡ true → is_served n l k x ≡ true
looked_serves n l k h = ground (arith, h)

pub no_wrap_up : (n : ℕ) → n + 1 < 2 ^ 64 → up n ≡ n + 1
no_wrap_up n h = mod-eq_of_lt h

pub no_wrap_down : (n : ℕ) → 0 < n → n < 2 ^ 64 → down n ≡ n - 1
no_wrap_down n z h = omega (arith, z, h)

module _ (procs : List ℕ) (d : Distinct procs) (few : length procs < 2 ^ 64) where
  module _ {s : System} (v : Inv procs s) (i : ℕ) (there : mem i procs ≡ true) (c : Pc) where
    outside-go : (p : ℕ) → (mem p procs || is_running (update s.pc i c p)) ≡ true
    outside-go p = elim (Bool-cases (p == i)) [
      | inl e ↦ let same : p ≡ i = ground (arith, e) in rw same (rw there refl)
      | inr e ↦ rw e (v.outside p)
    ]

    -- A processor goes to another place; the list of those that sleep is kept.
    pub move :
        (m : GoManager) (ready : ℕ → ℕ) (lock : ℕ → Bool) (unblockers : ℕ)
        → m.waiting_procs ≡ s.manager.waiting_procs
        → ((p : ℕ) → m.halting p ≡ s.manager.halting p)
        → is_halted (s.pc i) ≡ false
        → is_halted c ≡ false
        → m.wait_counter + one_if (is_counted (s.pc i))
          ≡ s.manager.wait_counter + one_if (is_counted c)
        → let t : System = record {
          manager = m;
          pc = update s.pc i c;
          ready = ready;
          lock = lock;
          unblockers = unblockers;
        } in
          Served procs t → Inv procs t
    move m ready lock unblockers list flags a b count_kept served = record {
      counted =
          omega (arith, count_kept, v.counted, count-update is_counted s.pc i c procs there d);
      sleepers = rw list (Tracks-stay is_halted s.pc i c v.sleepers (a ∙ sym b));
      flags = λ p. flags p ∙ kept p;
      outside = outside-go;
      served = served;
    }
      where
        kept : (p : ℕ) → s.manager.halting p ≡ is_halted (update s.pc i c p)
        kept p = elim (Bool-cases (p == i)) [
          | inl e ↦
              let same : p ≡ i = ground (arith, e) in
              rw e (v.flags p ∙ ap (λ j. is_halted (s.pc j)) same ∙ a ∙ sym b)
          | inr e ↦ rw e (v.flags p)
        ]

  -- Where a processor that still has to look goes on, all queues are served.
  pub Served-go :
      (s : System) (i : ℕ) (c : Pc)
      → mem i procs ≡ true
      → ((q : ℕ) → will_look q c ≡ true)
      → Served procs (go i c s)
  Served-go s i c there w q z =
      looked_serves (s.ready q) (s.lock q) s.unblockers
        (has-mem (will_look q) (update s.pc i c) i procs there (rw (==_true {a = i} refl) (w q)))

  pub has-same :
      (test : Pc → Bool) (place : ℕ → Pc) (i : ℕ) (c : Pc) (ps : List ℕ)
      → test (place i) ≡ test c
      → has test (update place i c) ps ≡ has test place ps
  has-same test place i c [] h = refl
  has-same test place i c (x ∷ xs) h = elim (Bool-cases (x == i)) [
    | inl e ↦
        let same : x ≡ i = ground (arith, e) in
        rw (e, has-same test place i c xs h, sym h)
          (ap (λ j. test (place j) || has test place xs) (sym same))
    | inr e ↦ rw (e, has-same test place i c xs h) refl
  ]

  pub some_look :
      (q : ℕ) (place : ℕ → Pc) (ps : List ℕ)
      → 0 < length ps
      → count is_counted place ps ≡ 0
      → has (will_look q) place ps ≡ true
  some_look q place [] h z = absurd (omega arith)
  some_look q place (p ∷ ps) h z = look_at (place p) (omega (arith, z))
    where
      look_at :
          (c : Pc)
          → one_if (is_counted c) ≡ 0
          → (will_look q c || has (will_look q) place ps) ≡ true
      look_at (doing runs) k = refl
      look_at (doing spins) k = refl
      look_at (doing (waits seen)) k = absurd (omega (arith, k))
      look_at (dequeuing r runs) k = refl
      look_at (dequeuing r spins) k = refl
      look_at (dequeuing r (waits seen)) k = absurd (omega (arith, k))
      look_at found k = refl
      look_at found_late k = absurd (omega (arith, k))
      look_at spun k = refl
      look_at blocking k = absurd (omega (arith, k))
      look_at halted k = absurd (omega (arith, k))
      look_at leaving k = refl

  module _ {s : System} (v : Inv procs s) where
    pub halt-Inv :
        (i : ℕ)
        → mem i procs ≡ true
        → s.pc i ≡ blocking
        → Inv procs (go i halted (record s { manager = block i s.manager }))
    unfolding block
    halt-Inv i there e = record {
      counted = omega (
        arith,
        v.counted,
        count-update is_counted s.pc i halted procs there d,
        ap (λ c. one_if (is_counted c)) e,
      );
      sleepers = Tracks-cons is_halted s.pc i halted v.sleepers (ap is_halted e) refl;
      flags = flags_at;
      outside = outside-go v i there halted;
      served = λ q z.
          rw (has-same (will_look q) s.pc i halted procs (ap (will_look q) e)) (v.served q z);
    }
      where
        flags_at : (p : ℕ) → update s.manager.halting i true p ≡ is_halted (update s.pc i halted p)
        flags_at p = elim (Bool-cases (p == i)) [ inl k ↦ rw k refl | inr k ↦ rw k (v.flags p) ]

    pub choose-Inv :
        (k q : ℕ) (a : Bool) (p : Option ℕ) (m : GoManager)
        → unblock_round a p s.manager ≡ (Round.wakes q, m)
        → Inv procs (go q leaving (record s { manager = m; unblockers = k }))
    choose-Inv k q a p m h =
        let (listed, same) =
          round_wakes s.manager m q a p (λ x. v.flags x ∙ sym (v.sleepers.same x)) h in
        let asleep = halted_at (s.pc q) (sym (v.sleepers.same q) ∙ listed) in
        let there = member (mem q procs) (s.pc q) asleep (v.outside q) in
        rw same record {
          counted = omega (
            arith,
            v.counted,
            count-update is_counted s.pc q leaving procs there d,
            ap (λ c. one_if (is_counted c)) asleep,
          );
          sleepers = Tracks-erase is_halted s.pc q leaving v.sleepers refl;
          flags = flags_at;
          outside = outside-go v q there leaving;
          served = Served-go (record s { manager = m; unblockers = k }) q leaving there (λ r. refl);
        }
      where
        halted_at : (c : Pc) → is_halted c ≡ true → c ≡ halted
        halted_at c h = ground (arith, h)

        member : (b : Bool) (c : Pc) → c ≡ halted → (b || is_running c) ≡ true → b ≡ true
        member b c e h = ground (arith, e, h)

        flags_at :
            (p : ℕ) → update s.manager.halting q false p ≡ is_halted (update s.pc q leaving p)
        flags_at p = elim (Bool-cases (p == q)) [ inl k ↦ rw k refl | inr k ↦ rw k (v.flags p) ]
