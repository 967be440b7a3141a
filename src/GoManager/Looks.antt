-- ===== src/GoManager/Looks.antt =====
-- What a step of a search changes.
use libfibre.Base.{
  ℕ, ◌+◌, ◌≡◌, refl, sym, ap, ◌∙◌, Bool, true, false, List, ◌==◌, update, length, mem, ◌<◌, ◌^◌,
  Distinct, arith, Bool-cases, ◌⊎◌, inl, inr,
}
use libfibre.GoManager.Counting.{one_if, has}
use libfibre.GoManager.System.{
  Mode, runs, spins, waits, Pc, doing, dequeuing, passed, returns, System, go, queue,
}
use libfibre.GoManager.Moves.{
  is_halted, is_counted, will_look, is_served, Served, Inv, Served-go, has-same, move,
}

counted_in : (q : ℕ) (m : Mode) → is_counted (dequeuing q m) ≡ is_counted (doing m)
counted_in q runs = refl
counted_in q spins = refl
counted_in q (waits seen) = refl

counted_passed : (q : ℕ) (m : Mode) → is_counted (doing (passed q m)) ≡ is_counted (doing m)
unfolding passed
counted_passed q runs = refl
counted_passed q spins = refl
counted_passed q (waits seen) = refl

counted_returns : (m : Mode) → is_counted (returns m) ≡ is_counted (doing m)
unfolding returns
counted_returns runs = refl
counted_returns spins = refl
counted_returns (waits seen) = refl

look_in : (r q : ℕ) (m : Mode) → will_look r (doing m) ≡ will_look r (dequeuing q m)
look_in r q runs = refl
look_in r q spins = refl
look_in r q (waits seen) = refl

look_passed :
    (r q : ℕ) (m : Mode)
    → (r == q) ≡ false
    → will_look r (doing m) ≡ will_look r (doing (passed q m))
unfolding passed
look_passed r q runs e = refl
look_passed r q spins e = refl
look_passed r q (waits seen) e = rw e refl

look_returns : (r : ℕ) (m : Mode) → will_look r (returns m) ≡ true
unfolding returns
look_returns r runs = refl
look_returns r spins = refl
look_returns r (waits seen) = refl

halted_returns : (m : Mode) → is_halted (returns m) ≡ false
unfolding returns
halted_returns runs = refl
halted_returns spins = refl
halted_returns (waits seen) = refl

pub locked_serves : (n k : ℕ) (x : Bool) → is_served n true k x ≡ true
locked_serves n k x = ground arith

none_serves : (n : ℕ) (l : Bool) (k : ℕ) (x : Bool) → n ≡ 0 → is_served n l k x ≡ true
none_serves n l k x z = ground (arith, z)

module _ (procs : List ℕ) (d : Distinct procs) (few : length procs < 2 ^ 64) {s : System}
    (v : Inv procs s) where
  -- A processor that looks into the same queues leaves them served.
  pub served_kept :
      (i : ℕ) (c : Pc) (r : ℕ)
      → mem r procs ≡ true
      → will_look r (s.pc i) ≡ will_look r c
      → is_served (s.ready r) (s.lock r) s.unblockers (has (will_look r) (update s.pc i c) procs)
        ≡ true
  served_kept i c r z e = rw (has-same procs d few (will_look r) s.pc i c procs e) (v.served r z)

  pub enter-Inv : (q : ℕ) → Inv procs (record s { lock = update s.lock q true })
  enter-Inv q = record {
    counted = v.counted;
    sleepers = v.sleepers;
    flags = v.flags;
    outside = v.outside;
    served = served_at;
  }
    where
      served_at : Served procs (record s { lock = update s.lock q true })
      served_at r z = elim (Bool-cases (r == q)) [
        | inl e ↦ rw e (locked_serves (s.ready r) s.unblockers (has (will_look r) s.pc procs))
        | inr e ↦ rw e (v.served r z)
      ]

  module _ (i q : ℕ) (m : Mode) (there : mem i procs ≡ true) where
    pub seize-Inv :
        s.pc i ≡ doing m
        → Inv procs (go i (dequeuing q m) (record s { lock = update s.lock q true }))
    seize-Inv e =
        move procs d few v i there (dequeuing q m) s.manager s.ready (update s.lock q true)
          s.unblockers refl (λ p. refl) (ap is_halted e) refl
          (ap (λ b. s.manager.wait_counter + one_if b) (ap is_counted e ∙ sym (counted_in q m)))
          served_at
      where
        served_at : Served procs (go i (dequeuing q m) (record s { lock = update s.lock q true }))
        served_at r z = elim (Bool-cases (r == q)) [
          | inl k ↦ rw k (
              locked_serves (s.ready r) s.unblockers
                (has (will_look r) (update s.pc i (dequeuing q m)) procs))
          | inr k ↦ rw k (served_kept i (dequeuing q m) r z (ap (will_look r) e ∙ look_in r q m))
        ]

    pub pop-Inv :
        (k : ℕ) → s.pc i ≡ dequeuing q m → Inv procs (go i (returns m) (queue q k false s))
    pop-Inv k e =
        move procs d few v i there (returns m) s.manager (update s.ready q k)
          (update s.lock q false) s.unblockers refl (λ p. refl) (ap is_halted e) (halted_returns m)
          (ap (λ b. s.manager.wait_counter + one_if b)
            (ap is_counted e ∙ counted_in q m ∙ sym (counted_returns m)))
          (Served-go procs d few (queue q k false s) i (returns m) there (λ r. look_returns r m))

    pub pop_none-Inv :
        s.pc i ≡ dequeuing q m
        → s.ready q ≡ 0
        → Inv procs (go i (doing (passed q m)) (record s { lock = update s.lock q false }))
    pop_none-Inv e n =
        move procs d few v i there (doing (passed q m)) s.manager s.ready (update s.lock q false)
          s.unblockers refl (λ p. refl) (ap is_halted e) refl
          (ap (λ b. s.manager.wait_counter + one_if b)
            (ap is_counted e ∙ counted_in q m ∙ sym (counted_passed q m)))
          served_at
      where
        served_at :
            Served procs (go i (doing (passed q m)) (record s { lock = update s.lock q false }))
        served_at r z = elim (Bool-cases (r == q)) [
          | inl k ↦
              let same : r ≡ q = ground (arith, k) in
              none_serves (s.ready r) (update s.lock q false r) s.unblockers
                (has (will_look r) (update s.pc i (doing (passed q m))) procs) (ap s.ready same ∙ n)
          | inr k ↦ rw k (
              served_kept i (doing (passed q m)) r z
                (ap (will_look r) e ∙ sym (look_in r q m) ∙ look_passed r q m k))
        ]

    pub fail-Inv :
        s.pc i ≡ doing m → s.ready q ≡ 0 ⊎ s.lock q ≡ true → Inv procs (go i (doing (passed q m)) s)
    fail-Inv e n =
        move procs d few v i there (doing (passed q m)) s.manager s.ready s.lock s.unblockers refl
          (λ p. refl) (ap is_halted e) refl
          (ap (λ b. s.manager.wait_counter + one_if b) (ap is_counted e ∙ sym (counted_passed q m)))
          served_at
      where
        served_at : Served procs (go i (doing (passed q m)) s)
        served_at r z = elim (Bool-cases (r == q)) [
          | inl k ↦
              let same : r ≡ q = ground (arith, k) in
              let x : Bool = has (will_look r) (update s.pc i (doing (passed q m))) procs in
              elim n [
                | inl n0 ↦ none_serves (s.ready r) (s.lock r) s.unblockers x (ap s.ready same ∙ n0)
                | inr l ↦ rw (ap s.lock same ∙ l) (locked_serves (s.ready r) s.unblockers x)
              ]
          | inr k ↦
              served_kept i (doing (passed q m)) r z (ap (will_look r) e ∙ look_passed r q m k)
        ]
