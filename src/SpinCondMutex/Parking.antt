-- ===== src/SpinCondMutex/Parking.antt =====
-- The queue, its lock and the freds' phases agree.
use libfibre.Base.{
  ℕ, ◌≡◌, refl, ◌≢◌, Bool, true, false, Option, none, some, arith, ◌==◌, if◌then◌else◌, update, inl,
  inr, Bool-cases, ap, sym, ◌∙◌,
}
use mathlib.Core.Path.{subst}
use libfibre.Freds.{Freds, prepare_race, race_resume, resume}
use libfibre.BlockingQueue.{
  BlockingQueue, Args, may_block, block, block_enter, block_leave, notify, unblock,
}
use libfibre.BlockingQueue.Order.{live, first, handed, unblock_lem}
use libfibre.BlockingQueue.Coherence.{
  IsCoherent, block_enter-IsCoherent, block_leave-IsCoherent, unblock-IsCoherent, notify-IsCoherent,
  race_resume-IsCoherent,
}
use libfibre.SpinCondMutex.{
  Mutex, Phase, idle, swapping, notifying, asking, parking, suspended, is_fred, ask, park, leave,
  wake,
}
use libfibre.SpinCondMutex.System.{System, goes, do_ask, do_park, do_leave}
use libfibre.SpinCondMutex.Exclusion.{test-update, test-kept}

abbrev pub sleeps : Phase → Bool
sleeps suspended = true
sleeps _ = false

abbrev pub locks : Phase → Bool
locks parking = true
locks _ = false

-- A fred is blocked exactly while its phase says so, and has the queue's lock exactly while it is parking.
pub record Parked (b : BlockingQueue) (l : Option ℕ) (w : Freds) (phase : ℕ → Phase) : Type 0 where
  pub coherent : IsCoherent b w
  pub blocked : (f : ℕ) → w.blocked_on f ≡ (if sleeps (phase f) then b.address else 0)
  pub locked : (f : ℕ) → is_fred l f ≡ locks (phase f)

-- What is written at an index is what was there.
unchanged_at {ℓ} :
    {A : Type ℓ} (h : ℕ → A) (f g : ℕ) (v : A) → h f ≡ v → h g ≡ (if g == f then v else h g)
unchanged_at h f g v e = elim (Bool-cases (g == f)) [
  | inl c ↦ rw c (ap h {x = g} {y = f} (ground (arith, c)) ∙ e)
  | inr c ↦ rw c refl
]

sole_fred : (l : Option ℕ) (f g : ℕ) → is_fred l f ≡ true → (g == f) ≡ false → is_fred l g ≡ false
sole_fred l f g e n = ground (arith, e, n)

module _ (b : BlockingQueue) (l : Option ℕ) (w : Freds) (phase : ℕ → Phase) (k : Parked b l w phase)
    (f : ℕ) where
  -- A step that touches neither the queue nor its lock.
  plain-Parked :
      (q p : Phase)
      → phase f ≡ q
      → sleeps p ≡ sleeps q
      → locks p ≡ locks q
      → Parked b l w (update phase f p)
  plain-Parked q p e es ek = record {
    coherent = k.coherent;
    blocked = λ g.
        k.blocked g
        ∙ ap (λ (t : Bool). if t then b.address else 0)
            (sym (test-kept sleeps phase f p (es ∙ sym (ap sleeps e)) g));
    locked = λ g. k.locked g ∙ sym (test-kept locks phase f p (ek ∙ sym (ap locks e)) g);
  }

  -- The phase changes together with what the fred is blocked on.
  blocks-Parked :
      (b' : BlockingQueue) (l' : Option ℕ) (w' : Freds) (p : Phase)
      → IsCoherent b' w'
      → b'.address ≡ b.address
      → ((g : ℕ)
          → w'.blocked_on g
            ≡ (if g == f then (if sleeps p then b.address else 0) else w.blocked_on g))
      → ((g : ℕ) → is_fred l' g ≡ (if g == f then locks p else locks (phase g)))
      → Parked b' l' w' (update phase f p)
  blocks-Parked b' l' w' p c ea eb el = record {
    coherent = c;
    blocked = λ g. ground (arith, eb g, k.blocked g, ea, test-update sleeps phase f p g);
    locked = λ g. el g ∙ sym (test-update locks phase f p g);
  }

  unlocked : phase f ≡ parking → (g : ℕ) → (g == f) ≡ false → locks (phase g) ≡ false
  unlocked e g n = sym (k.locked g) ∙ sole_fred l f g (k.locked f ∙ ap locks e) n

abbrev pub IsParked : System → Type 0
IsParked s = Parked s.mutex.queue s.mutex.queue_lock s.freds s.phase

module _ (s : System) (k : IsParked s) where
  pub awake : (f : ℕ) (q : Phase) → s.phase f ≡ q → sleeps q ≡ false → s.freds.blocked_on f ≡ 0
  awake f q e h =
      k.blocked f ∙ ap (λ (t : Bool). if t then s.mutex.queue.address else 0) (ap sleeps e ∙ h)

  pub parks-Parked : (args : Args) (f : ℕ) → s.phase f ≡ parking → IsParked (do_park args f s)
  unfolding park block block_enter prepare_race
  parks-Parked args f e =
      let free = awake f parking e refl in
      let alone = unlocked s.mutex.queue s.mutex.queue_lock s.freds s.phase k f e in
      elim (Bool-cases (may_block args)) [
        | inl y ↦ rw y (
            blocks-Parked s.mutex.queue s.mutex.queue_lock s.freds s.phase k f _ none _ suspended
              (block_enter-IsCoherent f s.mutex.queue s.freds k.coherent free) refl
              (λ g. ground arith) (λ g. ground (arith, alone g)))
        | inr y ↦ rw y (
            blocks-Parked s.mutex.queue s.mutex.queue_lock s.freds s.phase k f s.mutex.queue none
              s.freds idle k.coherent refl
              (λ g. ground (arith, free, ap s.freds.blocked_on {x = g} {y = f}))
              (λ g. ground (arith, alone g)))
      ]

  pub leaves-Parked : (f : ℕ) → s.phase f ≡ suspended → IsParked (do_leave f s)
  unfolding leave block_leave
  leaves-Parked f e =
      let inside : s.freds.blocked_on f ≡ s.mutex.queue.address =
        k.blocked f ∙ ap (λ (t : Bool). if t then s.mutex.queue.address else 0) (ap sleeps e) in
      blocks-Parked s.mutex.queue s.mutex.queue_lock s.freds s.phase k f _ s.mutex.queue_lock _ _
        (block_leave-IsCoherent f s.mutex.queue s.freds k.coherent inside) (ground arith)
        (λ g. ground arith)
        (λ g. k.locked g ∙ unchanged_at (λ x. locks (s.phase x)) f g _ (ap locks e ∙ ground arith))

  handed-blocked :
      (next : Option ℕ) (g : ℕ)
      → (notify true next
            (notify false next (handed s.mutex.queue.address next s.freds))).blocked_on
          g
        ≡ s.freds.blocked_on g
  unfolding resume
  handed-blocked none g = refl
  handed-blocked (some h) g = refl

  pub wakes-Parked :
      (f : ℕ)
      → s.phase f ≡ notifying
      → IsParked (goes f idle (wake s.mutex s.freds).0 (wake s.mutex s.freds).1 s)
  unfolding wake
  wakes-Parked f e =
      let (next, q, w') = unblock false s.mutex.queue s.freds in
      let kept =
        notify-IsCoherent true next q w'
          (unblock-IsCoherent false s.mutex.queue s.freds k.coherent) in
      rw (unblock_lem false s.mutex.queue s.freds) (
        blocks-Parked s.mutex.queue s.mutex.queue_lock s.freds s.phase k f _ s.mutex.queue_lock _
          idle (rw (unblock_lem false s.mutex.queue s.freds) at kept) refl
          (λ g.
            handed-blocked (first (live s.mutex.queue s.freds)) g
            ∙ unchanged_at s.freds.blocked_on f g 0 (awake f notifying e refl))
          (λ g. k.locked g ∙ unchanged_at (λ x. locks (s.phase x)) f g false (ap locks e)))

  pub asks-Parked : (f : ℕ) → s.phase f ≡ asking → s.mutex.queue_lock ≡ none → IsParked (do_ask f s)
  unfolding ask
  asks-Parked f e l = elim (Bool-cases (s.mutex.value == 2)) [
    | inl y ↦ rw y (
        blocks-Parked s.mutex.queue s.mutex.queue_lock s.freds s.phase k f s.mutex.queue (some f)
          s.freds parking k.coherent refl
          (λ g. unchanged_at s.freds.blocked_on f g 0 (awake f asking e refl))
          (λ g. ground (arith, sym (k.locked g) ∙ ap (λ (o : Option ℕ). is_fred o g) l)))
    | inr y ↦ rw y (
        plain-Parked s.mutex.queue s.mutex.queue_lock s.freds s.phase k f asking swapping e refl
          refl)
  ]

  race-blocked :
      (f timer g : ℕ) → (race_resume f timer s.freds).1.blocked_on g ≡ s.freds.blocked_on g
  unfolding race_resume
  race-blocked f timer g = ground arith

  pub expires-Parked :
      (f timer : ℕ)
      → timer ≢ s.mutex.queue.address
      → IsParked (record s { freds = (race_resume f timer s.freds).1 })
  expires-Parked f timer ne = record {
    coherent = race_resume-IsCoherent f timer s.mutex.queue s.freds k.coherent ne;
    blocked = λ g. race-blocked f timer g ∙ k.blocked g;
    locked = k.locked;
  }

  -- A step of a fred that neither sleeps nor has the queue's lock, before and after.
  pub plain :
      (m' : Mutex) (f : ℕ) (q p : Phase)
      → s.phase f ≡ q
      → (sleeps q ≡ false) × (locks q ≡ false)
      → (sleeps p ≡ false) × (locks p ≡ false)
      → m'.queue ≡ s.mutex.queue
      → m'.queue_lock ≡ s.mutex.queue_lock
      → Parked m'.queue m'.queue_lock s.freds (update s.phase f p)
  plain m' f q p e (a, b) (c, d) eq el =
      subst (λ (x : BlockingQueue). Parked x m'.queue_lock s.freds (update s.phase f p)) (sym eq)
        (subst (λ (x : Option ℕ). Parked s.mutex.queue x s.freds (update s.phase f p)) (sym el)
          (plain-Parked s.mutex.queue s.mutex.queue_lock s.freds s.phase k f q p e (c ∙ sym a)
            (d ∙ sym b)))
