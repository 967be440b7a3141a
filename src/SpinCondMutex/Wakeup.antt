-- ===== src/SpinCondMutex/Wakeup.antt =====
-- No wakeup is lost.
use libfibre.Base.{
  ℕ, ◌≡◌, refl, ◌≢◌, Bool, true, false, ◌&&◌, ◌||◌, Option, none, some, [], arith, ◌==◌,
  if◌then◌else◌, inl, inr, Bool-cases, ◌⊎◌, ap, ◌∙◌,
}
use libfibre.Freds.{Freds, prepare_race}
use libfibre.BlockingQueue.{BlockingQueue, Args, block_enter, block}
use libfibre.BlockingQueue.Order.{live}
use libfibre.SpinCondMutex.{
  Mutex, Phase, idle, trying, swapping, claimed, holding, clearing, notifying, asking, parking,
  is_fred, start, try_lock1, after_try1, try_lock2, after_try2, write_owner, release_value, ask,
  park,
}
use libfibre.SpinCondMutex.System.{
  System, init, goes, do_try1, do_ask, do_park, Step, starts, tries, swaps, owns, clears, frees,
  wakes, asks, parks, leaves, expires, Reach, here, later,
}
use libfibre.SpinCondMutex.Exclusion.{test-update}
use libfibre.SpinCondMutex.Parking.{
  IsParked, sleeps, locks, parks-Parked, leaves-Parked, wakes-Parked, asks-Parked, expires-Parked,
  plain,
}

start-quiet :
    (owner_lock : Bool) (args : _) (f : ℕ) (m : Mutex) (p : Phase)
    → start owner_lock args f m ≡ some p
    → (sleeps p ≡ false) × (locks p ≡ false)
unfolding start
start-quiet owner_lock args f m p h = ground (arith, h)

Step-Parked : {s t : System} → Step s t → IsParked s → IsParked t
unfolding try_lock1 after_try1 try_lock2 after_try2 write_owner release_value
Step-Parked {s} (starts owner_lock args f p e h) k =
    plain s k s.mutex f idle p e (refl, refl) (start-quiet owner_lock args f s.mutex p h) refl refl
Step-Parked {s} (tries once more f e) k =
    plain s k (try_lock1 s.mutex).1 f (trying once) _ e (refl, refl) (ground arith, ground arith)
      (ground arith) (ground arith)
Step-Parked {s} (swaps more f e) k =
    plain s k (try_lock2 s.mutex).1 f swapping _ e (refl, refl) (ground arith, ground arith) refl
      refl
Step-Parked {s} (owns f e) k =
    plain s k (write_owner (some f) s.mutex) f claimed holding e (refl, refl) (refl, refl) refl refl
Step-Parked {s} (clears f e) k =
    plain s k (write_owner none s.mutex) f holding clearing e (refl, refl) (refl, refl) refl refl
Step-Parked {s} (frees f e) k =
    plain s k (release_value s.mutex).1 f clearing _ e (refl, refl) (ground arith, ground arith)
      refl refl
Step-Parked {s} (wakes f e l) k = wakes-Parked s k f e
Step-Parked {s} (asks f e l) k = asks-Parked s k f e l
Step-Parked {s} (parks args f e) k = parks-Parked s k args f e
Step-Parked {s} (leaves f e d) k = leaves-Parked s k f e
Step-Parked {s} (expires f timer nz ne) k = expires-Parked s k f timer ne

pub Reach-Parked : {address : ℕ} {s : System} → address ≢ 0 → Reach (init address) s → IsParked s
Reach-Parked {address} nz here = record {
  coherent = record { distinct = tt; nonnull = nz; member = λ f. ground (arith, nz) };
  blocked = λ f. refl;
  locked = λ f. refl;
}
Reach-Parked {address} nz (later r st) = Step-Parked st (Reach-Parked nz r)

-- A fred that is about to exchange the value for 2, or to wake another one, or has been woken.
abbrev pub pushing : Phase → Bool
pushing swapping = true
pushing notifying = true
pushing _ = false

abbrev pub pusher : System → ℕ → Bool
pusher s g =
    pushing (s.phase g) || (sleeps (s.phase g) && (s.freds.info g == s.mutex.queue.address))

abbrev pub Watched : System → Type 0
Watched s =
    (s.mutex.value ≡ 2)
    ⊎ (((g : ℕ) × (pusher s g ≡ true))
        ⊎ ((live s.mutex.queue s.freds ≡ []) × (s.mutex.queue_lock ≡ none)))

-- A step of a fred that does not push leaves the others that do.
module _ (s : System) (f : ℕ) (p : Phase) (m : Mutex) (w : Freds) where
  pub still_pushes :
      (g : ℕ)
      → pusher s f ≡ false
      → pusher s g ≡ true
      → m.queue.address ≡ s.mutex.queue.address
      → w.info g ≡ (if g == f then w.info g else s.freds.info g)
      → pusher (goes f p m w s) g ≡ true
  still_pushes g nf pg ea ei = elim (Bool-cases (g == f)) [
    | inl c ↦ absurd (ground (arith, nf, pg, ap (pusher s) {x = g} {y = f} (ground (arith, c))))
    | inr c ↦ rw (c, ea, ei, c) pg
  ]

  pub now_pushes : pushing p ≡ true → pusher (goes f p m w s) f ≡ true
  now_pushes e = ground (arith, test-update pushing s.phase f p f, e)

not_pusher :
    (s : System) (f : ℕ) (q : Phase)
    → s.phase f ≡ q
    → (pushing q ≡ false) × (sleeps q ≡ false)
    → pusher s f ≡ false
not_pusher s f q e (a, b) = ground (arith, ap pushing e, ap sleeps e, a, b)

module _ (s : System) (v : Watched s) where
  -- A step of a fred that does not push, by which the value does not cease to be 2.
  pub quiet-Watched :
      (m' : Mutex) (f : ℕ) (q p : Phase)
      → s.phase f ≡ q
      → (pushing q ≡ false) × (sleeps q ≡ false)
      → (s.mutex.value ≡ 2 → m'.value ≡ 2)
      → m'.queue ≡ s.mutex.queue
      → m'.queue_lock ≡ s.mutex.queue_lock
      → Watched (goes f p m' s.freds s)
  quiet-Watched m' f q p e n val eq el = elim v [
    | inl z ↦ inl (val z)
    | inr (inl (g, h)) ↦ inr (
        inl (
          g,
          still_pushes s f p m' s.freds g (not_pusher s f q e n) h
              (ap (λ (b : BlockingQueue). b.address) eq) (ground arith),
        ))
    | inr (inr (l, o)) ↦ inr (inr (ap (λ (b : BlockingQueue). live b s.freds) eq ∙ l, el ∙ o))
  ]

  pub tries-Watched :
      (once more : Bool) (f : ℕ) → s.phase f ≡ trying once → Watched (do_try1 once more f s)
  unfolding try_lock1
  tries-Watched once more f e =
      quiet-Watched (try_lock1 s.mutex).1 f (trying once) _ e (refl, refl) (λ z. ground (arith, z))
        (ground arith) (ground arith)

  pub frees-Watched :
      (f : ℕ)
      → s.phase f ≡ clearing
      → Watched (goes f (release_value s.mutex).0 (release_value s.mutex).1 s.freds s)
  unfolding release_value
  frees-Watched f e = elim (Bool-cases (s.mutex.value == 1)) [
    | inl z ↦ rw z (
        quiet-Watched (record s.mutex { value = 0 }) f clearing idle e (refl, refl)
          (λ y. absurd (ground (arith, y, z))) refl refl)
    | inr z ↦
        rw z (inr (inl (f, now_pushes s f notifying (record s.mutex { value = 0 }) s.freds refl)))
  ]

  pub asks-Watched : (f : ℕ) → s.phase f ≡ asking → s.mutex.queue_lock ≡ none → Watched (do_ask f s)
  unfolding ask
  asks-Watched f e l = elim (Bool-cases (s.mutex.value == 2)) [
    | inl z ↦ rw z (inl (ground (arith, z)))
    | inr z ↦ rw z (inr (inl (f, now_pushes s f swapping s.mutex s.freds refl)))
  ]

  pub parks-Watched :
      (args : Args) (f : ℕ) → IsParked s → s.phase f ≡ parking → Watched (do_park args f s)
  unfolding park block block_enter prepare_race
  parks-Watched args f k e = elim v [
    | inl z ↦ inl z
    | inr (inl (g, h)) ↦ inr (
        inl (
          g,
          still_pushes s f _ (park args f s.mutex s.freds).1 (park args f s.mutex s.freds).2 g
              (not_pusher s f parking e (refl, refl)) h (ground arith) (ground arith),
        ))
    | inr (inr (l, o)) ↦
        absurd (ground (arith, k.locked f, ap locks e, ap (λ (x : Option ℕ). is_fred x f) o))
  ]
