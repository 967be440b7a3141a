-- ===== src/SpinCondMutex/Watching.antt =====
-- Someone watches over the freds that sleep, in every reachable state.
use libfibre.Base.{
  ℕ, ◌≡◌, refl, ◌≢◌, true, false, Option, none, some, List, [], ◌∷◌, arith, ◌==◌, inl, inr,
  Bool-cases, ◌⊎◌, ap, sym, ◌∙◌, erase,
}
use libfibre.Freds.{race_resume, resume}
use libfibre.BlockingQueue.{block_leave, notify}
use libfibre.BlockingQueue.Order.{
  live, first, without, handed, unblock_lem, block_leave-live, race_resume-live,
}
use libfibre.BlockingQueue.Coherence.{first-mem}
use libfibre.SpinCondMutex.{
  idle, claimed, holding, clearing, notifying, suspended, try_lock2, write_owner, leave, wake,
}
use libfibre.SpinCondMutex.System.{
  System, init, goes, do_leave, Step, starts, tries, swaps, owns, clears, frees, wakes, asks, parks,
  leaves, expires, Reach, here, later,
}
use libfibre.SpinCondMutex.Parking.{IsParked, sleeps}
use libfibre.SpinCondMutex.Wakeup.{
  Watched, pusher, pushing, Reach-Parked, still_pushes, now_pushes, quiet-Watched, tries-Watched,
  frees-Watched, asks-Watched, parks-Watched,
}

nil_of_none : (xs : List ℕ) → none ≡ first xs → xs ≡ []
nil_of_none [] e = refl
nil_of_none (x ∷ xs) e = cc

module _ (s : System) (k : IsParked s) where
  -- The fred that is woken sleeps.
  woken_asleep : (g : ℕ) → first (live s.mutex.queue s.freds) ≡ some g → sleeps (s.phase g) ≡ true
  woken_asleep g e = ground (
    arith,
    k.coherent.member g,
    k.coherent.nonnull,
    first-mem s.freds.info s.mutex.queue.queue g e,
    k.blocked g,
  )

  leaves-Watched :
      (f : ℕ) → Watched s → s.phase f ≡ suspended → s.freds.info f ≢ 0 → Watched (do_leave f s)
  unfolding leave block_leave
  leaves-Watched f v e d =
      let quiet = block_leave-live f s.mutex.queue s.freds d in
      elim (Bool-cases (s.freds.info f == s.mutex.queue.address)) [
        | inl c ↦ inr (
            inl (
              f,
              now_pushes s f _ (leave f s.mutex s.freds).1 (leave f s.mutex s.freds).2
                  (ground (arith, c)),
            ))
        | inr c ↦ elim v [
          | inl z ↦ inl z
          | inr (inl (g, h)) ↦ inr (
              inl (
                g,
                still_pushes s f _ (leave f s.mutex s.freds).1 (leave f s.mutex s.freds).2 g
                    (ground (arith, ap pushing e, ap sleeps e, c)) h (ground arith) (ground arith),
              ))
          | inr (inr (l, o)) ↦ inr (inr (quiet ∙ l, o))
        ]
      ]

  pass-Watched :
      (f : ℕ) (next : Option ℕ)
      → next ≡ first (live s.mutex.queue s.freds)
      → s.phase f ≡ notifying
      → s.mutex.queue_lock ≡ none
      → Watched (
          goes f idle
            (record s.mutex {
              queue = record s.mutex.queue { queue = without next s.mutex.queue.queue };
            })
            (notify true next (notify false next (handed s.mutex.queue.address next s.freds)))
            s)
  unfolding resume
  pass-Watched f none n e o = inr (inr (nil_of_none (live s.mutex.queue s.freds) n, o))
  pass-Watched f (some g) n e o = inr (inl (g, ground (arith, woken_asleep g (sym n), ap sleeps e)))

  wakes-Watched :
      (f : ℕ)
      → s.phase f ≡ notifying
      → s.mutex.queue_lock ≡ none
      → Watched (goes f idle (wake s.mutex s.freds).0 (wake s.mutex s.freds).1 s)
  unfolding wake
  wakes-Watched f e o = rw (unblock_lem false s.mutex.queue s.freds) (pass-Watched f _ refl e o)

  expires-Watched :
      (f timer : ℕ)
      → Watched s
      → timer ≢ 0
      → Watched (record s { freds = (race_resume f timer s.freds).1 })
  unfolding race_resume
  expires-Watched f timer v nz = elim v [
    | inl z ↦ inl z
    | inr (inl (g, h)) ↦ inr (inl (g, ground (arith, h, k.coherent.nonnull)))
    | inr (inr (l, o)) ↦ inr (
        inr (
          race_resume-live f timer s.mutex.queue s.freds k.coherent.distinct nz ∙ ap (erase f) l,
          o,
        ))
  ]

Step-Watched : {s t : System} → Step s t → IsParked s → Watched s → Watched t
unfolding write_owner try_lock2
Step-Watched {s} (starts owner_lock args f p e h) k v =
    quiet-Watched s v s.mutex f idle p e (refl, refl) (λ z. z) refl refl
Step-Watched {s} (tries once more f e) k v = tries-Watched s v once more f e
Step-Watched {s} (swaps more f e) k v = inl refl
Step-Watched {s} (owns f e) k v =
    quiet-Watched s v (write_owner (some f) s.mutex) f claimed holding e (refl, refl) (λ z. z) refl
      refl
Step-Watched {s} (clears f e) k v =
    quiet-Watched s v (write_owner none s.mutex) f holding clearing e (refl, refl) (λ z. z) refl
      refl
Step-Watched {s} (frees f e) k v = frees-Watched s v f e
Step-Watched {s} (wakes f e l) k v = wakes-Watched s k f e l
Step-Watched {s} (asks f e l) k v = asks-Watched s v f e l
Step-Watched {s} (parks args f e) k v = parks-Watched s v args f k e
Step-Watched {s} (leaves f e d) k v = leaves-Watched s k f v e d
Step-Watched {s} (expires f timer nz ne) k v = expires-Watched s k f timer v nz

-- In every reachable state no fred waits with its race open, or the value is 2, so that the fred that frees the
-- mutex will look for one to wake, or some fred has been woken, is about to wake another, or is about to
-- exchange the value for 2.
pub cond_mutex_wakeup :
    {address : ℕ} {s : System}
    → address ≢ 0
    → Reach (init address) s
    → (live s.mutex.queue s.freds ≡ []) ⊎ ((s.mutex.value ≡ 2) ⊎ ((g : ℕ) × (pusher s g ≡ true)))
cond_mutex_wakeup nz r = elim (watch nz r) [
  | inl z ↦ inr (inl z)
  | inr (inl h) ↦ inr (inr h)
  | inr (inr (l, o)) ↦ inl l
]
  where
    watch : {address : ℕ} {s : System} → address ≢ 0 → Reach (init address) s → Watched s
    watch nz here = inr (inr (refl, refl))
    watch nz (later r st) = Step-Watched st (Reach-Parked nz r) (watch nz r)
