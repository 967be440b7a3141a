-- ===== src/LockedSemaphore/Invariant.antt =====
-- No fred sleeps on an open semaphore, and the nodes of the queue are those of waiting freds.
use mathlib.Core.Path.{subst}
use libfibre.Base.{
  ℕ, ◌≡◌, refl, ◌≢◌, Bool, true, false, Option, none, some, List, [], ◌∷◌, arith, erase, Bool-cases,
  inl, inr, ap, sym, ◌∙◌,
}
use libfibre.Base.Int.{ℤ, pos, ltb_ℤ, ◌≤ℤ◌}
use libfibre.Freds.{Freds, race_resume}
use libfibre.BlockingQueue.{BlockingQueue, Args, may_block, block, notify, unblock}
use libfibre.BlockingQueue.Order.{
  live, first, rest, unblock-live, notify-live, block_leave-live, race_resume-live,
}
use libfibre.BlockingQueue.Coherence.{
  IsCoherent, block_enter-IsCoherent, block_leave-IsCoherent, unblock-IsCoherent, notify-IsCoherent,
  race_resume-IsCoherent,
}
use libfibre.LockedSemaphore.{Semaphore, internal_p, wait, p_leave, settle, v, try_v}
use libfibre.LockedSemaphore.System.{
  System, init, do_p, do_leave, do_v, do_try_v, do_wait, do_expire, Step, enter, leave, post,
  try_post, discard, expire, Reach, here, later,
}

-- While a permit is available, no fred waits whose race is still open. A binary semaphore holds at
-- most one permit.
pub record Inv (binary : Bool) (s : Semaphore) (w : Freds) : Type 0 where
  pub coherent : IsCoherent s.bq w
  pub closed : pos 1 ≤ℤ s.counter → live s.bq w ≡ []
  pub bound : binary ≡ true → s.counter ≤ℤ pos 1

nil_of_none : (xs : List ℕ) → none ≡ first xs → xs ≡ []
nil_of_none [] e = refl
nil_of_none (x ∷ xs) e = cc

-- `block` is called with the counter below 1 only.
block-Inv :
    (binary : Bool) (args : Args) (f : ℕ) (s : Semaphore) (w : Freds)
    → Inv binary s w
    → w.blocked_on f ≡ 0
    → s.counter ≤ℤ pos 0
    → let (parked, bq, w') = block args f s.bq w in Inv binary (record s { bq = bq }) w'
unfolding block
block-Inv binary args f s w i free low = elim (Bool-cases (may_block args)) [
  | inl e ↦ rw e (record {
    coherent = block_enter-IsCoherent f s.bq w i.coherent free;
    closed = λ h. absurd (omega arith);
    bound = i.bound;
  })
  | inr e ↦ rw e i
]

internal_p-Inv :
    (binary : Bool) (args : Args) (f : ℕ) (s : Semaphore) (w : Freds)
    → Inv binary s w
    → w.blocked_on f ≡ 0
    → let (r, s', w') = internal_p args f s w in Inv binary s' w'
unfolding internal_p
internal_p-Inv binary args f s w i free = elim (Bool-cases (ltb_ℤ s.counter (pos 1))) [
  | inl e ↦ rw e (block-Inv binary args f s w i free (ground arith))
  | inr e ↦ rw e (record {
    coherent = i.coherent;
    closed = λ h. i.closed (ground arith);
    bound = λ h. ground (arith, i.bound);
  })
]

wait-Inv :
    (args : Args) (f : ℕ) (s : Semaphore) (w : Freds)
    → Inv true s w
    → w.blocked_on f ≡ 0
    → let (r, s', w') = wait args f s w in Inv true s' w'
unfolding wait
wait-Inv args f s w i free =
    internal_p-Inv true args f (record s { counter = pos 0 }) w
      (record {
        coherent = i.coherent;
        closed = λ h. absurd (omega arith);
        bound = λ h. omega arith;
      })
      free

p_leave-Inv :
    (binary : Bool) (f : ℕ) (s : Semaphore) (w : Freds)
    → Inv binary s w
    → w.blocked_on f ≡ s.bq.address
    → w.info f ≢ 0
    → let (r, s', w') = p_leave f s w in Inv binary s' w'
unfolding p_leave
p_leave-Inv binary f s w i inside decided = record {
  coherent = block_leave-IsCoherent f s.bq w i.coherent inside;
  closed = λ h. block_leave-live f s.bq w decided ∙ i.closed h;
  bound = i.bound;
}

race_resume-Inv :
    (binary : Bool) (f timer : ℕ) (s : Semaphore) (w : Freds)
    → Inv binary s w
    → timer ≢ 0
    → timer ≢ s.bq.address
    → Inv binary s (race_resume f timer w).1
race_resume-Inv binary f timer s w i nz ne = record {
  coherent = race_resume-IsCoherent f timer s.bq w i.coherent ne;
  closed = λ h. race_resume-live f timer s.bq w i.coherent.distinct nz ∙ ap (erase f) (i.closed h);
  bound = i.bound;
}

given-Inv :
    (binary enqueue : Bool) (next : Option ℕ) (s : Semaphore) (bq : BlockingQueue) (w w' : Freds)
    → Inv binary s w
    → IsCoherent bq w'
    → next ≡ first (live s.bq w)
    → live bq w' ≡ rest (live s.bq w)
    → Inv binary (settle binary next s bq) (notify enqueue next w')
unfolding settle
given-Inv binary enqueue none s bq w w' i c e l = record {
  coherent = c;
  closed = λ h. l ∙ ap rest (nil_of_none (live s.bq w) e);
  bound = λ h. ground arith;
}
given-Inv binary enqueue (some f) s bq w w' i c e l = record {
  coherent = notify-IsCoherent enqueue (some f) bq w' c;
  closed = λ h. notify-live enqueue (some f) bq w' ∙ l ∙ ap rest (i.closed h);
  bound = i.bound;
}

v-Inv :
    (binary enqueue : Bool) (s : Semaphore) (w : Freds)
    → Inv binary s w
    → let (next, s', w') = v binary enqueue s w in Inv binary s' w'
unfolding v
v-Inv binary enqueue s w i =
    let (got, node, race, order, calls) =
      unblock-live false s.bq w i.coherent.distinct i.coherent.nonnull in
    given-Inv binary enqueue _ s _ w _ i (unblock-IsCoherent false s.bq w i.coherent) got order

try_v-Inv :
    (binary enqueue : Bool) (s : Semaphore) (w : Freds)
    → Inv binary s w
    → let (next, s', w') = try_v enqueue s w in Inv binary s' w'
unfolding try_v
try_v-Inv binary enqueue s w i =
    let (got, node, race, order, calls) =
      unblock-live false s.bq w i.coherent.distinct i.coherent.nonnull in
    let (next, b, w') = unblock false s.bq w in
    record {
      coherent = notify-IsCoherent enqueue next b w' (unblock-IsCoherent false s.bq w i.coherent);
      closed = λ h. notify-live enqueue next b w' ∙ order ∙ ap rest (i.closed h);
      bound = i.bound;
    }

-- Every step of the freds that share a semaphore keeps its list of nodes coherent, lets no fred
-- sleep while a permit is available, and keeps a binary semaphore at 1 or below.
pub Step-Inv :
    {binary : Bool} {s t : System}
    → Step binary s t
    → Inv binary s.sem s.freds
    → Inv binary t.sem t.freds
unfolding do_p do_leave do_v do_try_v do_wait do_expire
Step-Inv {binary} {s} (enter f args free) i = internal_p-Inv binary args f s.sem s.freds i free
Step-Inv {binary} {s} (leave f inside decided) i =
    p_leave-Inv binary f s.sem s.freds i inside decided
Step-Inv {binary} {s} (post enqueue) i = v-Inv binary enqueue s.sem s.freds i
Step-Inv {binary} {s} (try_post enqueue) i = try_v-Inv binary enqueue s.sem s.freds i
Step-Inv {binary} {s} (discard f args e free) i =
    subst (λ b. Inv b (do_wait args f s).sem (do_wait args f s).freds) (sym e)
      (wait-Inv args f s.sem s.freds (subst (λ b. Inv b s.sem s.freds) e i) free)
Step-Inv {binary} {s} (expire f timer nz ne) i =
    race_resume-Inv binary f timer s.sem s.freds i nz ne

init-Inv :
    (binary : Bool) (c : ℤ) (address : ℕ)
    → address ≢ 0
    → (binary ≡ true → c ≤ℤ pos 1)
    → Inv binary (init c address).sem (init c address).freds
init-Inv binary c address nz h = record {
  coherent = record { distinct = tt; nonnull = nz; member = λ f. ground arith };
  closed = λ _. refl;
  bound = h;
}

pub Reach-Inv :
    {binary : Bool} {c : ℤ} {address : ℕ} {s : System}
    → address ≢ 0
    → (binary ≡ true → c ≤ℤ pos 1)
    → Reach binary (init c address) s
    → Inv binary s.sem s.freds
Reach-Inv {binary} {c} {address} nz h here = init-Inv binary c address nz h
Reach-Inv nz h (later r st) = Step-Inv st (Reach-Inv nz h r)
