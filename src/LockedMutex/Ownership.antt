-- ===== src/LockedMutex/Ownership.antt =====
-- Mutual exclusion: `owner` names the one fred that holds the mutex or has been handed it.
use libfibre.Base.{
  ℕ, ◌≡◌, refl, ◌≢◌, Bool, true, false, not, ◌&&◌, ◌||◌, Option, none, some, arith, ◌==◌,
  if◌then◌else◌, update, inl, inr, Bool-cases,
}
use libfibre.Freds.{prepare_race, race_resume, resume}
use libfibre.BlockingQueue.{Args, may_block, block, block_enter, block_leave, notify, unblock}
use libfibre.BlockingQueue.Order.{live, first, first-live, handed, without, unblock_lem}
use libfibre.BlockingQueue.Coherence.{
  IsCoherent, first-mem, block_enter-IsCoherent, block_leave-IsCoherent, unblock-IsCoherent,
  notify-IsCoherent, race_resume-IsCoherent,
}
use libfibre.LockedMutex.{is_owner, is_none, internal_acquire, acquire_leave, release}
use libfibre.LockedMutex.System.{
  System, init, do_acquire, do_leave, do_release, do_expire, Step, enter, leave, exit, expire,
  Reach, here, later,
}

-- The fred was handed the mutex by `release`, and has not returned from `acquire` yet.
abbrev pub in_transit : System → ℕ → Bool
in_transit s f =
    (s.freds.blocked_on f == s.mutex.bq.address) && (s.freds.info f == s.mutex.bq.address)

-- Who holds the mutex, or is about to try again, is not blocked on it.
pub record Owned (fifo : Bool) (s : System) : Type 0 where
  pub coherent : IsCoherent s.mutex.bq s.freds
  pub owned : (f : ℕ) → is_owner s.mutex.owner f ≡ (s.holding f || (fifo && in_transit s f))
  pub idle_holder : (f : ℕ) → s.holding f ≡ true → s.freds.blocked_on f ≢ s.mutex.bq.address
  pub idle_retrying : (f : ℕ) → s.retrying f ≡ true → s.freds.blocked_on f ≢ s.mutex.bq.address

-- What the invariant says of one fred.
at :
    {fifo : Bool} {s : System}
    → Owned fifo s
    → (f : ℕ)
    → (is_owner s.mutex.owner f ≡ (s.holding f || (fifo && in_transit s f)))
      × (s.holding f ≡ true → s.freds.blocked_on f ≢ s.mutex.bq.address)
      × (s.retrying f ≡ true → s.freds.blocked_on f ≢ s.mutex.bq.address)
      × (s.mutex.bq.address ≢ 0)
at o f = (o.owned f, o.idle_holder f, o.idle_retrying f, o.coherent.nonnull)

one_owner : (o : Option ℕ) (f g : ℕ) → is_owner o f ≡ true → is_owner o g ≡ true → f ≡ g
one_owner none f g p q = cc
one_owner (some h) f g p q = ground arith

do_acquire-Owned :
    (fifo owner_lock : Bool) (args : Args) (f : ℕ) (s : System)
    → s.freds.blocked_on f ≡ 0
    → (s.holding f && not owner_lock) ≡ false
    → Owned fifo s
    → Owned fifo (do_acquire owner_lock args f s)
unfolding do_acquire internal_acquire block block_enter prepare_race
do_acquire-Owned fifo owner_lock args f s free fresh o =
    elim (Bool-cases (owner_lock && is_owner s.mutex.owner f)) [
      | inl e ↦ rw e (record {
        coherent = o.coherent;
        owned = λ g. ground (arith, at o g, at o f);
        idle_holder = λ g. ground (arith, at o g, at o f);
        idle_retrying = λ g. ground (arith, at o g, at o f);
      })
      | inr e ↦ rw e (elim (Bool-cases (is_none s.mutex.owner)) [
        | inl e' ↦ rw e' (record {
          coherent = o.coherent;
          owned = λ g. ground (arith, at o g, at o f);
          idle_holder = λ g. ground (arith, at o g, at o f);
          idle_retrying = λ g. ground (arith, at o g, at o f);
        })
        | inr e' ↦ rw e' (elim (Bool-cases (may_block args)) [
          | inl e'' ↦ rw e'' (record {
            coherent = block_enter-IsCoherent f s.mutex.bq s.freds o.coherent free;
            owned = λ g. ground (arith, at o g, at o f);
            idle_holder = λ g. ground (arith, at o g, at o f);
            idle_retrying = λ g. ground (arith, at o g, at o f);
          })
          | inr e'' ↦ rw e'' (record {
            coherent = o.coherent;
            owned = λ g. ground (arith, at o g, at o f);
            idle_holder = λ g. ground (arith, at o g, at o f);
            idle_retrying = λ g. ground (arith, at o g, at o f);
          })
        ])
      ])
    ]

do_leave-Owned :
    (fifo : Bool) (f : ℕ) (s : System)
    → s.freds.blocked_on f ≡ s.mutex.bq.address
    → Owned fifo s
    → Owned fifo (do_leave fifo f s)
unfolding do_leave acquire_leave block_leave
do_leave-Owned fifo f s inside o = record {
  coherent = block_leave-IsCoherent f s.mutex.bq s.freds o.coherent inside;
  owned = λ g. ground (arith, at o g, at o f);
  idle_holder = λ g. ground (arith, at o g, at o f);
  idle_retrying = λ g. ground (arith, at o g, at o f);
}

-- `release` with the fred that `unblock` found.
pass-Owned :
    (fifo : Bool) (f : ℕ) (s : System) (next : Option ℕ)
    → next ≡ first (live s.mutex.bq s.freds)
    → IsCoherent
        (record s.mutex.bq { queue = without next s.mutex.bq.queue })
        (notify true next (notify false next (handed s.mutex.bq.address next s.freds)))
    → s.freds.blocked_on f ≡ 0
    → s.holding f ≡ true
    → Owned fifo s
    → Owned fifo (record s {
      mutex = record {
        owner = if fifo then next else none;
        bq = record s.mutex.bq { queue = without next s.mutex.bq.queue };
      };
      freds = notify true next (notify false next (handed s.mutex.bq.address next s.freds));
      holding = update s.holding f false;
    })
unfolding resume
pass-Owned fifo f s none e c out held o = record {
  coherent = c;
  owned = λ g. ground (arith, at o g, at o f);
  idle_holder = λ g. ground (arith, at o g, at o f);
  idle_retrying = λ g. ground (arith, at o g, at o f);
}
pass-Owned fifo f s (some h) e c out held o = record {
  coherent = c;
  owned = λ g. ground (
    arith,
    o.owned g,
    o.owned f,
    o.idle_holder g,
    o.idle_holder f,
    o.coherent.nonnull,
    o.coherent.member h,
    o.idle_holder h,
    o.owned h,
    first-live s.freds.info s.mutex.bq.queue {f = h},
    first-mem s.freds.info s.mutex.bq.queue h,
  );
  idle_holder = λ g. ground (
    arith,
    o.owned g,
    o.owned f,
    o.idle_holder g,
    o.idle_holder f,
    o.coherent.nonnull,
    o.coherent.member h,
    o.idle_holder h,
    o.owned h,
    first-live s.freds.info s.mutex.bq.queue {f = h},
    first-mem s.freds.info s.mutex.bq.queue h,
  );
  idle_retrying = λ g. ground (
    arith,
    o.owned g,
    o.owned f,
    o.idle_retrying g,
    o.idle_retrying f,
    o.coherent.nonnull,
    o.coherent.member h,
    o.idle_retrying h,
    o.owned h,
    first-live s.freds.info s.mutex.bq.queue {f = h},
    first-mem s.freds.info s.mutex.bq.queue h,
  );
}

do_release-Owned :
    (fifo : Bool) (f : ℕ) (s : System)
    → s.freds.blocked_on f ≡ 0
    → s.holding f ≡ true
    → Owned fifo s
    → Owned fifo (do_release fifo f s)
unfolding do_release release
do_release-Owned fifo f s out held o =
    let (next, bq, w') = unblock false s.mutex.bq s.freds in
    let kept =
      notify-IsCoherent true next bq w' (unblock-IsCoherent false s.mutex.bq s.freds o.coherent) in
    rw (unblock_lem false s.mutex.bq s.freds)
      (pass-Owned fifo f s _ refl (rw (unblock_lem false s.mutex.bq s.freds) at kept) out held o)

do_expire-Owned :
    (fifo : Bool) (f timer : ℕ) (s : System)
    → timer ≢ s.mutex.bq.address
    → Owned fifo s
    → Owned fifo (do_expire f timer s)
unfolding do_expire race_resume
do_expire-Owned fifo f timer s ne o = record {
  coherent = race_resume-IsCoherent f timer s.mutex.bq s.freds o.coherent ne;
  owned = λ g. ground (arith, at o g, at o f);
  idle_holder = λ g. ground (arith, o.idle_holder g);
  idle_retrying = λ g. ground (arith, o.idle_retrying g);
}

pub Step-Owned : {fifo : Bool} {s t : System} → Step fifo s t → Owned fifo s → Owned fifo t
Step-Owned {fifo} {s} (enter owner_lock f args free fresh) o =
    do_acquire-Owned fifo owner_lock args f s free fresh o
Step-Owned {fifo} {s} (leave f inside decided) o = do_leave-Owned fifo f s inside o
Step-Owned {fifo} {s} (exit f out held) o = do_release-Owned fifo f s out held o
Step-Owned {fifo} {s} (expire f timer nz ne) o = do_expire-Owned fifo f timer s ne o

-- In every reachable state `owner` is exactly the fred that holds the mutex or, with `Fifo`, that
-- was handed it by `release` and has not returned from `acquire` yet.
pub Reach-Owned :
    {fifo : Bool} {address : ℕ} {s : System}
    → address ≢ 0
    → Reach fifo (init address) s
    → Owned fifo s
Reach-Owned {address} nz here = record {
  coherent = record { distinct = tt; nonnull = nz; member = λ f. ground arith };
  owned = λ f. ground arith;
  idle_holder = λ f e. cc;
  idle_retrying = λ f e. cc;
}
Reach-Owned nz (later r st) = Step-Owned st (Reach-Owned nz r)

-- Two freds never hold the mutex together, whether releases hand it over or let others barge in.
pub mutual_exclusion :
    {fifo : Bool} {address : ℕ} {s : System}
    → address ≢ 0
    → Reach fifo (init address) s
    → (f g : ℕ) → s.holding f ≡ true
    → s.holding g ≡ true
    → f ≡ g
mutual_exclusion {s} nz r f g hf hg =
    let o = Reach-Owned nz r in
    one_owner s.mutex.owner f g (ground (arith, o.owned f)) (ground (arith, o.owned g))
