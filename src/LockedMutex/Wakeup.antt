-- ===== src/LockedMutex/Wakeup.antt =====
-- No wakeup is lost: a free mutex leaves no fred asleep, unless one is awake to take it.
use libfibre.Base.{
  ℕ, ◌≡◌, refl, ◌≢◌, Bool, true, false, ◌||◌, Option, none, some, List, [], ◌∷◌, arith, ◌==◌,
  if◌then◌else◌, update, inl, inr, Bool-cases, ◌⊎◌, ap, ◌∙◌, erase,
}
use libfibre.Freds.{race_resume, resume}
use libfibre.BlockingQueue.{Args, block_leave, notify}
use libfibre.BlockingQueue.Order.{
  live, first, handed, without, unblock_lem, block_leave-live, race_resume-live, first-live,
}
use libfibre.BlockingQueue.Coherence.{IsCoherent, first-mem}
use libfibre.LockedMutex.{internal_acquire, acquire_leave, release}
use libfibre.LockedMutex.System.{
  System, init, do_acquire, do_leave, do_release, do_expire, Step, enter, leave, exit, expire,
  Reach, here, later,
}
use libfibre.LockedMutex.Ownership.{Owned, in_transit, Reach-Owned}

-- A fred that will take the mutex if it finds it free: woken, or starting another round.
abbrev pub Contender : System → Type 0
Contender s = (f : ℕ) × ((s.retrying f || in_transit s f) ≡ true)

pub NoSleeper : System → Type 0
NoSleeper s = s.mutex.owner ≡ none → (live s.mutex.bq s.freds ≡ []) ⊎ Contender s

nil_of_none : (xs : List ℕ) → none ≡ first xs → xs ≡ []
nil_of_none [] e = refl
nil_of_none (x ∷ xs) e = cc

-- After a call of `acquire` the mutex is never free.
do_acquire-owner :
    (owner_lock : Bool) (args : Args) (f : ℕ) (s : System)
    → (do_acquire owner_lock args f s).mutex.owner ≢ none
unfolding do_acquire internal_acquire
do_acquire-owner owner_lock args f s z = ground arith

do_leave-NoSleeper :
    (fifo : Bool) (f : ℕ) (s : System)
    → s.freds.info f ≢ 0
    → s.freds.blocked_on f ≡ s.mutex.bq.address
    → Owned fifo s
    → NoSleeper s
    → NoSleeper (do_leave fifo f s)
unfolding NoSleeper do_leave acquire_leave block_leave
do_leave-NoSleeper fifo f s decided inside o h z =
    elim (Bool-cases (s.freds.info f == s.mutex.bq.address)) [
      | inl e ↦ inr (f, ground (arith, o.owned f))
      | inr e ↦ elim (h z) [
        | inl quiet ↦ inl (block_leave-live f s.mutex.bq s.freds decided ∙ quiet)
        | inr (g, c) ↦ inr (g, ground (arith, o.idle_retrying g, o.idle_retrying f))
      ]
    ]

pass-NoSleeper :
    (fifo : Bool) (f : ℕ) (s : System) (next : Option ℕ)
    → next ≡ first (live s.mutex.bq s.freds)
    → s.mutex.bq.address ≢ 0
    → IsCoherent s.mutex.bq s.freds
    → NoSleeper (record s {
      mutex = record {
        owner = if fifo then next else none;
        bq = record s.mutex.bq { queue = without next s.mutex.bq.queue };
      };
      freds = notify true next (notify false next (handed s.mutex.bq.address next s.freds));
      holding = update s.holding f false;
    })
unfolding NoSleeper resume
pass-NoSleeper fifo f s none e nz c z = inl (nil_of_none (live s.mutex.bq s.freds) e)
pass-NoSleeper fifo f s (some g) e nz c z = inr (
  g,
  ground (
    arith,
    c.member g,
    first-mem s.freds.info s.mutex.bq.queue g,
    first-live s.freds.info s.mutex.bq.queue {f = g},
  ),
)

do_release-NoSleeper :
    (fifo : Bool) (f : ℕ) (s : System) → Owned fifo s → NoSleeper (do_release fifo f s)
unfolding do_release release
do_release-NoSleeper fifo f s o =
    rw (unblock_lem false s.mutex.bq s.freds)
      (pass-NoSleeper fifo f s _ refl o.coherent.nonnull o.coherent)

do_expire-NoSleeper :
    (fifo : Bool) (f timer : ℕ) (s : System)
    → timer ≢ 0
    → Owned fifo s
    → NoSleeper s
    → NoSleeper (do_expire f timer s)
unfolding NoSleeper do_expire race_resume
do_expire-NoSleeper fifo f timer s nz o h z = elim (h z) [
  | inl quiet ↦
      inl (race_resume-live f timer s.mutex.bq s.freds o.coherent.distinct nz ∙ ap (erase f) quiet)
  | inr (g, c) ↦ inr (g, ground (arith, o.coherent.nonnull))
]

Step-NoSleeper :
    {fifo : Bool} {s t : System} → Step fifo s t → Owned fifo s → NoSleeper s → NoSleeper t
unfolding NoSleeper
Step-NoSleeper {fifo} {s} (enter owner_lock f args free fresh) o h z =
    absurd (do_acquire-owner owner_lock args f s z)
Step-NoSleeper {fifo} {s} (leave f inside decided) o h z =
    do_leave-NoSleeper fifo f s decided inside o h z
Step-NoSleeper {fifo} {s} (exit f out held) o h z = do_release-NoSleeper fifo f s o z
Step-NoSleeper {fifo} {s} (expire f timer nz ne) o h z = do_expire-NoSleeper fifo f timer s nz o h z

-- In every reachable state, if the mutex is free then no fred waits for it with its race open, or
-- some fred has been woken, or is starting another round, and has yet to try.
pub no_lost_wakeup :
    {fifo : Bool} {address : ℕ} {s : System}
    → address ≢ 0
    → Reach fifo (init address) s
    → s.mutex.owner ≡ none
    → (live s.mutex.bq s.freds ≡ []) ⊎ Contender s
unfolding NoSleeper
no_lost_wakeup nz here z = inl refl
no_lost_wakeup nz (later r st) z = Step-NoSleeper st (Reach-Owned nz r) (no_lost_wakeup nz r) z
