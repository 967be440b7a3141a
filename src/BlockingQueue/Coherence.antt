-- ===== src/BlockingQueue/Coherence.antt =====
-- The nodes of the list against the control states and races of the freds.
use libfibre.Base.{
  ℕ, ◌≡◌, refl, ◌≢◌, Bool, true, false, not, ◌&&◌, Option, none, some, List, [], ◌∷◌, arith, ◌==◌,
  mem, Distinct, mem-append, mem-erase, Distinct-erase, Distinct-snoc,
}
use libfibre.Freds.{Freds, prepare_race, race_resume, resume}
use libfibre.BlockingQueue.Defs.{BlockingQueue, block_enter, block_leave, notify, unblock}
use libfibre.BlockingQueue.Order.{live, live_in, first, first-live, without, handed, unblock_lem}

-- A fred has a node in the list exactly while it is inside `blockInternal` on this queue and has
-- not been handed over by `unblock`. Nodes stand on the freds' stacks, so a node that outlives the
-- call would dangle.
pub record IsCoherent (b : BlockingQueue) (w : Freds) : Type 0 where
  pub distinct : Distinct b.queue
  pub nonnull : b.address ≢ 0
  pub member :
      (f : ℕ) → mem f b.queue ≡ ((w.blocked_on f == b.address) && not (w.info f == b.address))

pub block_enter-IsCoherent :
    (f : ℕ) (b : BlockingQueue) (w : Freds)
    → IsCoherent b w
    → w.blocked_on f ≡ 0
    → IsCoherent (block_enter f b w).0 (block_enter f b w).1
unfolding block_enter prepare_race
block_enter-IsCoherent f b w c free = record {
  distinct = Distinct-snoc f b.queue c.distinct (ground (arith, c.member f, c.nonnull));
  nonnull = c.nonnull;
  member = λ g. ground (arith, c.member g, c.nonnull, mem-append g b.queue (f ∷ []));
}

pub block_leave-IsCoherent :
    (f : ℕ) (b : BlockingQueue) (w : Freds)
    → IsCoherent b w
    → w.blocked_on f ≡ b.address
    → let (done, b', w') = block_leave f b w in IsCoherent b' w'
unfolding block_leave
block_leave-IsCoherent f b w c inside = record {
  distinct = ground (arith, Distinct-erase f b.queue c.distinct);
  nonnull = ground (arith, c.nonnull);
  member = λ g. ground (arith, c.member g, c.nonnull, mem-erase f g b.queue c.distinct);
}

pub first-mem :
    (info : ℕ → ℕ) (xs : List ℕ) (f : ℕ) → first (live_in info xs) ≡ some f → mem f xs ≡ true
first-mem info [] f e = cc
first-mem info (x ∷ xs) f e = ground (arith, first-mem info xs f)

taken-IsCoherent :
    (enqueue : Bool) (b : BlockingQueue) (w : Freds) (next : Option ℕ)
    → next ≡ first (live_in w.info b.queue)
    → IsCoherent b w
    → IsCoherent
        (record b { queue = without next b.queue })
        (notify enqueue next (handed b.address next w))
unfolding resume
taken-IsCoherent enqueue b w none e c = c
taken-IsCoherent enqueue b w (some f) e c = record {
  distinct = Distinct-erase f b.queue c.distinct;
  nonnull = c.nonnull;
  member = λ g. ground (
    arith,
    c.member g,
    c.member f,
    c.nonnull,
    mem-erase f g b.queue c.distinct,
    first-live w.info b.queue {f = f},
    first-mem w.info b.queue f,
  );
}

pub unblock-IsCoherent :
    (enqueue : Bool) (b : BlockingQueue) (w : Freds)
    → IsCoherent b w
    → let (next, b', w') = unblock enqueue b w in IsCoherent b' w'
unblock-IsCoherent enqueue b w c =
    rw (unblock_lem enqueue b w) (taken-IsCoherent enqueue b w (first (live b w)) refl c)

-- The timer, or another waker with its own address, decides a race.
pub race_resume-IsCoherent :
    (f ri : ℕ) (b : BlockingQueue) (w : Freds)
    → IsCoherent b w
    → ri ≢ b.address
    → IsCoherent b (race_resume f ri w).1
unfolding race_resume
race_resume-IsCoherent f ri b w c ne = record {
  distinct = c.distinct;
  nonnull = c.nonnull;
  member = λ g. ground (arith, c.member g, c.nonnull);
}

-- A call of `resume` touches neither the list nor the races.
pub notify-IsCoherent :
    (enqueue : Bool) (next : Option ℕ) (b : BlockingQueue) (w : Freds)
    → IsCoherent b w
    → IsCoherent b (notify enqueue next w)
unfolding resume
notify-IsCoherent enqueue none b w c = c
notify-IsCoherent true (some f) b w c = record {
  distinct = c.distinct;
  nonnull = c.nonnull;
  member = c.member;
}
notify-IsCoherent false (some f) b w c = c
