-- ===== src/BlockingQueue/Defs.antt =====
-- The functions of class BlockingQueue.
use libfibre.Base.{
  ℕ, Bool, true, false, Option, none, some, List, [], ◌∷◌, ◌++◌, ◌==◌, ltb, if◌then◌else◌, update,
  erase,
}
use libfibre.Freds.{Freds, prepare_race, race_resume, resume}

-- `address` is `&queue`, the message that a fred gets from `unblock`. A node is known by its fred.
pub record BlockingQueue : Type 0 where
  pub address : ℕ
  pub queue : List ℕ

-- What the overloads of `block` take: a flag, or an absolute timeout, with the time of the call.
pub data Args : Type 0 where
  flag : (wait : Bool) → Args
  deadline : (timeout now : ℕ) → Args

-- The test by which `block` waits or gives up at once.
abbrev pub may_block : Args → Bool
may_block (flag wait) = wait
may_block (deadline timeout now) = ltb now timeout

-- `blockInternal`, up to the suspension.
unfoldable pub block_enter : ℕ → BlockingQueue → Freds → BlockingQueue × Freds
block_enter f b w =
    let raced = prepare_race f w in
    (
      record b { queue = b.queue ++ f ∷ [] },
      record raced { blocked_on = update raced.blocked_on f b.address },
    )

-- `blockInternal`, from the resumption: true if `unblock` won the race, false if the timer did.
unfoldable pub block_leave : ℕ → BlockingQueue → Freds → Bool × BlockingQueue × Freds
block_leave f b w =
    let awake = record w { blocked_on = update w.blocked_on f 0 } in
    if w.info f == b.address
    then (true, b, awake)
    else (false, record b { queue = erase f b.queue }, awake)

-- `block`: true if the fred suspends, false if it returns false at once.
unfoldable pub block : Args → ℕ → BlockingQueue → Freds → Bool × BlockingQueue × Freds
block args f b w =
    let (b', w') = block_enter f b w in if may_block args then (true, b', w') else (false, b, w)

-- The loop of `unblock`, from a node to the edge of the list: the fred found, the nodes left.
unfoldable pub unblock_loop : ℕ → List ℕ → Freds → Option ℕ × List ℕ × Freds
unblock_loop q [] w = (none, [], w)
unblock_loop q (f ∷ fs) w =
    let (next, rest, w') = unblock_loop q fs w in
    let (won, raced) = race_resume f q w in
    if won then (some f, fs, raced) else (next, f ∷ rest, w')

-- `if (Enqueue) f->resume()`, or `if (next) next->resume()` once the lock is released.
abbrev pub notify : Bool → Option ℕ → Freds → Freds
notify enqueue none w = w
notify enqueue (some f) w = if enqueue then resume f w else w

-- `unblock<Enqueue>`
unfoldable pub unblock : Bool → BlockingQueue → Freds → Option ℕ × BlockingQueue × Freds
unblock enqueue b w =
    let (next, rest, w') = unblock_loop b.address b.queue w in
    (next, record b { queue = rest }, notify enqueue next w')
