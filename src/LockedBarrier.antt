-- ===== src/LockedBarrier.antt =====
-- classes LockedBarrier and Condition of src/runtime/BlockingSync.h. Each function is one critical section of the
-- lock; `wait` ends where the fred suspends, as nothing follows its resumption but the return.
pub mod Rounds
mod Tests
use libfibre.Base.{
  ℕ, zero, suc, ◌+◌, ◌%◌, ◌^◌, Bool, true, false, ◌&&◌, Option, none, some, ◌==◌, if◌then◌else◌,
}
use libfibre.Freds.{Freds}
use libfibre.BlockingQueue.{BlockingQueue, block_enter, unblock}

pub record Barrier : Type 0 where
  pub target : ℕ
  pub counter : ℕ
  pub bq : BlockingQueue

-- The loop of `wait` that counts down, with a call of `unblock` each time.
unfoldable pub open_loop : (counter : ℕ) → BlockingQueue → Freds → BlockingQueue × Freds
unfolding unblock
open_loop zero bq w = (bq, w)
open_loop (suc counter) bq w = let (next, bq', w') = unblock true bq w in open_loop counter bq' w'

-- `wait`: true if the fred is the last one and returns, false if it suspends and returns false later.
unfoldable pub wait : ℕ → Barrier → Freds → Bool × Barrier × Freds
unfolding open_loop block_enter
wait f b w =
    let counter : ℕ = (b.counter + 1) % 2 ^ 64 in
    let (bq, w') = open_loop counter b.bq w in
    let (bq'', w'') = block_enter f b.bq w in
    if counter == b.target
    then (true, record b { counter = 0; bq = bq }, w')
    else (false, record b { counter = counter; bq = bq'' }, w'')

abbrev pub is_some : Option ℕ → Bool
is_some none = false
is_some (some _) = true

-- Condition::signal, whose loop takes a node off the queue in each round but the last: with one round more than the
-- queue has nodes as its fuel it comes to its end.
unfoldable pub signal_loop :
    (fuel : ℕ) → (broadcast : Bool) → BlockingQueue → Freds → BlockingQueue × Freds
unfolding unblock
signal_loop zero broadcast bq w = (bq, w)
signal_loop (suc fuel) broadcast bq w =
    let (next, bq', w') = unblock true bq w in
    let rest = signal_loop fuel broadcast bq' w' in
    if is_some next && broadcast then rest else (bq', w')
