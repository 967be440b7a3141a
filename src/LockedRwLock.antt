-- ===== src/LockedRwLock.antt =====
-- class LockedRWLock of src/runtime/BlockingSync.h. Each function is one critical section of the internal
-- lock; the two acquire functions are cut where the fred suspends, and `internalAR` also where a
-- resumed reader takes the lock again to wake the next one.
pub mod System
pub mod Exclusion
mod Tests
use libfibre.Base.{ℕ, Bool, true, false, ◌&&◌, Option, none, some, List, [], ◌∷◌, if◌then◌else◌}
use libfibre.Base.Int.{ℤ, pos, inc, dec, ltb_ℤ, leb_ℤ, eqb_ℤ}
use libfibre.Freds.{Freds}
use libfibre.BlockingQueue.{BlockingQueue, Args, block, block_leave, notify, unblock}

-- `state` is -1 with a writer, 0 if open, and the number of readers otherwise.
pub record RwLock : Type 0 where
  pub state : ℤ
  pub bq_r : BlockingQueue
  pub bq_w : BlockingQueue

abbrev pub is_empty : List ℕ → Bool
is_empty [] = true
is_empty (_ ∷ _) = false

-- A result, a suspension, or, for a resumed reader, the second critical section.
pub data Attempt : Type 0 where
  returns : Bool → Attempt
  suspends : Attempt
  chains : Attempt

-- `internalAR`, up to the suspension.
unfoldable pub acquire_read : Args → ℕ → RwLock → Freds → Attempt × RwLock × Freds
acquire_read args f l w =
    if leb_ℤ (pos 0) l.state && is_empty l.bq_w.queue
    then (returns true, record l { state = inc l.state }, w)
    else (let (parked, bq, w') = block args f l.bq_r w in
        (if parked then suspends else returns false, record l { bq_r = bq }, w'))

-- `internalAR`, from the resumption.
unfoldable pub read_leave : ℕ → RwLock → Freds → Attempt × RwLock × Freds
read_leave f l w =
    let (done, bq, w') = block_leave f l.bq_r w in
    (if done then chains else returns false, record l { bq_r = bq }, w')

-- `if (next) state += 1`
abbrev pub admit : Option ℕ → ℤ → ℤ
admit none state = state
admit (some _) state = inc state

-- `if (next) state -= 1`
abbrev pub admit_writer : Option ℕ → ℤ → ℤ
admit_writer none state = state
admit_writer (some _) state = dec state

-- `internalAR`, the second critical section: the next waiting reader may pass too.
unfoldable pub read_chain : RwLock → Freds → Option ℕ × RwLock × Freds
read_chain l w =
    let (next, bq, w') = unblock false l.bq_r w in
    (next, record l { state = admit next l.state; bq_r = bq }, notify true next w')

-- `internalAW`, up to the suspension.
unfoldable pub acquire_write : Args → ℕ → RwLock → Freds → Attempt × RwLock × Freds
acquire_write args f l w =
    if eqb_ℤ l.state (pos 0)
    then (returns true, record l { state = dec l.state }, w)
    else (let (parked, bq, w') = block args f l.bq_w w in
        (if parked then suspends else returns false, record l { bq_w = bq }, w'))

-- `internalAW`, from the resumption.
unfoldable pub write_leave : ℕ → RwLock → Freds → Attempt × RwLock × Freds
write_leave f l w =
    let (done, bq, w') = block_leave f l.bq_w w in (returns done, record l { bq_w = bq }, w')

-- The two attempts of `release`: to wake a reader, to wake a writer.
unfoldable pub wake_reader : RwLock → Freds → Option ℕ × RwLock × Freds
wake_reader l w =
    let (next, bq, w') = unblock false l.bq_r w in
    (next, record l { state = admit next l.state; bq_r = bq }, w')

unfoldable pub wake_writer : RwLock → Freds → Option ℕ × RwLock × Freds
wake_writer l w =
    let (next, bq, w') = unblock false l.bq_w w in
    (next, record l { state = admit_writer next l.state; bq_w = bq }, w')

-- `else` of the first attempt: the second one is made only if the first finds no fred.
abbrev pub or_else :
    Option ℕ × RwLock × Freds
    → (RwLock → Freds → Option ℕ × RwLock × Freds)
    → Option ℕ × RwLock × Freds
or_else (some f, l, w) second = (some f, l, w)
or_else (none, l, w) second = second l w

-- `release`, before `lock.release()`: the fred to resume, if any. The assertions on `state` are left out, so that
-- it is defined in more states; only holders call it.
unfoldable pub hand_over : RwLock → Freds → Option ℕ × RwLock × Freds
hand_over l w =
    if ltb_ℤ (pos 0) l.state
    then (let left : RwLock = record l { state = dec l.state } in
        if ltb_ℤ (pos 0) left.state
        then (none, left, w)
        else or_else (wake_writer left w) wake_reader)
    else (let left : RwLock = record l { state = inc l.state } in
        or_else (wake_reader left w) wake_writer)

unfoldable pub release : RwLock → Freds → Option ℕ × RwLock × Freds
unfolding hand_over wake_reader wake_writer
release l w = let (next, l', w') = hand_over l w in (next, l', notify true next w')
