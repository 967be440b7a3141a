-- ===== src/TimerQueue.antt =====
-- class TimerQueue of src/runtime/BlockingSync.h. Each function is one critical section of `lock`;
-- `blockTimeout` is cut where the fred suspends.
pub mod Order
pub mod Expiry
pub mod System
pub mod Nodes
pub mod Watch
mod Tests
use libfibre.Base.{
  ℕ, ◌≡◌, Bool, true, false, Option, none, some, List, [], ◌∷◌, ◌==◌, if◌then◌else◌, update,
}
use libfibre.Time.{Time, lt}
use libfibre.Freds.{Freds, race_resume, resume}

-- An element of the multimap: its key, and the node, which is known by its fred.
pub record Entry : Type 0 where
  pub time : Time
  pub fred : ℕ

-- `address` is `&queue`, the message that a fred gets from the timer, `expired` the flag of each
-- node, and `armed` the time of the last call of `newTimeout` that has not gone off.
pub record Timers : Type 0 where
  pub address : ℕ
  pub queue : List Entry
  pub expired : ℕ → Bool
  pub armed : Option Time

-- `queue.insert`: behind the elements of an equal key.
unfoldable pub insert : Entry → List Entry → List Entry
insert n [] = n ∷ []
insert n (e ∷ es) = if lt n.time e.time then n ∷ e ∷ es else e ∷ insert n es

-- `iter == queue.begin()`, for the iterator that `queue.insert` returns.
unfoldable pub is_first : Entry → List Entry → Bool
is_first n [] = true
is_first n (e ∷ es) = lt n.time e.time

abbrev pub keep : Entry → Option (List Entry) → Option (List Entry)
keep e none = none
keep e (some es) = some (e ∷ es)

-- `queue.erase`, of the element that a node's iterator stands at; `none` if it is not in the queue any more, for
-- which the iterator is invalid.
unfoldable pub take_out : ℕ → List Entry → Option (List Entry)
take_out f [] = none
take_out f (e ∷ es) = let rest = keep e (take_out f es) in if f == e.fred then some es else rest

abbrev pub arm : Bool → Time → Option Time → Option Time
arm first time armed = if first then some time else armed

-- `enqueue`, of a node whose flag is clear.
unfoldable pub enqueue : Entry → Timers → Timers
enqueue n t = record t {
  queue = insert n t.queue;
  expired = update t.expired n.fred false;
  armed = arm (is_first n t.queue) n.time t.armed;
}

abbrev pub with_queue : Timers → Option (List Entry) → Option Timers
with_queue t none = none
with_queue t (some es) = some (record t { queue = es })

-- `erase`
unfoldable pub erase : ℕ → Timers → Option Timers
erase f t = if t.expired f then some t else with_queue t (take_out f t.queue)

-- The body of the loop in `checkExpiry`, for an element whose time has come.
unfoldable pub expire : Entry → Timers → Freds → Timers × Freds
expire e t w =
    let (won, raced) = race_resume e.fred t.address w in
    if won
    then (t, resume e.fred raced)
    else (record t { expired = update t.expired e.fred true }, raced)

-- The loop in `checkExpiry`, from an element to the end.
unfoldable pub check_loop : Time → List Entry → Timers → Freds → Timers × Freds
check_loop now [] t w = (record t { queue = [] }, w)
check_loop now (e ∷ es) t w =
    let r = expire e t w in
    let rest = check_loop now es r.0 r.1 in
    if lt now e.time then (record t { queue = e ∷ es; armed = some e.time }, w) else rest

-- `checkExpiry`
unfoldable pub check_expiry : Time → Timers → Freds → Timers × Freds
check_expiry now t w = check_loop now t.queue t w

abbrev pub returned : ℕ → Option Timers → Option (ℕ × Timers)
returned winner none = none
returned winner (some t) = some (winner, t)

-- `blockTimeout`, from the resumption: the winner, 0 if the timer expired.
unfoldable pub block_leave : ℕ → Timers → Freds → Option (ℕ × Timers)
block_leave f t w = if w.info f == t.address then some (0, t) else returned (w.info f) (erase f t)

-- `didExpireAfterLosingRace`
unfoldable pub did_expire : ℕ → Timers → Bool
did_expire f t = t.expired f
