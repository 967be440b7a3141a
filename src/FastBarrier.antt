-- ===== src/FastBarrier.antt =====
-- class FastBarrier of src/runtime/BlockingSync.h. Its lock-free queue is read as a sequence; a push, a
-- pop and each access to the counter is one atomic step.
pub mod Groups
pub mod Rounds
mod Tests
use libfibre.Base.{
  ℕ, zero, suc, ◌+◌, ◌-◌, ◌%◌, ◌^◌, ◌≡◌, Bool, true, false, not, ◌&&◌, Option, none, some, List, [],
  ◌∷◌, ◌++◌, ◌==◌, if◌then◌else◌,
}
use libfibre.Freds.{Freds, prepare_race, race_resume, resume}

-- The counter is a `size_t`.
pub record Barrier : Type 0 where
  pub target : ℕ
  pub counter : ℕ
  pub queue : List ℕ

-- `wait`, up to the push.
unfoldable pub enter : ℕ → Barrier → Freds → Barrier × Freds
enter f b w = (record b { queue = b.queue ++ f ∷ [] }, prepare_race f w)

-- The addition to the counter: true if the fred parks.
unfoldable pub count : Barrier → Bool × Barrier
count b =
    let n : ℕ = (b.counter + 1) % 2 ^ 64 in (not (n % b.target == 0), record b { counter = n })

-- The subtraction by the fred that does not park.
unfoldable pub discount : Barrier → Barrier
discount b = record b { counter = (b.counter + 2 ^ 64 - b.target) % 2 ^ 64 }

-- The body of the notifier's loop, for the fred that it popped; `final` in the last round.
unfoldable pub notify_one : (cf : ℕ) → (final : Bool) → (next : ℕ) → Bool → Freds → Bool × Freds
notify_one cf final next park w =
    if next == cf
    then (false, w)
    else (park, resume next (if final && park then (race_resume next cf w).1 else w))

-- The notifier's loop, with the rounds that are left; `none` if it finds the queue empty, and waits.
unfoldable pub notify_loop :
    ℕ → (cf : ℕ) → (park : Bool) → List ℕ → Freds → Option (List ℕ × Bool × Freds)
notify_loop zero cf park queue w = some (queue, park, w)
notify_loop (suc n) cf park [] w = none
notify_loop (suc n) cf park (f ∷ fs) w =
    let r = notify_one cf (n == 0) f park w in notify_loop n cf r.0 fs r.1

-- The result of `wait`: what a parked fred finds in `resumeInfo`, or the notifier's own address.
unfoldable pub wait_leave : (cf : ℕ) → (park : Bool) → Freds → Bool
wait_leave cf park w = if park then not (w.info cf == 0) else not (cf == 0)
