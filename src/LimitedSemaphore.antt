-- ===== src/LimitedSemaphore.antt =====
-- class LimitedSemaphore0 of src/runtime/BlockingSync.h: a semaphore without a counter. Its lock-free
-- queue is read as a sequence; a push and a pop are one atomic step each.
mod Tests
use libfibre.Base.{ℕ, Bool, true, false, Option, none, some, List, [], ◌∷◌, ◌++◌, if◌then◌else◌}
use libfibre.Freds.{Freds, resume}
use libfibre.BlockingQueue.{notify}

-- `P`, up to the suspension.
unfoldable pub p : ℕ → List ℕ → List ℕ
p f queue = queue ++ f ∷ []

-- `queue.pop`
unfoldable pub pop : List ℕ → Option ℕ × List ℕ
pop [] = (none, [])
pop (f ∷ fs) = (some f, fs)

-- `tryV<Enqueue>`, and one round of the loop in `V<Enqueue>`, which goes on until it finds a fred.
unfoldable pub try_v : (enqueue : Bool) → List ℕ → Freds → Option ℕ × List ℕ × Freds
unfolding pop
try_v enqueue queue w = let (next, rest) = pop queue in (next, rest, notify enqueue next w)
