-- ===== src/Freds.antt =====
-- src/runtime/Fred.h and the Suspender of src/runtime/BlockingSync.h, as the blocking primitives see them:
-- the resumption race of each fred, what it is blocked on, and the freds that were resumed.
use libfibre.Base.{ℕ, Bool, true, false, List, [], ◌∷◌, ◌++◌, ◌==◌, if◌then◌else◌, update}

-- `info` is `resumeInfo`, with 0 for the null pointer. `blocked_on` is the control state of a fred
-- that is inside `blockInternal`: the queue it waits on, 0 if none. `resumed` lists the calls of
-- `resume`, in order.
pub record Freds : Type 0 where
  pub info : ℕ → ℕ
  pub blocked_on : ℕ → ℕ
  pub resumed : List ℕ

-- `prepareResumeRace`
unfoldable pub prepare_race : ℕ → Freds → Freds
prepare_race f w = record w { info = update w.info f 0 }

-- `raceResume`: a compare-exchange of `resumeInfo` from null to the caller's address.
unfoldable pub race_resume : ℕ → ℕ → Freds → Bool × Freds
race_resume f ri w =
    if w.info f == 0 then (true, record w { info = update w.info f ri }) else (false, w)

-- `cancelRunningResumeRace`: the previous message, and 0x1 in its place.
unfoldable pub cancel_running_race : ℕ → Freds → ℕ × Freds
cancel_running_race f w = (w.info f, record w { info = update w.info f 1 })

unfoldable pub resume : ℕ → Freds → Freds
resume f w = record w { resumed = w.resumed ++ f ∷ [] }
