-- ===== src/Fred.antt =====
-- src/runtime/Fred.h and src/runtime/Fred.cc: parking and resuming one fred. Every function is one atomic
-- access to `runState` with what follows it, as several workers may run them.
pub mod Parking
mod Tests
use libfibre.Base.{
  ℕ, ◌+◌, ◌-◌, ◌%◌, ◌^◌, Bool, true, false, Option, none, some, ◌==◌, if◌then◌else◌,
}

-- Parked is 0, Running 1, ResumedEarly 2; `resume_info` has 0 for null. `enqueued` counts the entries
-- of this fred in ready queues, or its handovers to an idle worker.
pub record Fred : Type 0 where
  pub run_state : ℕ
  pub resume_info : ℕ
  pub enqueued : ℕ

abbrev pub parked : ℕ
parked = 0

abbrev pub running : ℕ
running = 1

abbrev pub resumed_early : ℕ
resumed_early = 2

-- `resumeInternal`, and `enqueueYield` of its processor.
unfoldable pub resume_internal : Fred → Fred
resume_internal f = record f { enqueued = f.enqueued + 1 }

-- `resume`; `none` if its assertion fails.
unfoldable pub resume : Fred → Option Fred
resume f =
    let prev = f.run_state in
    let f' : Fred = record f { run_state = (prev + 1) % 2 ^ 64 } in
    if prev == parked then some (resume_internal f') else if prev == running then some f' else none

-- One round of the loop in `suspend`: true if the fred was resumed already.
unfoldable pub suspend_poll : Fred → Bool × Fred
suspend_poll f =
    if f.run_state == resumed_early then (true, record f { run_state = running }) else (false, f)

-- `postSuspend`, on the next fred's stack; `none` if its assertion fails.
unfoldable pub post_suspend : Fred → Option Fred
post_suspend f =
    let prev = f.run_state in
    let f' : Fred = record f { run_state = (prev + 2 ^ 64 - 1) % 2 ^ 64 } in
    if prev == resumed_early
    then some (resume_internal f')
    else if prev == running
    then some f'
    else none

-- `prepareResumeRace`; `none` if its assertion fails.
unfoldable pub prepare_resume_race : Fred → Option Fred
prepare_resume_race f = if f.run_state == running then some (record f { resume_info = 0 }) else none

-- `raceResume`
unfoldable pub race_resume : ℕ → Fred → Bool × Fred
race_resume ri f = if f.resume_info == 0 then (true, record f { resume_info = ri }) else (false, f)

-- `cancelRunningResumeRace`
unfoldable pub cancel_running_resume_race : Fred → ℕ × Fred
cancel_running_resume_race f = (f.resume_info, record f { resume_info = 1 })
