-- ===== src/Fred/Tests.antt =====
-- A fred that is woken while it switches away, and the theorems there.
use libfibre.Base.{refl, true, false, arith}
use libfibre.Fred.{
  Fred, resume, resume_internal, post_suspend, prepare_resume_race, race_resume, suspend_poll,
}
use libfibre.Fred.Parking.{
  System, prepare, race, wake, switch, park, switching, off, Reach, here, later, Parks, Reach-Parks,
}

abbrev fresh : Fred
fresh = record { run_state = 1; resume_info = 0; enqueued = 0 }

-- Waker 7 has won the race, the fred is about to leave its worker, and `resume` is to come.
abbrev raced : System
raced = record {
  fred = record { run_state = 1; resume_info = 7; enqueued = 0 };
  pc = switching;
  winner = 7;
  round = true;
}

raced-Reach : Reach raced
unfolding prepare_resume_race race_resume suspend_poll
raced-Reach =
    later (later (later here (prepare refl refl)) (race 7 (omega arith) refl refl))
      (switch refl refl)

abbrev early : System
early = record {
  fred = record { run_state = 2; resume_info = 7; enqueued = 0 };
  pc = switching;
  winner = 0;
  round = false;
}

early-Reach : Reach early
unfolding resume
early-Reach = later raced-Reach (wake (omega arith) refl)

abbrev queued : System
queued = record {
  fred = record { run_state = 1; resume_info = 7; enqueued = 1 };
  pc = off;
  winner = 0;
  round = false;
}

queued-Reach : Reach queued
unfolding post_suspend resume_internal
queued-Reach = later early-Reach (park refl refl)

Reach-Parks_example : Parks off false queued.fred
Reach-Parks_example = Reach-Parks queued-Reach
