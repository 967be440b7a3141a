-- ===== src/Scheduler/Tests.antt =====
-- A scheduler with three processors, and the theorems there.
use libfibre.Base.{◌≡◌, some, [], ◌∷◌, arith, ◌==◌, if◌then◌else◌}
use libfibre.Scheduler.{Scheduler}
use libfibre.Scheduler.Placement.{HasProcs, placements, placement_goes_round}

abbrev three : Scheduler
three = record {
  ring_count = 3;
  place_proc = 16;
  links = record {
    next = λ a. if a == 16 then 32 else if a == 32 then 48 else if a == 48 then 16 else 0;
    prev = λ a. if a == 16 then 48 else if a == 32 then 16 else if a == 48 then 32 else 0;
  };
}

three-HasProcs : HasProcs three (16 ∷ 32 ∷ 48 ∷ [])
three-HasProcs = ground arith

placement_goes_round_example : placements 3 three ≡ some (32 ∷ 48 ∷ 16 ∷ [], three)
placement_goes_round_example = placement_goes_round three 16 (32 ∷ 48 ∷ []) three-HasProcs
