-- ===== src/FastBarrier/Tests.antt =====
-- A group of two freds, one of them the notifier, and the theorems there.
use libfibre.Base.{
  ◌+◌, ◌≤◌, ◌<◌, ◌≡◌, refl, Bool, true, some, [], ◌∷◌, ◌++◌, ◌==◌, if◌then◌else◌, length, mem,
  update, arith,
}
use libfibre.Freds.{Freds, race_resume, resume}
use libfibre.FastBarrier.{enter, count, discount, notify_one, notify_loop}
use libfibre.FastBarrier.Groups.{result_of, final_is, notify_loop-special}
use libfibre.FastBarrier.Rounds.{
  System, push, arrive, complete, subtract, Reach, here, later, Reach-rounds,
}

abbrev open_races : Freds
open_races = record { info = λ _. 0; blocked_on = λ _. 0; resumed = [] }

-- The notifier 9 lets two others go, and the later one gets the special result.
let_go :
    notify_loop 2 9 true (7 ∷ 8 ∷ 9 ∷ []) open_races
    ≡ some (9 ∷ [], true, record open_races { info = update (λ _. 0) 8 9; resumed = 7 ∷ 8 ∷ [] })
unfolding notify_loop notify_one race_resume resume
let_go = refl

notify_loop-special_example :
    (park : Bool) × (w : Freds) × (notify_loop 2 9 true (7 ∷ 8 ∷ 9 ∷ []) open_races
      ≡ some (9 ∷ [], park, w))
    × (w.resumed ≡ 7 ∷ 8 ∷ [])
    × (result_of 9 park w 8 ≡ (if mem 9 (7 ∷ 8 ∷ []) then 8 == 9 else final_is 8 (7 ∷ 8 ∷ [])))
notify_loop-special_example =
    notify_loop-special 9 7 8 (8 ∷ []) (9 ∷ []) open_races (omega arith) (refl, (refl, tt)) refl
      refl

-- Two freds have come to a barrier for two, and the second is about to pop.
abbrev arrived : System
arrived = record {
  barrier = record { target = 2; counter = 0; queue = ([] ++ 7 ∷ []) ++ 8 ∷ [] };
  between = 0;
  due = 0;
  owed = 2;
}

arrived-Reach : Reach 2 arrived
unfolding enter count discount
arrived-Reach =
    later
      (later
        (later
          (later (later here (push 7 open_races (omega arith))) (push 8 open_races (omega arith)))
          (arrive 1 (record { target = 2; counter = 1; queue = ([] ++ 7 ∷ []) ++ 8 ∷ [] }) refl
            refl))
        (complete 0 (record { target = 2; counter = 2; queue = ([] ++ 7 ∷ []) ++ 8 ∷ [] }) refl
          refl))
      (subtract 0 refl)

Reach-rounds_example :
    (length arrived.barrier.queue ≡ arrived.between + arrived.barrier.counter + arrived.owed)
    × (arrived.due ≤ arrived.barrier.counter)
    × (arrived.barrier.counter < arrived.due + 2)
Reach-rounds_example = Reach-rounds 2 (omega arith) arrived-Reach
