-- ===== src/TimerQueue/Tests.antt =====
-- Three freds with timeouts of one, two and three seconds, and the theorems there.
use libfibre.Base.{ℕ, ◌≡◌, refl, true, false, ◌||◌, none, some, [], ◌∷◌, ltb, arith, update}
use libfibre.Base.Int.{pos}
use libfibre.Time.{Time, lt}
use libfibre.Freds.{Freds, race_resume, resume, prepare_race}
use libfibre.TimerQueue.{
  Entry, Timers, enqueue, insert, is_first, check_loop, expire, check_expiry, block_leave,
  did_expire,
}
use libfibre.TimerQueue.Order.{others}
use libfibre.TimerQueue.Expiry.{upcoming, overdue, check_expiry-splits}
use libfibre.TimerQueue.System.{System, other, block, race, Reach, here, later}
use libfibre.TimerQueue.Nodes.{block_leave-handle}
use libfibre.TimerQueue.Watch.{is_timely, Reach-IsWatched}

abbrev at : ℕ → Time
at n = record { sec = pos n; nsec = pos 0 }

abbrev entry : ℕ → ℕ → Entry
entry n f = record { time = at n; fred = f }

abbrev three : Timers
three = record {
  address = 9;
  queue = entry 1 11 ∷ entry 2 12 ∷ entry 3 13 ∷ [];
  expired = λ _. false;
  armed = none;
}

-- Another party has won the race for fred 11.
abbrev races : Freds
races = record { info = update (λ _. 0) 11 5; blocked_on = λ _. 0; resumed = [] }

insertions :
    insert (entry 2 4) (three.queue) ≡ entry 1 11 ∷ entry 2 12 ∷ entry 2 4 ∷ entry 3 13 ∷ []
unfolding insert lt
insertions = refl

checked :
    ((check_expiry (at 2) three races).1.resumed ≡ 12 ∷ [])
    × (did_expire 11 (check_expiry (at 2) three races).0 ≡ true)
    × (did_expire 12 (check_expiry (at 2) three races).0 ≡ false)
    × ((check_expiry (at 2) three races).0.armed ≡ some (at 3))
unfolding check_expiry check_loop expire race_resume resume lt did_expire
checked = (refl, refl, refl, refl)

check_expiry-splits_example :
    ((check_expiry (at 2) three races).0.queue ≡ upcoming (at 2) three.queue)
    × ((check_expiry (at 2) three races).1.resumed ≡ overdue (at 2) races.info three.queue)
unfolding lt
check_expiry-splits_example =
    check_expiry-splits (at 2) three races ((refl, (refl, tt)), ((refl, tt), (tt, tt)))
      (refl, (refl, (refl, tt)))

abbrev blocked : System
blocked = record {
  timers = record {
    address = 9;
    queue = entry 2 12 ∷ [];
    expired = update (λ _. false) 12 false;
    armed = some (at 2);
  };
  freds = record {
    info = update (update (λ _. 0) 12 0) 12 5;
    blocked_on = λ _. 0;
    resumed = 12 ∷ [];
  };
  waiting = update (λ _. false) 12 true;
  pending = 0;
}

-- Fred 12 blocks, and another party resumes it.
blocked-Reach : Reach 9 blocked
unfolding enqueue insert is_first prepare_race other race_resume resume
blocked-Reach = later (later here (block 12 (at 2) refl)) (race 12 5 (omega arith) (omega arith))

block_leave-handle_example :
    block_leave 12 blocked.timers blocked.freds
    ≡ some (5, record (blocked.timers) { queue = others 12 blocked.timers.queue })
block_leave-handle_example = block_leave-handle 9 12 (omega arith) blocked-Reach refl (omega arith)

Reach-IsWatched_example :
    (ltb 0 blocked.pending || is_timely blocked.timers.armed blocked.timers.queue) ≡ true
Reach-IsWatched_example = Reach-IsWatched 9 refl blocked-Reach
