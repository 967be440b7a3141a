-- ===== src/TimerQueue/System.antt =====
-- Freds that block with a timeout, other parties that race with the timer, and the timer that goes off.
use libfibre.Base.{ℕ, suc, ◌≡◌, ◌≢◌, Bool, true, false, none, some, [], if◌then◌else◌, update}
use libfibre.Time.{Time}
use libfibre.Freds.{Freds, prepare_race, race_resume, resume}
use libfibre.TimerQueue.{Timers, enqueue, check_expiry, block_leave}

-- `waiting`: the freds inside `blockTimeout`. `pending` counts the times that the timer went off and
-- `checkExpiry` has not run since.
pub record System : Type 0 where
  pub timers : Timers
  pub freds : Freds
  pub waiting : ℕ → Bool
  pub pending : ℕ

abbrev pub init : ℕ → System
init q = record {
  timers = record { address = q; queue = []; expired = λ _. false; armed = none };
  freds = record { info = λ _. 0; blocked_on = λ _. 0; resumed = [] };
  waiting = λ _. false;
  pending = 0;
}

-- `raceResume` by a party with the message m, and `resume` if it wins.
unfoldable pub other : ℕ → ℕ → Freds → Freds
other f m w = let (won, raced) = race_resume f m w in if won then resume f raced else raced

pub data Step (s : System) : System → Type 0 where
  block :
      (f : ℕ) (t : Time)
      → s.waiting f ≡ false
      → Step s (record s {
        timers = enqueue (record { time = t; fred = f }) s.timers;
        freds = prepare_race f s.freds;
        waiting = update s.waiting f true;
      })
  race : (f m : ℕ) → m ≢ 0 → m ≢ s.timers.address → Step s (record s { freds = other f m s.freds })
  fire :
      (t : Time)
      → s.timers.armed ≡ some t
      → Step s (record s { timers = record (s.timers) { armed = none }; pending = suc s.pending })
  check :
      (now : Time) (n : ℕ)
      → s.pending ≡ suc n
      → Step s (record s {
        timers = (check_expiry now s.timers s.freds).0;
        freds = (check_expiry now s.timers s.freds).1;
        pending = n;
      })
  leave :
      (f winner : ℕ) (t : Timers)
      → s.waiting f ≡ true
      → s.freds.info f ≢ 0
      → block_leave f s.timers s.freds ≡ some (winner, t)
      → Step s (record s { timers = t; waiting = update s.waiting f false })

pub data Reach (q : ℕ) : System → Type 0 where
  here : Reach q (init q)
  later : {s t : System} → Reach q s → Step s t → Reach q t
