-- ===== src/Fred/Parking.antt =====
-- One fred against wakers that race for it: it is never lost, never queued twice and never run by
-- two workers.
use libfibre.Base.{ℕ, ◌-◌, ◌<◌, ◌≡◌, refl, ◌≢◌, Bool, true, false, none, some, arith}
use libfibre.Fred.{
  Fred, parked, running, resumed_early, resume, resume_internal, suspend_poll, post_suspend,
  prepare_resume_race, race_resume,
}

-- `polling`: inside `suspend`. `switching`: the next fred was chosen, `postSuspend` is to run.
-- `off`: no worker executes the fred.
pub data Pc : Type 0 where
  active polling switching off : Pc

-- `winner` is the address with which a waker has won the race of this round, until it has called
-- `resume`: 0 if there is none.
pub record System : Type 0 where
  pub fred : Fred
  pub pc : Pc
  pub winner : ℕ
  pub round : Bool

abbrev pub init : System
init = record {
  fred = record { run_state = running; resume_info = 0; enqueued = 0 };
  pc = active;
  winner = 0;
  round = false;
}

-- `round` holds from `prepareResumeRace` until a waker has won the race and called `resume`.
pub data Step (s : System) : System → Type 0 where
  prepare :
      {f : Fred}
      → s.pc ≡ active
      → prepare_resume_race s.fred ≡ some f
      → Step s (record { fred = f; pc = polling; winner = 0; round = true })
  race :
      (ri : ℕ)
      → ri ≢ 0
      → s.round ≡ true
      → (race_resume ri s.fred).0 ≡ true
      → Step s (record s { fred = (race_resume ri s.fred).1; winner = ri })
  wake :
      {f : Fred}
      → s.winner ≢ 0
      → resume s.fred ≡ some f
      → Step s (record s { fred = f; winner = 0; round = false })
  skip :
      s.pc ≡ polling
      → (suspend_poll s.fred).0 ≡ true
      → Step s (record s { fred = (suspend_poll s.fred).1; pc = active })
  switch : s.pc ≡ polling → (suspend_poll s.fred).0 ≡ false → Step s (record s { pc = switching })
  park :
      {f : Fred}
      → s.pc ≡ switching
      → post_suspend s.fred ≡ some f
      → Step s (record s { fred = f; pc = off })
  yield : s.pc ≡ active → Step s (record s { fred = resume_internal s.fred; pc = off })
  dispatch :
      0 < s.fred.enqueued
      → Step s (record s { fred = record s.fred { enqueued = s.fred.enqueued - 1 }; pc = active })

pub data Reach : System → Type 0 where
  here : Reach init
  later : {s t : System} → Reach s → Step s t → Reach t

-- What `runState` and the ready queues hold, by where the fred is and whether its round is open.
abbrev pub Parks : Pc → Bool → Fred → Type 0
Parks active b f = (b ≡ false) × (f.run_state ≡ running) × (f.enqueued ≡ 0)
Parks off true f = (f.run_state ≡ parked) × (f.enqueued ≡ 0)
Parks off false f = (f.run_state ≡ running) × (f.enqueued ≡ 1)
Parks _ true f = (f.run_state ≡ running) × (f.enqueued ≡ 0)
Parks _ false f = (f.run_state ≡ resumed_early) × (f.enqueued ≡ 0)

pub record Inv (s : System) : Type 0 where
  pub parks : Parks s.pc s.round s.fred
  pub open_round : s.winner ≢ 0 → s.round ≡ true
  pub decided : s.round ≡ true → s.winner ≡ s.fred.resume_info

Step-Inv : {s t : System} → Step s t → Inv s → Inv t
unfolding prepare_resume_race race_resume resume resume_internal suspend_poll post_suspend
Step-Inv (prepare e p) i = ground (arith, i.parks, i.open_round, i.decided)
Step-Inv (race ri nz r w) i = ground (arith, i.parks, i.open_round, i.decided)
Step-Inv (wake nz e) i = ground (arith, i.parks, i.open_round, i.decided)
Step-Inv (skip e p) i = ground (arith, i.parks, i.open_round, i.decided)
Step-Inv (switch e p) i = ground (arith, i.parks, i.open_round, i.decided)
Step-Inv (park e p) i = ground (arith, i.parks, i.open_round, i.decided)
Step-Inv (yield e) i = ground (arith, i.parks, i.open_round, i.decided)
Step-Inv (dispatch p) i = ground (arith, i.parks, i.open_round, i.decided)

Reach-Inv : {s : System} → Reach s → Inv s
Reach-Inv here = record {
  parks = (refl, refl, refl);
  open_round = λ h. absurd (h refl);
  decided = λ e. cc;
}
Reach-Inv (later r st) = Step-Inv st (Reach-Inv r)

-- In every reachable state `runState` and the ready queues are what the position of the fred and
-- the state of its round ask for: a fred off the workers is parked while its round is open, and
-- stands in exactly one ready queue once it is closed; a fred on a worker stands in none.
pub Reach-Parks : {s : System} → Reach s → Parks s.pc s.round s.fred
Reach-Parks r = (Reach-Inv r).parks

-- In every reachable state in which a waker has won the race and has yet to call `resume`, the assertion
-- of `resume` holds.
pub resume_allowed : {s : System} → Reach s → s.winner ≢ 0 → resume s.fred ≢ none
unfolding resume
resume_allowed r nz = let i = Reach-Inv r in ground (arith, i.parks, i.open_round)

-- In every reachable state in which the fred is about to switch away, the assertion of `postSuspend`
-- holds.
pub park_allowed : {s : System} → Reach s → s.pc ≡ switching → post_suspend s.fred ≢ none
unfolding post_suspend
park_allowed r e = let i = Reach-Inv r in ground (arith, i.parks)
