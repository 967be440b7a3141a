-- ===== src/SynchronizedFlag.antt =====
-- classes SynchronizedFlag, Joinable and SyncPoint of src/runtime/BlockingSync.h. Each function is one
-- critical section of the external lock; `wait` is cut where the fred suspends.
pub mod Joining
mod Tests
use libfibre.Base.{
  ℕ, ◌≤◌, ◌<◌, ◌≡◌, Bool, true, false, Option, none, some, ◌||◌, ◌==◌, if◌then◌else◌,
}

-- The union of `waiter` and `state`, one word: Running is 0, Posted 2, Detached 4, and any other value
-- is the address of the fred that waits.
abbrev pub running : ℕ
running = 0

abbrev pub posted : ℕ
posted = 2

abbrev pub detached : ℕ
detached = 4

-- `Joinable`: the flag, and the result once it is posted. The runner that shares the result's place is
-- left out.
pub record Joinable : Type 0 where
  pub flag : ℕ
  pub result : Option ℕ

-- What `wait` does: suspend, or return whether the flag was posted, and the result; 0 without one.
pub data Wait : Type 0 where
  suspends : Wait
  returns : Bool → Option ℕ → Wait
  aborts : Wait

-- SynchronizedFlag::wait from the resumption on, or if the flag is not Running; `none` if it aborts.
abbrev pub flag_leave : (flag : ℕ) → Option Bool
flag_leave flag =
    if flag == posted then some true else if flag == detached then some false else none

-- Joinable::wait: the result comes with a flag that is posted.
abbrev pub joined : Option Bool → Option ℕ → Wait
joined none result = aborts
joined (some retcode) result = returns retcode (if retcode then result else some 0)

unfoldable pub wait_leave : Joinable → Wait
wait_leave j = joined (flag_leave j.flag) j.result

-- `wait`, up to the suspension.
unfoldable pub wait : (f : ℕ) → Joinable → Wait × Joinable
wait f j = if j.flag == running then (suspends, record j { flag = f }) else (wait_leave j, j)

-- SynchronizedFlag::post: its result, the fred that it resumes, and the flag. `none` if its assertion fails.
abbrev pub flag_post : (flag : ℕ) → Option ((Bool × Option ℕ) × ℕ)
flag_post flag =
    if flag == posted
    then none
    else if flag == detached
    then some ((false, none), flag)
    else some ((true, if flag == running then none else some flag), posted)

-- Joinable::post, from the result of the flag's.
abbrev pub with_result :
    (r : ℕ) → Joinable → Option ((Bool × Option ℕ) × ℕ) → Option ((Bool × Option ℕ) × Joinable)
with_result r j none = none
with_result r j (some ((retcode, next), flag)) =
    some ((retcode, next), record { flag = flag; result = if retcode then some r else j.result })

unfoldable pub post : (r : ℕ) → Joinable → Option ((Bool × Option ℕ) × Joinable)
post r j = with_result r j (flag_post j.flag)

-- `detach`: the fred that it resumes. `none` if its assertion fails.
unfoldable pub detach : Joinable → Option (Option ℕ × Joinable)
detach j =
    if (j.flag == posted) || (j.flag == detached)
    then none
    else some (if j.flag == running then none else some j.flag, record j { flag = detached })

-- How far the fred that waits has come, and whether a resumption of it is on its way.
pub data Joiner : Type 0 where
  before : Joiner
  asleep : Joiner
  woken : Joiner
  done : Bool → Option ℕ → Joiner

-- `value` only observes: the result that the first successful post gave.
pub record System : Type 0 where
  pub joinable : Joinable
  pub joiner : Joiner
  pub value : Option ℕ

abbrev pub init : System
init = record { joinable = record { flag = running; result = none }; joiner = before; value = none }

abbrev pub wake : Option ℕ → Joiner → Joiner
wake none p = p
wake (some f) p = woken

-- One fred `f` waits, once; post and detach may come from anywhere, as long as their assertions hold.
pub data Step (f : ℕ) (s : System) : System → Type 0 where
  wait_suspends :
      (j : Joinable)
      → s.joiner ≡ before
      → wait f s.joinable ≡ (suspends, j)
      → Step f s (record s { joinable = j; joiner = asleep })
  wait_returns :
      (b : Bool) (r : Option ℕ) (j : Joinable)
      → s.joiner ≡ before
      → wait f s.joinable ≡ (returns b r, j)
      → Step f s (record s { joinable = j; joiner = done b r })
  leave :
      (b : Bool) (r : Option ℕ)
      → s.joiner ≡ woken
      → wait_leave s.joinable ≡ returns b r
      → Step f s (record s { joiner = done b r })
  posting :
      (r : ℕ) (b : Bool) (g : Option ℕ) (j : Joinable)
      → post r s.joinable ≡ some ((b, g), j)
      → Step f s (record s {
        joinable = j;
        joiner = wake g s.joiner;
        value = if b then some r else s.value;
      })
  detaching :
      (g : Option ℕ) (j : Joinable)
      → detach s.joinable ≡ some (g, j)
      → Step f s (record s { joinable = j; joiner = wake g s.joiner })

pub data Reach (f : ℕ) : System → Type 0 where
  here : Reach f init
  later : {s t : System} → Reach f s → Step f s t → Reach f t
