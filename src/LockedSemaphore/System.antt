-- ===== src/LockedSemaphore/System.antt =====
-- Freds that use one semaphore, interleaved in any order, with timers that cancel waits.
use libfibre.Base.{ℕ, suc, ◌≡◌, ◌≢◌, Bool, true, Option, none, some, List, [], ◌∷◌, erase}
use libfibre.Base.Int.{ℤ}
use libfibre.Freds.{Freds, race_resume}
use libfibre.BlockingQueue.{Args}
use libfibre.LockedSemaphore.{
  Semaphore, SemaphoreResult, semaphore_timeout, semaphore_success, semaphore_was_open, internal_p,
  wait, p_leave, v, try_v,
}

-- The last three fields only observe: the calls of `V`, the calls of `P` that returned with a
-- permit, and the freds that were handed a permit and have not returned from `P` yet.
pub record System : Type 0 where
  pub sem : Semaphore
  pub freds : Freds
  pub posted : ℕ
  pub acquired : ℕ
  pub granted : List ℕ

abbrev pub init : ℤ → ℕ → System
init c address = record {
  sem = record { counter = c; bq = record { address = address; queue = [] } };
  freds = record { info = λ _. 0; blocked_on = λ _. 0; resumed = [] };
  posted = 0;
  acquired = 0;
  granted = [];
}

abbrev pub gained : Option SemaphoreResult → ℕ → ℕ
gained (some semaphore_was_open) n = suc n
gained (some semaphore_success) n = suc n
gained (some semaphore_timeout) n = n
gained none n = n

abbrev pub granting : Option ℕ → List ℕ → List ℕ
granting none l = l
granting (some f) l = f ∷ l

unfoldable pub do_p : Args → ℕ → System → System
do_p args f s =
    let (r, sem, freds) = internal_p args f s.sem s.freds in
    record s { sem = sem; freds = freds; acquired = gained r s.acquired }

unfoldable pub do_leave : ℕ → System → System
do_leave f s =
    let (r, sem, freds) = p_leave f s.sem s.freds in
    record s {
      sem = sem;
      freds = freds;
      acquired = gained (some r) s.acquired;
      granted = elim r [ semaphore_success ↦ erase f s.granted | _ ↦ s.granted ];
    }

unfoldable pub do_v : (binary enqueue : Bool) → System → System
do_v binary enqueue s =
    let (next, sem, freds) = v binary enqueue s.sem s.freds in
    record s { sem = sem; freds = freds; posted = suc s.posted; granted = granting next s.granted }

unfoldable pub do_try_v : (enqueue : Bool) → System → System
do_try_v enqueue s =
    let (next, sem, freds) = try_v enqueue s.sem s.freds in
    record s {
      sem = sem;
      freds = freds;
      posted = elim next [ none ↦ s.posted | some _ ↦ suc s.posted ];
      granted = granting next s.granted;
    }

unfoldable pub do_wait : Args → ℕ → System → System
do_wait args f s =
    let (r, sem, freds) = wait args f s.sem s.freds in
    record s { sem = sem; freds = freds; acquired = gained r s.acquired }

-- `raceResume` by a timer queue, whose address is its message.
unfoldable pub do_expire : ℕ → ℕ → System → System
do_expire f timer s = record s { freds = (race_resume f timer s.freds).1 }

-- `wait` is for binary semaphores only, as its assertion says.
pub data Step (binary : Bool) (s : System) : System → Type 0 where
  enter : (f : ℕ) (args : Args) → s.freds.blocked_on f ≡ 0 → Step binary s (do_p args f s)
  leave :
      (f : ℕ)
      → s.freds.blocked_on f ≡ s.sem.bq.address
      → s.freds.info f ≢ 0
      → Step binary s (do_leave f s)
  post : (enqueue : Bool) → Step binary s (do_v binary enqueue s)
  try_post : (enqueue : Bool) → Step binary s (do_try_v enqueue s)
  discard :
      (f : ℕ) (args : Args)
      → binary ≡ true
      → s.freds.blocked_on f ≡ 0
      → Step binary s (do_wait args f s)
  expire :
      (f timer : ℕ) → timer ≢ 0 → timer ≢ s.sem.bq.address → Step binary s (do_expire f timer s)

pub data Reach (binary : Bool) (start : System) : System → Type 0 where
  here : Reach binary start start
  later : {s t : System} → Reach binary start s → Step binary s t → Reach binary start t
