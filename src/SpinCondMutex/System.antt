-- ===== src/SpinCondMutex/System.antt =====
-- Freds that use one SpinCondMutex, interleaved in any order, with timers that cancel waits.
use libfibre.Base.{ℕ, ◌≡◌, ◌≢◌, Bool, none, some, [], if◌then◌else◌, update}
use libfibre.Freds.{Freds, race_resume}
use libfibre.BlockingQueue.{Args}
use libfibre.SpinCondMutex.{
  Mutex, Phase, idle, trying, swapping, claimed, holding, clearing, notifying, asking, parking,
  suspended, start, try_lock1, after_try1, try_lock2, after_try2, write_owner, release_value, ask,
  park, leave, wake,
}

pub record System : Type 0 where
  pub mutex : Mutex
  pub freds : Freds
  pub phase : ℕ → Phase

abbrev pub init : ℕ → System
init address = record {
  mutex = record {
    queue = record { address = address; queue = [] };
    queue_lock = none;
    value = 0;
    owner = none;
  };
  freds = record { info = λ _. 0; blocked_on = λ _. 0; resumed = [] };
  phase = λ _. idle;
}

abbrev pub goes : ℕ → Phase → Mutex → Freds → System → System
goes f p m w s = record { mutex = m; freds = w; phase = update s.phase f p }

abbrev pub do_try1 : (once more : Bool) → ℕ → System → System
do_try1 once more f s =
    goes f (after_try1 once more (try_lock1 s.mutex).0 s.mutex.value) (try_lock1 s.mutex).1 s.freds
      s

abbrev pub do_try2 : (more : Bool) → ℕ → System → System
do_try2 more f s = goes f (after_try2 more (try_lock2 s.mutex).0) (try_lock2 s.mutex).1 s.freds s

abbrev pub do_ask : ℕ → System → System
do_ask f s = goes f (if (ask f s.mutex).0 then parking else swapping) (ask f s.mutex).1 s.freds s

abbrev pub do_park : Args → ℕ → System → System
do_park args f s =
    let (parked, m, w) = park args f s.mutex s.freds in
    goes f (if parked then suspended else idle) m w s

abbrev pub do_leave : ℕ → System → System
do_leave f s =
    let (done, m, w) = leave f s.mutex s.freds in goes f (if done then swapping else idle) m w s

-- A fred that holds the mutex may acquire it again through the owner test only.
pub data Step (s : System) : System → Type 0 where
  starts :
      (owner_lock : Bool) (args : Args) (f : ℕ) (p : Phase)
      → s.phase f ≡ idle
      → start owner_lock args f s.mutex ≡ some p
      → Step s (goes f p s.mutex s.freds s)
  tries : (once more : Bool) (f : ℕ) → s.phase f ≡ trying once → Step s (do_try1 once more f s)
  swaps : (more : Bool) (f : ℕ) → s.phase f ≡ swapping → Step s (do_try2 more f s)
  owns :
      (f : ℕ)
      → s.phase f ≡ claimed
      → Step s (goes f holding (write_owner (some f) s.mutex) s.freds s)
  clears :
      (f : ℕ) → s.phase f ≡ holding → Step s (goes f clearing (write_owner none s.mutex) s.freds s)
  frees :
      (f : ℕ)
      → s.phase f ≡ clearing
      → Step s (goes f (release_value s.mutex).0 (release_value s.mutex).1 s.freds s)
  wakes :
      (f : ℕ)
      → s.phase f ≡ notifying
      → s.mutex.queue_lock ≡ none
      → Step s (goes f idle (wake s.mutex s.freds).0 (wake s.mutex s.freds).1 s)
  asks : (f : ℕ) → s.phase f ≡ asking → s.mutex.queue_lock ≡ none → Step s (do_ask f s)
  parks : (args : Args) (f : ℕ) → s.phase f ≡ parking → Step s (do_park args f s)
  leaves : (f : ℕ) → s.phase f ≡ suspended → s.freds.info f ≢ 0 → Step s (do_leave f s)
  expires :
      (f timer : ℕ)
      → timer ≢ 0
      → timer ≢ s.mutex.queue.address
      → Step s (record s { freds = (race_resume f timer s.freds).1 })

pub data Reach (first : System) : System → Type 0 where
  here : Reach first first
  later : {s t : System} → Reach first s → Step s t → Reach first t
