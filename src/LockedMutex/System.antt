-- ===== src/LockedMutex/System.antt =====
-- Freds that use one mutex, interleaved in any order, with timers that cancel waits.
use libfibre.Base.{ℕ, ◌≡◌, ◌≢◌, Bool, true, false, ◌&&◌, ◌||◌, not, none, [], update}
use libfibre.Freds.{Freds, race_resume}
use libfibre.BlockingQueue.{Args}
use libfibre.LockedMutex.{
  Mutex, Attempt, returns, suspends, retries, internal_acquire, acquire_leave, release,
}

-- `holding f`: the last `acquire` of the fred returned true, and it has not called `release` since.
-- `retrying f`: the fred is about to start another round of the loop in `internalAcquire`.
pub record System : Type 0 where
  pub mutex : Mutex
  pub freds : Freds
  pub holding : ℕ → Bool
  pub retrying : ℕ → Bool

abbrev pub init : ℕ → System
init address = record {
  mutex = record { owner = none; bq = record { address = address; queue = [] } };
  freds = record { info = λ _. 0; blocked_on = λ _. 0; resumed = [] };
  holding = λ _. false;
  retrying = λ _. false;
}

abbrev pub holds : Attempt → Bool → Bool
holds (returns b) old = b || old
holds suspends old = old
holds retries old = old

abbrev pub again : Attempt → Bool
again retries = true
again _ = false

unfoldable pub do_acquire : (owner_lock : Bool) → Args → ℕ → System → System
do_acquire owner_lock args f s =
    let (r, mutex, freds) = internal_acquire owner_lock args f s.mutex s.freds in
    record {
      mutex = mutex;
      freds = freds;
      holding = update s.holding f (holds r (s.holding f));
      retrying = update s.retrying f false;
    }

unfoldable pub do_leave : (fifo : Bool) → ℕ → System → System
do_leave fifo f s =
    let (r, mutex, freds) = acquire_leave fifo f s.mutex s.freds in
    record {
      mutex = mutex;
      freds = freds;
      holding = update s.holding f (holds r (s.holding f));
      retrying = update s.retrying f (again r);
    }

unfoldable pub do_release : (fifo : Bool) → ℕ → System → System
do_release fifo f s =
    let (next, mutex, freds) = release fifo s.mutex s.freds in
    record s { mutex = mutex; freds = freds; holding = update s.holding f false }

unfoldable pub do_expire : ℕ → ℕ → System → System
do_expire f timer s = record s { freds = (race_resume f timer s.freds).1 }

-- A fred that holds the mutex may acquire it again through the owner test only, and only a holder
-- releases, as the assertions say.
pub data Step (fifo : Bool) (s : System) : System → Type 0 where
  enter :
      (owner_lock : Bool) (f : ℕ) (args : Args)
      → s.freds.blocked_on f ≡ 0
      → (s.holding f && not owner_lock) ≡ false
      → Step fifo s (do_acquire owner_lock args f s)
  leave :
      (f : ℕ)
      → s.freds.blocked_on f ≡ s.mutex.bq.address
      → s.freds.info f ≢ 0
      → Step fifo s (do_leave fifo f s)
  exit : (f : ℕ) → s.freds.blocked_on f ≡ 0 → s.holding f ≡ true → Step fifo s (do_release fifo f s)
  expire :
      (f timer : ℕ) → timer ≢ 0 → timer ≢ s.mutex.bq.address → Step fifo s (do_expire f timer s)

pub data Reach (fifo : Bool) (start : System) : System → Type 0 where
  here : Reach fifo start start
  later : {s t : System} → Reach fifo start s → Step fifo s t → Reach fifo start t
