-- ===== src/LockedRwLock/System.antt =====
-- Freds that use one reader-writer lock, interleaved in any order, with timers that cancel waits.
use libfibre.Base.{
  ℕ, ◌≡◌, ◌≢◌, ◌⊎◌, true, Option, none, some, List, [], ◌∷◌, ◌==◌, if◌then◌else◌, update, erase,
}
use libfibre.Base.Int.{pos}
use libfibre.Freds.{Freds, race_resume}
use libfibre.BlockingQueue.{Args}
use libfibre.LockedRwLock.{
  RwLock, Attempt, returns, chains, acquire_read, read_leave, read_chain, acquire_write,
  write_leave, release,
}

-- What a fred has, from the returns of its calls: `chaining` is a reader before the second critical
-- section of `internalAR`.
pub data Role : Type 0 where
  outside reading chaining writing : Role

-- `readers` and `writers` observe: the freds that were let in, be it by their own call or by the
-- fred that woke them, and that have not released.
pub record System : Type 0 where
  pub lock : RwLock
  pub freds : Freds
  pub role : ℕ → Role
  pub readers : List ℕ
  pub writers : List ℕ

abbrev pub init : ℕ → ℕ → System
init r w = record {
  lock = record {
    state = pos 0;
    bq_r = record { address = r; queue = [] };
    bq_w = record { address = w; queue = [] };
  };
  freds = record { info = λ _. 0; blocked_on = λ _. 0; resumed = [] };
  role = λ _. outside;
  readers = [];
  writers = [];
}

abbrev pub let_in : Option ℕ → List ℕ → List ℕ
let_in none l = l
let_in (some f) l = f ∷ l

-- The fred `f` itself is let in if its call returned true.
abbrev pub enters : Attempt → ℕ → List ℕ → List ℕ
enters (returns true) f l = f ∷ l
enters _ f l = l

abbrev pub becomes : Attempt → Role → Role → Role
becomes (returns true) new old = new
becomes chains new old = chaining
becomes _ new old = old

-- A fred that `release` wakes is let in as what it waits for.
abbrev pub admitted : ℕ → Freds → Option ℕ → List ℕ → List ℕ
admitted q w none l = l
admitted q w (some f) l = if w.blocked_on f == q then f ∷ l else l

unfoldable pub do_acquire_read : Args → ℕ → System → System
do_acquire_read args f s =
    let (r, lock, freds) = acquire_read args f s.lock s.freds in
    record s {
      lock = lock;
      freds = freds;
      role = update s.role f (becomes r reading (s.role f));
      readers = enters r f s.readers;
    }

unfoldable pub do_read_leave : ℕ → System → System
do_read_leave f s =
    let (r, lock, freds) = read_leave f s.lock s.freds in
    record s { lock = lock; freds = freds; role = update s.role f (becomes r reading (s.role f)) }

unfoldable pub do_read_chain : ℕ → System → System
do_read_chain f s =
    let (next, lock, freds) = read_chain s.lock s.freds in
    record s {
      lock = lock;
      freds = freds;
      role = update s.role f reading;
      readers = let_in next s.readers;
    }

unfoldable pub do_acquire_write : Args → ℕ → System → System
do_acquire_write args f s =
    let (r, lock, freds) = acquire_write args f s.lock s.freds in
    record s {
      lock = lock;
      freds = freds;
      role = update s.role f (becomes r writing (s.role f));
      writers = enters r f s.writers;
    }

unfoldable pub do_write_leave : ℕ → System → System
do_write_leave f s =
    let (r, lock, freds) = write_leave f s.lock s.freds in
    record s { lock = lock; freds = freds; role = update s.role f (becomes r writing (s.role f)) }

unfoldable pub do_release : ℕ → System → System
do_release f s =
    let (next, lock, freds) = release s.lock s.freds in
    record {
      lock = lock;
      freds = freds;
      role = update s.role f outside;
      readers = admitted s.lock.bq_r.address freds next (erase f s.readers);
      writers = admitted s.lock.bq_w.address freds next (erase f s.writers);
    }

unfoldable pub do_expire : ℕ → ℕ → System → System
do_expire f timer s = record s { freds = (race_resume f timer s.freds).1 }

-- A fred acquires only if it has nothing, and releases only what it has.
pub data Step (s : System) : System → Type 0 where
  enter_read :
      (f : ℕ) (args : Args)
      → s.freds.blocked_on f ≡ 0
      → s.role f ≡ outside
      → Step s (do_acquire_read args f s)
  leave_read :
      (f : ℕ)
      → s.freds.blocked_on f ≡ s.lock.bq_r.address
      → s.freds.info f ≢ 0
      → Step s (do_read_leave f s)
  chain : (f : ℕ) → s.role f ≡ chaining → Step s (do_read_chain f s)
  enter_write :
      (f : ℕ) (args : Args)
      → s.freds.blocked_on f ≡ 0
      → s.role f ≡ outside
      → Step s (do_acquire_write args f s)
  leave_write :
      (f : ℕ)
      → s.freds.blocked_on f ≡ s.lock.bq_w.address
      → s.freds.info f ≢ 0
      → Step s (do_write_leave f s)
  exit : (f : ℕ) → (s.role f ≡ reading) ⊎ (s.role f ≡ writing) → Step s (do_release f s)
  expire :
      (f timer : ℕ)
      → timer ≢ 0
      → timer ≢ s.lock.bq_r.address
      → timer ≢ s.lock.bq_w.address
      → Step s (do_expire f timer s)

pub data Reach (start : System) : System → Type 0 where
  here : Reach start start
  later : {s t : System} → Reach start s → Step s t → Reach start t
