-- ===== src/LockedRwLock/Exclusion/Shared.antt =====
-- The invariant of the reader-writer lock.
use libfibre.Base.{
  ℕ, ◌≤◌, ◌≡◌, ◌≢◌, Bool, true, false, ◌&&◌, ◌||◌, List, ◌==◌, mem, length, Distinct,
}
use libfibre.Base.Int.{pos_part, neg_part}
use libfibre.Freds.{Freds}
use libfibre.BlockingQueue.Coherence.{IsCoherent}
use libfibre.LockedRwLock.{RwLock}
use libfibre.LockedRwLock.System.{System, Role, outside, reading, chaining, writing}

abbrev pub reads : Role → Bool
reads reading = true
reads chaining = true
reads _ = false

abbrev pub writes : Role → Bool
writes writing = true
writes _ = false

-- `unblock` has won the race of a fred that waits on the queue at `q`.
abbrev pub passed : ℕ → Freds → ℕ → Bool
passed q w f = (w.blocked_on f == q) && (w.info f == q)

-- `readers` are the freds with a reader's role and those handed the lock as readers; so `writers`.
pub record Shared (role : ℕ → Role) (readers writers : List ℕ) (l : RwLock) (w : Freds)
    : Type 0 where
  pub coherent_r : IsCoherent l.bq_r w
  pub coherent_w : IsCoherent l.bq_w w
  pub apart : l.bq_r.address ≢ l.bq_w.address
  pub distinct_r : Distinct readers
  pub distinct_w : Distinct writers
  pub reader : (f : ℕ) → mem f readers ≡ (reads (role f) || passed l.bq_r.address w f)
  pub writer : (f : ℕ) → mem f writers ≡ (writes (role f) || passed l.bq_w.address w f)
  pub counted_r : pos_part l.state ≡ length readers
  pub counted_w : neg_part l.state ≡ length writers
  pub single : length writers ≤ 1
  pub settled_r : (f : ℕ) → w.blocked_on f ≡ l.bq_r.address → role f ≡ outside
  pub settled_w : (f : ℕ) → w.blocked_on f ≡ l.bq_w.address → role f ≡ outside

abbrev pub SharedIn : System → Type 0
SharedIn s = Shared s.role s.readers s.writers s.lock s.freds

-- What the invariant says of one fred, and of the two queues' addresses.
pub at :
    {role : ℕ → Role} {readers writers : List ℕ} {l : RwLock} {w : Freds}
    → Shared role readers writers l w
    → (f : ℕ)
    → (mem f readers ≡ (reads (role f) || passed l.bq_r.address w f))
      × (mem f writers ≡ (writes (role f) || passed l.bq_w.address w f))
      × (w.blocked_on f ≡ l.bq_r.address → role f ≡ outside)
      × (w.blocked_on f ≡ l.bq_w.address → role f ≡ outside)
      × (l.bq_r.address ≢ 0)
      × (l.bq_w.address ≢ 0)
      × (l.bq_r.address ≢ l.bq_w.address)
at i f = (
  i.reader f,
  i.writer f,
  i.settled_r f,
  i.settled_w f,
  i.coherent_r.nonnull,
  i.coherent_w.nonnull,
  i.apart,
)
