-- ===== src/SimpleMutex.antt =====
-- class SimpleMutex0 of src/runtime/BlockingSync.h: a benaphore that counts from one and a LimitedSemaphore0,
-- by which `release` hands the mutex over. Each atomic operation, push and pop is one step.
pub mod Invariant
pub mod Holders
mod Tests
use libfibre.Base.{
  ℕ, ◌≡◌, Bool, true, false, Option, none, some, List, [], ◌∷◌, ◌++◌, if◌then◌else◌, update, erase,
}
use libfibre.Base.Int.{ℤ, pos}
use libfibre.Benaphore
use libfibre.LimitedSemaphore

-- Outside; about to push itself; pushed; inside; and in `sem.V`.
pub data Pc : Type 0 where
  idle pushing sleeping holding popping : Pc

-- `acquire`, up to `sem.P`, and `tryAcquire` from the value that it read; `release`, up to `sem.V`. The
-- result is true if the call returns at once.
unfoldable pub acquire : ℤ → Bool × ℤ
acquire counter = Benaphore.p counter

unfoldable pub try_acquire : (c : ℤ) → ℤ → Bool × ℤ
try_acquire c counter = if Benaphore.may_try c then Benaphore.try_p c counter else (false, counter)

unfoldable pub release : ℤ → Bool × ℤ
release counter = Benaphore.v counter

-- The lists but `queue` only observe: the freds at those places.
pub record System : Type 0 where
  pub counter : ℤ
  pub queue : List ℕ
  pub pc : ℕ → Pc
  pub holders : List ℕ
  pub pushers : List ℕ
  pub poppers : List ℕ

abbrev pub init : System
init = record {
  counter = pos 1;
  queue = [];
  pc = λ _. idle;
  holders = [];
  pushers = [];
  poppers = [];
}

abbrev pub go : ℕ → Pc → System → System
go i c s = record s { pc = update s.pc i c }

pub data Step (s : System) : System → Type 0 where
  enter :
      (i : ℕ) (n : ℤ)
      → s.pc i ≡ idle
      → acquire s.counter ≡ (true, n)
      → Step s (go i holding (record s { counter = n; holders = s.holders ++ i ∷ [] }))
  enter_try :
      (i : ℕ) (c n : ℤ)
      → s.pc i ≡ idle
      → try_acquire c s.counter ≡ (true, n)
      → Step s (go i holding (record s { counter = n; holders = s.holders ++ i ∷ [] }))
  block :
      (i : ℕ) (n : ℤ)
      → s.pc i ≡ idle
      → acquire s.counter ≡ (false, n)
      → Step s (go i pushing (record s { counter = n; pushers = s.pushers ++ i ∷ [] }))
  push :
      (i : ℕ)
      → s.pc i ≡ pushing
      → Step s (
          go i sleeping
            (record s { queue = LimitedSemaphore.p i s.queue; pushers = erase i s.pushers }))
  leave :
      (i : ℕ) (n : ℤ)
      → s.pc i ≡ holding
      → release s.counter ≡ (true, n)
      → Step s (go i idle (record s { counter = n; holders = erase i s.holders }))
  owing :
      (i : ℕ) (n : ℤ)
      → s.pc i ≡ holding
      → release s.counter ≡ (false, n)
      → Step s (
          go i popping
            (record s { counter = n; holders = erase i s.holders; poppers = s.poppers ++ i ∷ [] }))
  pop :
      (i f : ℕ) (rest : List ℕ)
      → s.pc i ≡ popping
      → LimitedSemaphore.pop s.queue ≡ (some f, rest)
      → Step s (
          go i idle (
            go f holding (record s {
              queue = rest;
              holders = s.holders ++ f ∷ [];
              poppers = erase i s.poppers;
            })))

pub data Reach : System → Type 0 where
  here : Reach init
  later : {s t : System} → Reach s → Step s t → Reach t
