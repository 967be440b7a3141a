-- ===== src/SpinLocks/Rw.antt =====
-- class SpinLockRW of src/runtime/SpinLocks.h.
pub mod Exclusion
mod Tests
use libfibre.Base.{
  ℕ, ◌≡◌, Bool, true, false, Option, none, some, List, [], ◌∷◌, ◌==◌, if◌then◌else◌, update, erase,
}
use libfibre.Base.Int.{ℤ, pos, inc, dec, leb_ℤ, ltb_ℤ, eqb_ℤ}

-- `state` is -1 with a writer, 0 if open, and the number of readers otherwise.

-- `tryAcquireRead`: the test, and the compare-exchange from the value `s` that it read.
unfoldable pub may_read : ℤ → Bool
may_read s = leb_ℤ (pos 0) s

unfoldable pub try_read : ℤ → ℤ → Bool × ℤ
try_read s state = if eqb_ℤ state s then (true, inc s) else (false, state)

-- `tryAcquireWrite`
unfoldable pub may_write : ℤ → Bool
may_write s = eqb_ℤ s (pos 0)

unfoldable pub try_write : ℤ → ℤ → Bool × ℤ
try_write s state = if eqb_ℤ state s then (true, dec s) else (false, state)

-- `release`: the value that it tests, and the update. The assertion and the test are reads of their
-- own, so the sign is that of an earlier value.
unfoldable pub release : (tested : ℤ) → ℤ → ℤ
release tested state = if ltb_ℤ tested (pos 0) then inc state else dec state

-- `acquireRead` and `acquireWrite` repeat the two steps until they succeed.
pub data Pc : Type 0 where
  idle : Pc
  trying_read : ℤ → Pc
  trying_write : ℤ → Pc
  reading : Pc
  writing : Pc
  leaving_read : ℤ → Pc
  leaving_write : ℤ → Pc

-- `readers` and `writers` only observe.
pub record System : Type 0 where
  pub state : ℤ
  pub pc : ℕ → Pc
  pub readers : List ℕ
  pub writers : List ℕ

abbrev pub init : System
init = record { state = pos 0; pc = λ _. idle; readers = []; writers = [] }

pub data Step (s : System) : System → Type 0 where
  read_state :
      (i : ℕ)
      → s.pc i ≡ idle
      → may_read s.state ≡ true
      → Step s (record s { pc = update s.pc i (trying_read s.state) })
  read_win :
      (i : ℕ) (z : ℤ)
      → s.pc i ≡ trying_read z
      → (try_read z s.state).0 ≡ true
      → Step s (record s {
        state = (try_read z s.state).1;
        pc = update s.pc i reading;
        readers = i ∷ s.readers;
      })
  read_lose :
      (i : ℕ) (z : ℤ)
      → s.pc i ≡ trying_read z
      → (try_read z s.state).0 ≡ false
      → Step s (record s { pc = update s.pc i idle })
  write_state :
      (i : ℕ)
      → s.pc i ≡ idle
      → may_write s.state ≡ true
      → Step s (record s { pc = update s.pc i (trying_write s.state) })
  write_win :
      (i : ℕ) (z : ℤ)
      → s.pc i ≡ trying_write z
      → (try_write z s.state).0 ≡ true
      → Step s (record s {
        state = (try_write z s.state).1;
        pc = update s.pc i writing;
        writers = i ∷ s.writers;
      })
  write_lose :
      (i : ℕ) (z : ℤ)
      → s.pc i ≡ trying_write z
      → (try_write z s.state).0 ≡ false
      → Step s (record s { pc = update s.pc i idle })
  test_read :
      (i : ℕ) → s.pc i ≡ reading → Step s (record s { pc = update s.pc i (leaving_read s.state) })
  test_write :
      (i : ℕ) → s.pc i ≡ writing → Step s (record s { pc = update s.pc i (leaving_write s.state) })
  leave_read :
      (i : ℕ) (z : ℤ)
      → s.pc i ≡ leaving_read z
      → Step s (record s {
        state = release z s.state;
        pc = update s.pc i idle;
        readers = erase i s.readers;
      })
  leave_write :
      (i : ℕ) (z : ℤ)
      → s.pc i ≡ leaving_write z
      → Step s (record s {
        state = release z s.state;
        pc = update s.pc i idle;
        writers = erase i s.writers;
      })

pub data Reach : System → Type 0 where
  here : Reach init
  later : {s t : System} → Reach s → Step s t → Reach t
