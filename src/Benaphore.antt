-- ===== src/Benaphore.antt =====
-- class Benaphore of src/runtime/Benaphore.h, for both values of its template flag `Binary`. Each atomic
-- operation is one step, in one total order.
pub mod Balance
mod Tests
use libfibre.Base.{ℕ, suc, ◌≡◌, Bool, true, false, not, ◌&&◌, if◌then◌else◌, update}
use libfibre.Base.Int.{ℤ, pos, inc, dec, ltb_ℤ, leb_ℤ, eqb_ℤ}

-- `P`: true if no blocking is needed.
unfoldable pub p : ℤ → Bool × ℤ
p counter = (ltb_ℤ (pos 0) counter, dec counter)

-- `tryP`: the test, and the compare-exchange from the value `c` that it read.
unfoldable pub may_try : ℤ → Bool
may_try c = leb_ℤ (pos 1) c

unfoldable pub try_p : (c : ℤ) → ℤ → Bool × ℤ
try_p c counter = if eqb_ℤ counter c then (true, dec c) else (false, counter)

-- `V` without `Binary`: true if no resume is needed.
unfoldable pub v : ℤ → Bool × ℤ
v counter = (ltb_ℤ (pos 0) (inc counter), inc counter)

-- What one round of the loop in `V` with `Binary` comes to: a result, another round that expects
-- another value, or a failed assertion.
pub data Round : Type 0 where
  returns : Bool → Round
  again : (c : ℤ) → Round
  fails : Round

unfoldable pub v_round : (c : ℤ) → ℤ → Round × ℤ
v_round c counter =
    if eqb_ℤ counter c
    then (
      (if eqb_ℤ c (pos 0) then returns true else if ltb_ℤ c (pos 0) then returns false else fails),
      inc c,
    )
    else (
      (if eqb_ℤ counter (pos 1)
          then returns true
          else if ltb_ℤ counter (pos 1)
          then again counter
          else fails),
      counter,
    )

pub data Pc : Type 0 where
  idle : Pc
  trying : (c : ℤ) → Pc
  rounds : (c : ℤ) → Pc

-- The counts only observe. `opened`: calls of `P` and `tryP` that got through. `blocked`: calls
-- of `P` that have to block. `stored`: calls of `V` that left a permit in the counter. `resumes`: calls
-- of `V` that have to resume a fred.
pub record System : Type 0 where
  pub counter : ℤ
  pub pc : ℕ → Pc
  pub opened : ℕ
  pub blocked : ℕ
  pub stored : ℕ
  pub resumes : ℕ

abbrev pub init : ℕ → System
init c = record {
  counter = pos c;
  pc = λ _. idle;
  opened = 0;
  blocked = 0;
  stored = 0;
  resumes = 0;
}

pub data Step (binary : Bool) (s : System) : System → Type 0 where
  down :
      (i : ℕ) (b : Bool) (n : ℤ)
      → s.pc i ≡ idle
      → p s.counter ≡ (b, n)
      → Step binary s (record s {
        counter = n;
        opened = if b then suc s.opened else s.opened;
        blocked = if b then s.blocked else suc s.blocked;
      })
  read :
      (i : ℕ)
      → s.pc i ≡ idle
      → may_try s.counter ≡ true
      → Step binary s (record s { pc = update s.pc i (trying s.counter) })
  exchange :
      (i : ℕ) (c : ℤ) (b : Bool) (n : ℤ)
      → s.pc i ≡ trying c
      → try_p c s.counter ≡ (b, n)
      → Step binary s (record s {
        counter = n;
        pc = update s.pc i idle;
        opened = if b then suc s.opened else s.opened;
      })
  up :
      (i : ℕ) (b : Bool) (n : ℤ)
      → binary ≡ false
      → s.pc i ≡ idle
      → v s.counter ≡ (b, n)
      → Step binary s (record s {
        counter = n;
        stored = if b then suc s.stored else s.stored;
        resumes = if b then s.resumes else suc s.resumes;
      })
  begin :
      (i : ℕ)
      → binary ≡ true
      → s.pc i ≡ idle
      → Step binary s (record s { pc = update s.pc i (rounds (pos 0)) })
  retry :
      (i : ℕ) (c c' : ℤ) (n : ℤ)
      → s.pc i ≡ rounds c
      → v_round c s.counter ≡ (again c', n)
      → Step binary s (record s { counter = n; pc = update s.pc i (rounds c') })
  finish :
      (i : ℕ) (c : ℤ) (b : Bool) (n : ℤ)
      → s.pc i ≡ rounds c
      → v_round c s.counter ≡ (returns b, n)
      → Step binary s (record s {
        counter = n;
        pc = update s.pc i idle;
        stored = if b && not (eqb_ℤ s.counter n) then suc s.stored else s.stored;
        resumes = if b then s.resumes else suc s.resumes;
      })

pub data Reach (binary : Bool) (c : ℕ) : System → Type 0 where
  here : Reach binary c (init c)
  later : {s t : System} → Reach binary c s → Step binary s t → Reach binary c t
