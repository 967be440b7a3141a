-- ===== src/SpinLocks/Owner.antt =====
-- class BinaryOwnerLock of src/runtime/SpinLocks.h. `noOwner` is `none`.
pub mod Nesting
mod Tests
use libfibre.Base.{
  ℕ, suc, ◌+◌, ◌-◌, ◌%◌, ◌^◌, ◌<◌, ◌≡◌, Bool, true, false, Option, none, some, ◌==◌, if◌then◌else◌,
  update,
}

pub record OwnerLock : Type 0 where
  pub owner : Option ℕ
  pub counter : ℕ

abbrev pub owned_by : Option ℕ → ℕ → Bool
owned_by none i = false
owned_by (some j) i = j == i

abbrev pub unowned : Option ℕ → Bool
unowned none = true
unowned (some _) = false

-- The compare-exchange of `tryAcquire` and `acquire`.
unfoldable pub claim : (caller : ℕ) → OwnerLock → Bool × OwnerLock
claim caller l = if unowned l.owner then (true, record l { owner = some caller }) else (false, l)

-- `counter += 1`, which both return.
unfoldable pub count : OwnerLock → OwnerLock
count l = record l { counter = (l.counter + 1) % 2 ^ 64 }

-- `release`: its assertion, whose failure is `none`, and the update of the counter.
unfoldable pub uncount : (full : Bool) → (caller : ℕ) → OwnerLock → Option OwnerLock
uncount full caller l =
    if owned_by l.owner caller
    then some (record l { counter = if full then 0 else (l.counter + 2 ^ 64 - 1) % 2 ^ 64 })
    else none

-- `release`: the store.
unfoldable pub disown : OwnerLock → OwnerLock
disown l = record l { owner = if l.counter == 0 then none else l.owner }

-- Where a thread stands. `claiming`: it has read that it does not own the lock. `counting`: it owns the
-- lock and `counter += 1` is to come. `leaving`: the last line of `release` is to come.
pub data Pc : Type 0 where
  outside : Pc
  claiming : Pc
  counting : Pc
  leaving : Pc

-- `depth` and `calls` only observe: the acquisitions of each thread that it has not released, and the
-- increments so far.
pub record System : Type 0 where
  pub lock : OwnerLock
  pub pc : ℕ → Pc
  pub depth : ℕ → ℕ
  pub calls : ℕ

abbrev pub init : System
init = record {
  lock = record { owner = none; counter = 0 };
  pc = λ _. outside;
  depth = λ _. 0;
  calls = 0;
}

-- A failed `tryAcquire` goes back to `outside`; `acquire` stays at `claiming` and tries again.
pub data Step (s : System) : System → Type 0 where
  again :
      (i : ℕ)
      → s.pc i ≡ outside
      → owned_by s.lock.owner i ≡ true
      → Step s (record s { pc = update s.pc i counting })
  test :
      (i : ℕ)
      → s.pc i ≡ outside
      → owned_by s.lock.owner i ≡ false
      → Step s (record s { pc = update s.pc i claiming })
  win :
      (i : ℕ)
      → s.pc i ≡ claiming
      → (claim i s.lock).0 ≡ true
      → Step s (record s { lock = (claim i s.lock).1; pc = update s.pc i counting })
  lose : (i : ℕ) → s.pc i ≡ claiming → Step s (record s { pc = update s.pc i outside })
  enter :
      (i : ℕ)
      → s.pc i ≡ counting
      → Step s (record {
        lock = count s.lock;
        pc = update s.pc i outside;
        depth = update s.depth i (suc (s.depth i));
        calls = suc s.calls;
      })
  leave :
      (i : ℕ) (full : Bool) {l : OwnerLock}
      → s.pc i ≡ outside
      → 0 < s.depth i
      → uncount full i s.lock ≡ some l
      → Step s (record s {
        lock = l;
        pc = update s.pc i leaving;
        depth = update s.depth i (if full then 0 else s.depth i - 1);
      })
  free :
      (i : ℕ)
      → s.pc i ≡ leaving
      → Step s (record s { lock = disown s.lock; pc = update s.pc i outside })

pub data Reach : System → Type 0 where
  here : Reach init
  later : {s t : System} → Reach s → Step s t → Reach t
