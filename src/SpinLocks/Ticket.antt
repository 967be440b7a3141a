-- ===== src/SpinLocks/Ticket.antt =====
-- class TicketLock of src/runtime/SpinLocks.h.
pub mod Exclusion
mod Tests
use libfibre.Base.{
  ℕ, suc, ◌+◌, ◌-◌, ◌%◌, ◌^◌, ◌<◌, ◌≡◌, ◌≢◌, Bool, true, false, Option, none, some, ◌&&◌, ltb, ◌==◌,
  if◌then◌else◌, update,
}

-- Two words of 64 bits.
pub record TicketLock : Type 0 where
  pub serving : ℕ
  pub ticket : ℕ

abbrev u64 : ℕ → ℕ
u64 n = n % 2 ^ 64

-- Where a thread stands. `trying old` is `tryAcquire` between its read of `serving` into `tryticket`
-- and the compare-exchange.
pub data Pc : Type 0 where
  idle : Pc
  tested : Pc
  trying : (tryticket : ℕ) → Pc
  spinning : (myticket : ℕ) → Pc
  holding : (myticket : ℕ) → Pc

-- `acquire`: the fetch-and-add.
unfoldable pub take : TicketLock → ℕ × TicketLock
take l = (l.ticket, record l { ticket = u64 (l.ticket + 1) })

-- `tryAcquire`: the compare-exchange.
unfoldable pub try_take : ℕ → TicketLock → Bool × TicketLock
try_take tryticket l =
    if l.ticket == tryticket then (true, record l { ticket = u64 (tryticket + 1) }) else (false, l)

-- `release`; `none` if its assertion fails: the difference, read as signed, is not positive.
unfoldable pub release : TicketLock → Option TicketLock
release l =
    let waiting = u64 (l.ticket + 2 ^ 64 - l.serving) in
    if ltb 0 waiting && ltb waiting (2 ^ 63)
    then some (record l { serving = u64 (l.serving + 1) })
    else none

-- `issued` only observes: the tickets handed out so far.
pub record System : Type 0 where
  pub lock : TicketLock
  pub pc : ℕ → Pc
  pub issued : ℕ

abbrev pub init : System
init = record { lock = record { serving = 0; ticket = 0 }; pc = λ _. idle; issued = 0 }

-- The test at the start of `tryAcquire` reads two words at two times, so it may come out either way.
pub data Step (s : System) : System → Type 0 where
  acquire :
      (i : ℕ)
      → s.pc i ≡ idle
      → Step s (record {
        lock = (take s.lock).1;
        pc = update s.pc i (spinning (take s.lock).0);
        issued = suc s.issued;
      })
  enter :
      (i x : ℕ)
      → s.pc i ≡ spinning x
      → s.lock.serving ≡ x
      → Step s (record s { pc = update s.pc i (holding x) })
  test : (i : ℕ) → s.pc i ≡ idle → Step s (record s { pc = update s.pc i tested })
  read :
      (i : ℕ) → s.pc i ≡ tested → Step s (record s { pc = update s.pc i (trying s.lock.serving) })
  win :
      (i x : ℕ)
      → s.pc i ≡ trying x
      → (try_take x s.lock).0 ≡ true
      → Step s (record {
        lock = (try_take x s.lock).1;
        pc = update s.pc i (holding x);
        issued = suc s.issued;
      })
  lose :
      (i x : ℕ)
      → s.pc i ≡ trying x
      → (try_take x s.lock).0 ≡ false
      → Step s (record s { pc = update s.pc i idle })
  leave :
      (i x : ℕ) {l : TicketLock}
      → s.pc i ≡ holding x
      → release s.lock ≡ some l
      → Step s (record s { lock = l; pc = update s.pc i idle })

pub data Reach : System → Type 0 where
  here : Reach init
  later : {s t : System} → Reach s → Step s t → Reach t
