-- ===== src/FastMutex/System.antt =====
-- Freds that acquire and release a FastMutex.
use libfibre.Base.{
  ℕ, ◌≡◌, ◌≢◌, Bool, true, false, none, some, List, [], ◌∷◌, ◌++◌, if◌then◌else◌, update, erase,
}
use libfibre.Base.Int.{ℤ, pos}
use libfibre.Benaphore.{v_round, Round}
use libfibre.LimitedSemaphore
use libfibre.LockedSemaphore.{SemaphoreResult}
use libfibre.FastMutex
use libfibre.FastMutex.{Entry, p, try_lock, internal_acquire}

-- Where a fred is: outside; in `Spin`; about to call `ben.P`; about to push itself; pushed; resumed, or
-- let through by `ben.P`, and about to try; inside; in the loop of `ben.V`, with its local `c`; and in
-- `sem.V`.
pub data Pc : Type 0 where
  idle spinning paying pushing sleeping retrying holding popping : Pc
  posting : (c : ℤ) → Pc

-- `pushers` and `poppers` only observe: the freds at those places.
pub record System : Type 0 where
  pub owner : ℕ
  pub counter : ℤ
  pub queue : List ℕ
  pub pc : ℕ → Pc
  pub pushers : List ℕ
  pub poppers : List ℕ

abbrev pub init : System
init = record { owner = 0; counter = pos 1; queue = []; pc = λ _. idle; pushers = []; poppers = [] }

abbrev pub go : ℕ → Pc → System → System
go i c s = record s { pc = update s.pc i c }

pub data Step (s : System) : System → Type 0 where
  enter :
      (i o : ℕ)
      → s.pc i ≡ idle
      → i ≢ 0
      → internal_acquire false false i s.owner ≡ (Entry.spins, o)
      → Step s (go i spinning s)
  enter_try :
      (i o : ℕ) (b : Bool)
      → s.pc i ≡ idle
      → i ≢ 0
      → internal_acquire false true i s.owner ≡ (Entry.returns b, o)
      → Step s (go i (if b then holding else idle) (record s { owner = o }))
  spin :
      (i o : ℕ) (b : Bool)
      → s.pc i ≡ spinning
      → try_lock i s.owner ≡ (b, o)
      → Step s (go i (if b then holding else spinning) (record s { owner = o }))
  give_up : (i : ℕ) → s.pc i ≡ spinning → Step s (go i paying s)
  pay :
      (i : ℕ) (r : SemaphoreResult) (c : ℤ)
      → s.pc i ≡ paying
      → p s.counter ≡ (some r, c)
      → Step s (go i retrying (record s { counter = c }))
  block :
      (i : ℕ) (c : ℤ)
      → s.pc i ≡ paying
      → p s.counter ≡ (none, c)
      → Step s (go i pushing (record s { counter = c; pushers = s.pushers ++ i ∷ [] }))
  push :
      (i : ℕ)
      → s.pc i ≡ pushing
      → Step s (
          go i sleeping
            (record s { queue = LimitedSemaphore.p i s.queue; pushers = erase i s.pushers }))
  retry :
      (i o : ℕ) (b : Bool)
      → s.pc i ≡ retrying
      → try_lock i s.owner ≡ (b, o)
      → Step s (go i (if b then holding else paying) (record s { owner = o }))
  release :
      (i o : ℕ)
      → s.pc i ≡ holding
      → FastMutex.release i s.owner ≡ some o
      → Step s (go i (posting (pos 0)) (record s { owner = o }))
  again :
      (i : ℕ) (c c' n : ℤ)
      → s.pc i ≡ posting c
      → v_round c s.counter ≡ (Round.again c', n)
      → Step s (go i (posting c') (record s { counter = n }))
  stored :
      (i : ℕ) (c n : ℤ)
      → s.pc i ≡ posting c
      → v_round c s.counter ≡ (Round.returns true, n)
      → Step s (go i idle (record s { counter = n }))
  owing :
      (i : ℕ) (c n : ℤ)
      → s.pc i ≡ posting c
      → v_round c s.counter ≡ (Round.returns false, n)
      → Step s (go i popping (record s { counter = n; poppers = s.poppers ++ i ∷ [] }))
  pop :
      (i f : ℕ) (rest : List ℕ)
      → s.pc i ≡ popping
      → LimitedSemaphore.pop s.queue ≡ (some f, rest)
      → Step s (go i idle (go f retrying (record s { queue = rest; poppers = erase i s.poppers })))

pub data Reach : System → Type 0 where
  here : Reach init
  later : {s t : System} → Reach s → Step s t → Reach t
