-- ===== src/SpinLocks/Rw/Exclusion.antt =====
-- Readers and writers of the spinning lock exclude each other.
use libfibre.Base.{
  length-erase, update, ℕ, ◌≤◌, ◌≡◌, refl, ◌∙◌, ◌≢◌, Bool, true, false, List, [], ◌∷◌, arith, mem,
  length, Distinct, Distinct-erase, mem-erase,
}
use libfibre.Base.Int.{◌-ℤ◌, pos, pos_part, neg_part}
use libfibre.SpinLocks.Rw.{
  idle, may_read, try_read, may_write, try_write, release, Pc, trying_read, trying_write, reading,
  writing, leaving_read, leaving_write, System, Step, read_state, read_win, read_lose, write_state,
  write_win, write_lose, test_read, test_write, leave_read, leave_write, Reach, here, later,
}

abbrev pub reads : Pc → Bool
reads reading = true
reads (leaving_read _) = true
reads _ = false

abbrev pub writes : Pc → Bool
writes writing = true
writes (leaving_write _) = true
writes _ = false

-- What a thread remembers of `state`.
abbrev Remembers : Pc → Type 0
Remembers (trying_read z) = neg_part z ≡ 0
Remembers (trying_write z) = z ≡ pos 0
Remembers (leaving_read z) = neg_part z ≡ 0
Remembers (leaving_write z) = (pos_part z ≡ 0) × (1 ≤ neg_part z)
Remembers _ = Unit

abbrev Counted : System → Type 0
Counted s =
    Distinct s.readers
    × Distinct s.writers
    × (pos_part s.state ≡ length s.readers)
    × (neg_part s.state ≡ length s.writers)
    × (length s.writers ≤ 1)

abbrev Listed : System → ℕ → Type 0
Listed s i =
    (mem i s.readers ≡ reads (s.pc i)) × (mem i s.writers ≡ writes (s.pc i)) × Remembers (s.pc i)

pub record Inv (s : System) : Type 0 where
  pub counted : Counted s
  pub listed : (i : ℕ) → Listed s i

positive : (f : ℕ) (l : List ℕ) → mem f l ≡ true → 1 ≤ length l
positive f [] h = cc
positive f (x ∷ l) h = omega arith

-- A step of thread `i` that does not touch the lists.
aside :
    {s : System} (i : ℕ) (p : Pc)
    → Inv s
    → reads p ≡ reads (s.pc i)
    → writes p ≡ writes (s.pc i)
    → Remembers p
    → Inv (record s { pc = update s.pc i p })
aside i p v r w m = record {
  counted = v.counted;
  listed = λ j. ground (arith, v.listed j, v.listed i);
}

Step-Inv : {s t : System} → Step s t → Inv s → Inv t
unfolding may_read try_read may_write try_write release
Step-Inv {s} (read_state i e h) v =
    aside i (trying_read s.state) v (ground arith) (ground arith) (ground arith)
Step-Inv {s} (read_lose i z e h) v = aside i idle v (ground arith) (ground arith) tt
Step-Inv {s} (write_state i e h) v =
    aside i (trying_write s.state) v (ground arith) (ground arith) (ground arith)
Step-Inv {s} (write_lose i z e h) v = aside i idle v (ground arith) (ground arith) tt
Step-Inv {s} (test_read i e) v =
    aside i (leaving_read s.state) v (ground arith) (ground arith)
      (ground (arith, v.counted, v.listed i, positive i s.readers))
Step-Inv {s} (test_write i e) v =
    aside i (leaving_write s.state) v (ground arith) (ground arith)
      (ground (arith, v.counted, v.listed i, positive i s.writers))
Step-Inv {s} (read_win i z e h) v = record {
  counted = ground (arith, v.counted, v.listed i);
  listed = λ j. ground (arith, v.listed j, v.listed i);
}
Step-Inv {s} (write_win i z e h) v = record {
  counted = ground (arith, v.counted, v.listed i);
  listed = λ j. ground (arith, v.listed j, v.listed i);
}
Step-Inv {s} (leave_read i z e) v = record {
  counted =
      ground (arith, v.counted, v.listed i, length-erase i s.readers, Distinct-erase i s.readers);
  listed = λ j. ground (arith, v.counted, v.listed j, v.listed i, mem-erase i j s.readers);
}
Step-Inv {s} (leave_write i z e) v = record {
  counted =
      ground (arith, v.counted, v.listed i, length-erase i s.writers, Distinct-erase i s.writers);
  listed = λ j. ground (arith, v.counted, v.listed j, v.listed i, mem-erase i j s.writers);
}

Reach-RwInv : {s : System} → Reach s → Inv s
Reach-RwInv here = record {
  counted = (tt, tt, refl, refl, omega arith);
  listed = λ i. (refl, refl, tt);
}
Reach-RwInv (later r st) = Step-Inv st (Reach-RwInv r)

same_member : (l : List ℕ) (f g : ℕ) → length l ≤ 1 → mem f l ≡ true → mem g l ≡ true → f ≡ g
same_member [] f g h p q = cc
same_member (x ∷ []) f g h p q = ground arith
same_member (x ∷ y ∷ l) f g h p q = absurd (omega arith)

-- In every reachable state a thread that has acquired the lock for writing is alone: any other
-- thread has it neither for reading nor for writing, from the success of its compare-exchange to the
-- update in `release`.
pub spin_writer_alone :
    {s : System}
    → Reach s
    → (i j : ℕ) → writes (s.pc i) ≡ true
    → i ≢ j
    → (reads (s.pc j) ≡ false) × (writes (s.pc j) ≡ false)
spin_writer_alone {s} r i j w d =
    let v = Reach-RwInv r in
    let in_i : mem i s.writers ≡ true = (v.listed i).1 ∙ w in
    (
      ground (arith, v.listed j, v.counted, positive i s.writers in_i, positive j s.readers),
      ground (arith, v.listed j, same_member s.writers i j (ground (arith, v.counted)) in_i),
    )

-- In every reachable state `state` is the number of the threads that have the lock for reading less
-- that of the threads that have it for writing, of which there is at most one, and the two lists hold
-- exactly those threads.
pub state_counts :
    {s : System}
    → Reach s
    → (i : ℕ)
    → (s.state ≡ pos (length s.readers) -ℤ pos (length s.writers))
      × (length s.writers ≤ 1)
      × (mem i s.readers ≡ reads (s.pc i))
      × (mem i s.writers ≡ writes (s.pc i))
state_counts {s} r i =
    let v = Reach-RwInv r in
    (ground (arith, v.counted, s.state), ground (arith, v.counted), (v.listed i).0, (v.listed i).1)
