-- ===== src/LockedRwLock/Exclusion/Reachable.antt =====
-- The invariant in every reachable state of the reader-writer lock.
use libfibre.Base.{ℕ, ◌≤◌, ◌≡◌, refl, ◌≢◌, true, false, List, [], ◌∷◌, arith, mem, length}
use libfibre.LockedRwLock.System.{
  outside, writing, System, init, Step, enter_read, leave_read, chain, enter_write, leave_write,
  exit, expire, Reach, here, later,
}
use libfibre.LockedRwLock.Exclusion.Shared.{SharedIn}
use libfibre.LockedRwLock.Exclusion.Waits.{
  do_read_leave-Shared, do_write_leave-Shared, do_expire-Shared,
}
use libfibre.LockedRwLock.Exclusion.Moves.{
  do_acquire_read-Shared, do_read_chain-Shared, do_acquire_write-Shared,
}
use libfibre.LockedRwLock.Exclusion.HandOver.{do_release-Shared}

Step-Shared : {s t : System} → Step s t → SharedIn s → SharedIn t
Step-Shared {s} (enter_read f args free out) i = do_acquire_read-Shared f s i args free out
Step-Shared {s} (leave_read f inside decided) i = do_read_leave-Shared f s i inside
Step-Shared {s} (chain f r) i = do_read_chain-Shared f s i r
Step-Shared {s} (enter_write f args free out) i = do_acquire_write-Shared f s i args free out
Step-Shared {s} (leave_write f inside decided) i = do_write_leave-Shared f s i inside
Step-Shared {s} (exit f r) i = do_release-Shared f s i r
Step-Shared {s} (expire f timer nz ner new) i = do_expire-Shared f s i timer nz ner new

-- In every reachable state the lists of the freds that were let in as readers and as writers agree
-- with what the calls returned and with the wakes on their way, `state` is the number of the readers
-- less the number of the writers, and there is at most one writer.
pub Reach-Shared : {r w : ℕ} {s : System} → r ≢ 0 → w ≢ 0 → r ≢ w → Reach (init r w) s → SharedIn s
Reach-Shared {r} {w} nr nw ne here = record {
  coherent_r = record { distinct = tt; nonnull = nr; member = λ f. ground arith };
  coherent_w = record { distinct = tt; nonnull = nw; member = λ f. ground arith };
  apart = ne;
  distinct_r = tt;
  distinct_w = tt;
  reader = λ f. ground arith;
  writer = λ f. ground arith;
  counted_r = refl;
  counted_w = refl;
  single = omega arith;
  settled_r = λ f e. refl;
  settled_w = λ f e. refl;
}
Reach-Shared nr nw ne (later p st) = Step-Shared st (Reach-Shared nr nw ne p)

same_member : (l : List ℕ) (f g : ℕ) → length l ≤ 1 → mem f l ≡ true → mem g l ≡ true → f ≡ g
same_member [] f g h p q = cc
same_member (x ∷ []) f g h p q = ground arith
same_member (x ∷ y ∷ l) f g h p q = absurd (omega arith)

empty_of_length : (l : List ℕ) (f : ℕ) → length l ≡ 0 → mem f l ≡ false
empty_of_length [] f h = refl
empty_of_length (x ∷ l) f h = absurd (omega arith)

-- While a fred holds the lock for writing, every other fred holds nothing, neither for reading nor
-- for writing.
pub writer_alone :
    {r w : ℕ} {s : System}
    → r ≢ 0
    → w ≢ 0
    → r ≢ w
    → Reach (init r w) s
    → (f g : ℕ) → s.role f ≡ writing
    → f ≢ g
    → s.role g ≡ outside
writer_alone {s} nr nw ne p f g hf d =
    let i = Reach-Shared nr nw ne p in
    let in_f : mem f s.writers ≡ true = ground (arith, i.writer f) in
    ground (
      arith,
      i.writer g,
      i.reader g,
      λ (q : mem g s.writers ≡ true). same_member s.writers f g i.single in_f q,
      λ (q : length s.writers ≡ 0). empty_of_length s.writers f q,
      λ (q : length s.readers ≡ 0). empty_of_length s.readers g q,
      i.counted_r,
      i.counted_w,
    )
