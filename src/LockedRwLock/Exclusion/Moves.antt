-- ===== src/LockedRwLock/Exclusion/Moves.antt =====
-- The two acquisitions and a reader's second critical section keep the invariant.
use libfibre.Base.{length-erase, ℕ, ◌≡◌, inl, inr, true, ◌&&◌, arith, update, mem, Bool-cases}
use libfibre.Base.Int.{neg_part, pos, leb_ℤ, eqb_ℤ}
use libfibre.BlockingQueue.{Args, may_block, block}
use libfibre.LockedRwLock.{is_empty, acquire_read, read_chain, acquire_write, wake_reader}
use libfibre.LockedRwLock.System.{
  outside, reading, chaining, System, do_acquire_read, do_read_chain, do_acquire_write,
}
use libfibre.LockedRwLock.Exclusion.Shared.{Shared, SharedIn}
use libfibre.LockedRwLock.Exclusion.Wakes.{wake_reader-Shared, notify-Shared}
use libfibre.LockedRwLock.Exclusion.Waits.{wait_readers-Shared, wait_writers-Shared}
use libfibre.LockedRwLock.Exclusion.Passes.{pass_reader-Shared, pass_writer-Shared}

module _ (f : ℕ) (s : System) (i : SharedIn s) where
  -- A refused call, and the end of a reader's second critical section.
  stay-Shared :
      s.role f ≡ outside → Shared (update s.role f (s.role f)) s.readers s.writers s.lock s.freds
  stay-Shared out = record {
    coherent_r = i.coherent_r;
    coherent_w = i.coherent_w;
    apart = i.apart;
    distinct_r = i.distinct_r;
    distinct_w = i.distinct_w;
    reader = λ g. ground (arith, i.reader g);
    writer = λ g. ground (arith, i.writer g);
    counted_r = i.counted_r;
    counted_w = i.counted_w;
    single = i.single;
    settled_r = λ g. ground (arith, i.settled_r g);
    settled_w = λ g. ground (arith, i.settled_w g);
  }

  done-Shared :
      s.role f ≡ chaining → Shared (update s.role f reading) s.readers s.writers s.lock s.freds
  done-Shared r = record {
    coherent_r = i.coherent_r;
    coherent_w = i.coherent_w;
    apart = i.apart;
    distinct_r = i.distinct_r;
    distinct_w = i.distinct_w;
    reader = λ g. ground (arith, i.reader g);
    writer = λ g. ground (arith, i.writer g);
    counted_r = i.counted_r;
    counted_w = i.counted_w;
    single = i.single;
    settled_r = λ g. ground (arith, i.settled_r g);
    settled_w = λ g. ground (arith, i.settled_w g);
  }

  pub do_acquire_read-Shared :
      (args : Args)
      → s.freds.blocked_on f ≡ 0
      → s.role f ≡ outside
      → SharedIn (do_acquire_read args f s)
  unfolding do_acquire_read acquire_read block
  do_acquire_read-Shared args free out =
      elim (Bool-cases (leb_ℤ (pos 0) s.lock.state && is_empty s.lock.bq_w.queue)) [
        | inl e ↦ rw e (pass_reader-Shared f s i free out (ground arith))
        | inr e ↦ rw e (elim (Bool-cases (may_block args)) [
          | inl e' ↦ rw e' (wait_readers-Shared f s i free out)
          | inr e' ↦ rw e' (stay-Shared out)
        ])
      ]

  pub do_acquire_write-Shared :
      (args : Args)
      → s.freds.blocked_on f ≡ 0
      → s.role f ≡ outside
      → SharedIn (do_acquire_write args f s)
  unfolding do_acquire_write acquire_write block
  do_acquire_write-Shared args free out = elim (Bool-cases (eqb_ℤ s.lock.state (pos 0))) [
    | inl e ↦ rw e (pass_writer-Shared f s i free out e)
    | inr e ↦ rw e (elim (Bool-cases (may_block args)) [
      | inl e' ↦ rw e' (wait_writers-Shared f s i free out)
      | inr e' ↦ rw e' (stay-Shared out)
    ])
  ]

  pub do_read_chain-Shared : s.role f ≡ chaining → SharedIn (do_read_chain f s)
  unfolding do_read_chain read_chain wake_reader
  do_read_chain-Shared r =
      let inside : mem f s.readers ≡ true = ground (arith, i.reader f) in
      let one = length-erase f s.readers inside in
      let z : neg_part s.lock.state ≡ 0 = ground (arith, i.counted_r, one) in
      let (j, at) =
        wake_reader-Shared (update s.role f reading) s.readers s.writers s.lock s.freds
          (done-Shared r) z in
      let (next, l', w') = wake_reader s.lock s.freds in notify-Shared _ _ _ l' w' next j
