-- ===== src/LockedRwLock/Exclusion/Waits.antt =====
-- A fred that suspends, is resumed or times out keeps the invariant of the reader-writer lock.
use libfibre.Base.{ℕ, ◌≡◌, sym, ◌≢◌, arith, update}
use libfibre.Freds.{prepare_race, race_resume}
use libfibre.BlockingQueue.{block_enter, block_leave}
use libfibre.BlockingQueue.Coherence.{
  block_enter-IsCoherent, block_leave-IsCoherent, race_resume-IsCoherent,
}
use libfibre.BlockingQueue.Frame.{block_enter-frame, block_leave-frame}
use libfibre.LockedRwLock.{read_leave, write_leave}
use libfibre.LockedRwLock.System.{outside, System, do_read_leave, do_write_leave, do_expire}
use libfibre.LockedRwLock.Exclusion.Shared.{Shared, SharedIn, at}

module _ (f : ℕ) (s : System) (i : SharedIn s) where
  -- A fred that suspends on the readers' queue.
  pub wait_readers-Shared :
      s.freds.blocked_on f ≡ 0
      → s.role f ≡ outside
      → let (bq, w) = block_enter f s.lock.bq_r s.freds in
        Shared (update s.role f (s.role f)) s.readers s.writers (record s.lock { bq_r = bq }) w
  unfolding block_enter prepare_race
  wait_readers-Shared free out = record {
    coherent_r = block_enter-IsCoherent f s.lock.bq_r s.freds i.coherent_r free;
    coherent_w = block_enter-frame s.lock.bq_r s.lock.bq_w s.freds i.apart i.coherent_w f free;
    apart = ground (arith, i.apart);
    distinct_r = i.distinct_r;
    distinct_w = i.distinct_w;
    reader = λ g. ground (arith, at i g, at i f);
    writer = λ g. ground (arith, at i g, at i f);
    counted_r = i.counted_r;
    counted_w = i.counted_w;
    single = i.single;
    settled_r = λ g. ground (arith, at i g);
    settled_w = λ g. ground (arith, at i g);
  }

  -- A fred that suspends on the writers' queue.
  pub wait_writers-Shared :
      s.freds.blocked_on f ≡ 0
      → s.role f ≡ outside
      → let (bq, w) = block_enter f s.lock.bq_w s.freds in
        Shared (update s.role f (s.role f)) s.readers s.writers (record s.lock { bq_w = bq }) w
  unfolding block_enter prepare_race
  wait_writers-Shared free out = record {
    coherent_r =
        block_enter-frame s.lock.bq_w s.lock.bq_r s.freds (λ q. i.apart (sym q)) i.coherent_r f
          free;
    coherent_w = block_enter-IsCoherent f s.lock.bq_w s.freds i.coherent_w free;
    apart = ground (arith, i.apart);
    distinct_r = i.distinct_r;
    distinct_w = i.distinct_w;
    reader = λ g. ground (arith, at i g, at i f);
    writer = λ g. ground (arith, at i g, at i f);
    counted_r = i.counted_r;
    counted_w = i.counted_w;
    single = i.single;
    settled_r = λ g. ground (arith, at i g);
    settled_w = λ g. ground (arith, at i g);
  }

  pub do_read_leave-Shared :
      s.freds.blocked_on f ≡ s.lock.bq_r.address → SharedIn (do_read_leave f s)
  unfolding do_read_leave read_leave block_leave
  do_read_leave-Shared inside = record {
    coherent_r = block_leave-IsCoherent f s.lock.bq_r s.freds i.coherent_r inside;
    coherent_w = block_leave-frame s.lock.bq_r s.lock.bq_w s.freds i.apart i.coherent_w f inside;
    apart = ground (arith, i.apart);
    distinct_r = i.distinct_r;
    distinct_w = i.distinct_w;
    reader = λ g. ground (arith, at i g, at i f);
    writer = λ g. ground (arith, at i g, at i f);
    counted_r = i.counted_r;
    counted_w = i.counted_w;
    single = i.single;
    settled_r = λ g. ground (arith, at i g);
    settled_w = λ g. ground (arith, at i g);
  }

  pub do_write_leave-Shared :
      s.freds.blocked_on f ≡ s.lock.bq_w.address → SharedIn (do_write_leave f s)
  unfolding do_write_leave write_leave block_leave
  do_write_leave-Shared inside = record {
    coherent_r =
        block_leave-frame s.lock.bq_w s.lock.bq_r s.freds (λ q. i.apart (sym q)) i.coherent_r f
          inside;
    coherent_w = block_leave-IsCoherent f s.lock.bq_w s.freds i.coherent_w inside;
    apart = ground (arith, i.apart);
    distinct_r = i.distinct_r;
    distinct_w = i.distinct_w;
    reader = λ g. ground (arith, at i g, at i f);
    writer = λ g. ground (arith, at i g, at i f);
    counted_r = i.counted_r;
    counted_w = i.counted_w;
    single = i.single;
    settled_r = λ g. ground (arith, at i g);
    settled_w = λ g. ground (arith, at i g);
  }

  pub do_expire-Shared :
      (timer : ℕ)
      → timer ≢ 0
      → timer ≢ s.lock.bq_r.address
      → timer ≢ s.lock.bq_w.address
      → SharedIn (do_expire f timer s)
  unfolding do_expire race_resume
  do_expire-Shared timer nz ner new = record {
    coherent_r = race_resume-IsCoherent f timer s.lock.bq_r s.freds i.coherent_r ner;
    coherent_w = race_resume-IsCoherent f timer s.lock.bq_w s.freds i.coherent_w new;
    apart = ground (arith, i.apart);
    distinct_r = i.distinct_r;
    distinct_w = i.distinct_w;
    reader = λ g. ground (arith, at i g, at i f);
    writer = λ g. ground (arith, at i g, at i f);
    counted_r = i.counted_r;
    counted_w = i.counted_w;
    single = i.single;
    settled_r = λ g. ground (arith, at i g);
    settled_w = λ g. ground (arith, at i g);
  }
