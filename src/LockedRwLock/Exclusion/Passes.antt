-- ===== src/LockedRwLock/Exclusion/Passes.antt =====
-- A fred that enters or leaves at once keeps the invariant of the reader-writer lock.
use libfibre.Base.{
  length-erase, erase-of-not-mem, ℕ, suc, ◌≡◌, true, false, ◌∷◌, arith, update, mem, erase, length,
  Distinct-erase, mem-erase,
}
use libfibre.Base.Int.{pos_part, neg_part, inc, dec, pos, negsuc, leb_ℤ, eqb_ℤ}
use libfibre.LockedRwLock.System.{outside, reading, writing, System}
use libfibre.LockedRwLock.Exclusion.Shared.{Shared, SharedIn, at}

module _ (f : ℕ) (s : System) (i : SharedIn s) where
  -- The fast path of a reader, of a writer.
  pub pass_reader-Shared :
      s.freds.blocked_on f ≡ 0
      → s.role f ≡ outside
      → leb_ℤ (pos 0) s.lock.state ≡ true
      → Shared
          (update s.role f reading)
          (f ∷ s.readers)
          s.writers
          (record s.lock { state = inc s.lock.state })
          s.freds
  pass_reader-Shared free out low = record {
    coherent_r = i.coherent_r;
    coherent_w = i.coherent_w;
    apart = ground (arith, i.apart);
    distinct_r = ground (arith, at i f, i.distinct_r);
    distinct_w = i.distinct_w;
    reader = λ g. ground (arith, at i g, at i f);
    writer = λ g. ground (arith, at i g, at i f);
    counted_r = ground (arith, i.counted_r);
    counted_w = ground (arith, i.counted_w);
    single = i.single;
    settled_r = λ g. ground (arith, at i g);
    settled_w = λ g. ground (arith, at i g);
  }

  pub pass_writer-Shared :
      s.freds.blocked_on f ≡ 0
      → s.role f ≡ outside
      → eqb_ℤ s.lock.state (pos 0) ≡ true
      → Shared
          (update s.role f writing)
          s.readers
          (f ∷ s.writers)
          (record s.lock { state = dec s.lock.state })
          s.freds
  pass_writer-Shared free out low = record {
    coherent_r = i.coherent_r;
    coherent_w = i.coherent_w;
    apart = ground (arith, i.apart);
    distinct_r = i.distinct_r;
    distinct_w = ground (arith, at i f, i.distinct_w);
    reader = λ g. ground (arith, at i g, at i f);
    writer = λ g. ground (arith, at i g, at i f);
    counted_r = ground (arith, i.counted_r);
    counted_w = ground (arith, i.counted_w);
    single = ground (arith, i.counted_w);
    settled_r = λ g. ground (arith, at i g);
    settled_w = λ g. ground (arith, at i g);
  }

  -- A reader, or a writer, that leaves.
  pub quit_reader-Shared :
      s.role f ≡ reading
      → ((neg_part s.lock.state ≡ 0) × (pos_part s.lock.state ≡ suc (length (erase f s.readers))))
        × Shared
            (update s.role f outside)
            (erase f s.readers)
            (erase f s.writers)
            (record s.lock { state = dec s.lock.state })
            s.freds
  quit_reader-Shared r =
      let inside : mem f s.readers ≡ true = ground (arith, i.reader f) in
      let apart_f : mem f s.writers ≡ false = ground (arith, at i f) in
      let one = length-erase f s.readers inside in
      let none_lost = erase-of-not-mem f s.writers apart_f in
      (
        (
          ground (arith, i.counted_r, i.counted_w, i.single, one),
          ground (arith, i.counted_r, i.counted_w, i.single, one),
        ),
        record {
          coherent_r = i.coherent_r;
          coherent_w = i.coherent_w;
          apart = i.apart;
          distinct_r = Distinct-erase f s.readers i.distinct_r;
          distinct_w = Distinct-erase f s.writers i.distinct_w;
          reader = λ g. ground (arith, at i g, at i f, mem-erase f g s.readers i.distinct_r);
          writer = λ g. ground (arith, at i g, at i f, mem-erase f g s.writers i.distinct_w);
          counted_r = ground (arith, i.counted_r, i.counted_w, i.single, one, none_lost);
          counted_w = ground (arith, i.counted_r, i.counted_w, i.single, one, none_lost);
          single = ground (arith, i.single, one, none_lost);
          settled_r = λ g. ground (arith, i.settled_r g);
          settled_w = λ g. ground (arith, i.settled_w g);
        },
      )

  pub quit_writer-Shared :
      s.role f ≡ writing
      → (s.lock.state ≡ negsuc 0)
        × Shared
            (update s.role f outside)
            (erase f s.readers)
            (erase f s.writers)
            (record s.lock { state = inc s.lock.state })
            s.freds
  quit_writer-Shared r =
      let inside : mem f s.writers ≡ true = ground (arith, i.writer f) in
      let apart_f : mem f s.readers ≡ false = ground (arith, at i f) in
      let one = length-erase f s.writers inside in
      let none_lost = erase-of-not-mem f s.readers apart_f in
      (
        ground (arith, i.counted_r, i.counted_w, i.single, one),
        record {
          coherent_r = i.coherent_r;
          coherent_w = i.coherent_w;
          apart = i.apart;
          distinct_r = Distinct-erase f s.readers i.distinct_r;
          distinct_w = Distinct-erase f s.writers i.distinct_w;
          reader = λ g. ground (arith, at i g, at i f, mem-erase f g s.readers i.distinct_r);
          writer = λ g. ground (arith, at i g, at i f, mem-erase f g s.writers i.distinct_w);
          counted_r = ground (arith, i.counted_r, i.counted_w, i.single, one, none_lost);
          counted_w = ground (arith, i.counted_r, i.counted_w, i.single, one, none_lost);
          single = ground (arith, i.single, one, none_lost);
          settled_r = λ g. ground (arith, i.settled_r g);
          settled_w = λ g. ground (arith, i.settled_w g);
        },
      )
