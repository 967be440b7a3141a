-- ===== src/LockedRwLock/Exclusion/Wakes.antt =====
-- What the two attempts of `release`, and `read_chain`, do to the invariant.
use libfibre.Base.{ℕ, ◌≡◌, refl, true, false, Option, none, some, List, arith, mem, sym}
use libfibre.Base.Int.{neg_part, pos}
use libfibre.Freds.{Freds, resume}
use libfibre.BlockingQueue.{notify}
use libfibre.BlockingQueue.Order.{live, first, first-live, handed, without, unblock_quiet}
use libfibre.BlockingQueue.Coherence.{IsCoherent, first-mem, unblock-IsCoherent, notify-IsCoherent}
use libfibre.BlockingQueue.Frame.{handed-frame}
use libfibre.LockedRwLock.{RwLock, admit, admit_writer, wake_reader, wake_writer}
use libfibre.LockedRwLock.System.{Role, let_in}
use libfibre.LockedRwLock.Exclusion.Shared.{Shared}

-- Where the fred that was found waits.
abbrev pub Waited : ℕ → Option ℕ → Freds → Type 0
Waited q none w = Unit
Waited q (some f) w = w.blocked_on f ≡ q

module _ (role : ℕ → Role) (rs ws : List ℕ) (l : RwLock) (w : Freds)
    (i : Shared role rs ws l w) where
  admit-Shared :
      (next : Option ℕ)
      → next ≡ first (live l.bq_r w)
      → IsCoherent
          (record l.bq_r { queue = without next l.bq_r.queue })
          (handed l.bq_r.address next w)
      → neg_part l.state ≡ 0
      → Shared role
          (let_in next rs)
          ws
          (record l {
            state = admit next l.state;
            bq_r = record l.bq_r { queue = without next l.bq_r.queue };
          })
          (handed l.bq_r.address next w)
        × Waited l.bq_r.address next (handed l.bq_r.address next w)
  admit-Shared none e c z = (record i { coherent_r = c }, tt)
  admit-Shared (some h) e c z =
      let away = handed-frame l.bq_r l.bq_w w i.apart i.coherent_w (some h) e i.coherent_r in
      let mh : mem h l.bq_r.queue ≡ true = first-mem w.info l.bq_r.queue h (sym e) in
      let zero_h : w.info h ≡ 0 = first-live w.info l.bq_r.queue (sym e) in
      (
        record {
          coherent_r = c;
          coherent_w = away;
          apart = i.apart;
          distinct_r = ground (
            arith,
            i.distinct_r,
            i.reader h,
            i.settled_r h,
            i.coherent_r.member h,
            i.coherent_r.nonnull,
            i.coherent_w.nonnull,
            i.apart,
            mh,
            zero_h,
          );
          distinct_w = i.distinct_w;
          reader = λ f. ground (
            arith,
            i.reader f,
            i.reader h,
            i.settled_r h,
            i.coherent_r.member h,
            i.coherent_r.nonnull,
            i.coherent_w.nonnull,
            i.apart,
            mh,
            zero_h,
          );
          writer = λ f. ground (
            arith,
            i.writer f,
            i.coherent_r.member h,
            i.coherent_r.nonnull,
            i.coherent_w.nonnull,
            i.apart,
            mh,
            zero_h,
          );
          counted_r = ground (arith, i.counted_r);
          counted_w = ground (arith, i.counted_w);
          single = i.single;
          settled_r = i.settled_r;
          settled_w = i.settled_w;
        },
        ground
            (arith, i.coherent_r.member h, i.coherent_r.nonnull, i.coherent_w.nonnull, i.apart, mh),
      )

  admit_writer-Shared :
      (next : Option ℕ)
      → next ≡ first (live l.bq_w w)
      → IsCoherent
          (record l.bq_w { queue = without next l.bq_w.queue })
          (handed l.bq_w.address next w)
      → l.state ≡ pos 0
      → Shared role rs
          (let_in next ws)
          (record l {
            state = admit_writer next l.state;
            bq_w = record l.bq_w { queue = without next l.bq_w.queue };
          })
          (handed l.bq_w.address next w)
        × Waited l.bq_w.address next (handed l.bq_w.address next w)
  admit_writer-Shared none e c z = (record i { coherent_w = c }, tt)
  admit_writer-Shared (some h) e c z =
      let away =
        handed-frame l.bq_w l.bq_r w (λ q. i.apart (sym q)) i.coherent_r (some h) e i.coherent_w in
      let mh : mem h l.bq_w.queue ≡ true = first-mem w.info l.bq_w.queue h (sym e) in
      let zero_h : w.info h ≡ 0 = first-live w.info l.bq_w.queue (sym e) in
      (
        record {
          coherent_r = away;
          coherent_w = c;
          apart = i.apart;
          distinct_r = i.distinct_r;
          distinct_w = ground (
            arith,
            i.distinct_w,
            i.writer h,
            i.settled_w h,
            i.coherent_w.member h,
            i.coherent_r.nonnull,
            i.coherent_w.nonnull,
            i.apart,
            mh,
            zero_h,
          );
          reader = λ f. ground (
            arith,
            i.reader f,
            i.coherent_w.member h,
            i.coherent_r.nonnull,
            i.coherent_w.nonnull,
            i.apart,
            mh,
            zero_h,
          );
          writer = λ f. ground (
            arith,
            i.writer f,
            i.writer h,
            i.settled_w h,
            i.coherent_w.member h,
            i.coherent_r.nonnull,
            i.coherent_w.nonnull,
            i.apart,
            mh,
            zero_h,
          );
          counted_r = ground (arith, i.counted_r);
          counted_w = ground (arith, i.counted_w);
          single = ground (arith, i.counted_w);
          settled_r = i.settled_r;
          settled_w = i.settled_w;
        },
        ground (arith, i.coherent_w.member h, mh),
      )

  -- Waking a reader lets it in, if the lock is not held by a writer.
  pub wake_reader-Shared :
      neg_part l.state ≡ 0
      → let (next, l', w') = wake_reader l w in
        Shared role (let_in next rs) ws l' w' × Waited l.bq_r.address next w'
  unfolding wake_reader
  wake_reader-Shared z =
      let kept = unblock-IsCoherent false l.bq_r w i.coherent_r in
      rw (unblock_quiet l.bq_r w) (admit-Shared _ refl (rw (unblock_quiet l.bq_r w) at kept) z)

  -- Waking a writer lets it in, if the lock is free.
  pub wake_writer-Shared :
      l.state ≡ pos 0
      → let (next, l', w') = wake_writer l w in
        Shared role rs (let_in next ws) l' w' × Waited l.bq_w.address next w'
  unfolding wake_writer
  wake_writer-Shared z =
      let kept = unblock-IsCoherent false l.bq_w w i.coherent_w in
      rw (unblock_quiet l.bq_w w)
        (admit_writer-Shared _ refl (rw (unblock_quiet l.bq_w w) at kept) z)

-- Resuming a fred does not touch what the invariant speaks of.
pub notify-Shared :
    (role : ℕ → Role) (rs ws : List ℕ) (l : RwLock) (w : Freds) (next : Option ℕ)
    → Shared role rs ws l w
    → Shared role rs ws l (notify true next w)
unfolding resume
notify-Shared role rs ws l w none i = i
notify-Shared role rs ws l w (some f) i = record {
  coherent_r = notify-IsCoherent true (some f) l.bq_r w i.coherent_r;
  coherent_w = notify-IsCoherent true (some f) l.bq_w w i.coherent_w;
  apart = i.apart;
  distinct_r = i.distinct_r;
  distinct_w = i.distinct_w;
  reader = i.reader;
  writer = i.writer;
  counted_r = i.counted_r;
  counted_w = i.counted_w;
  single = i.single;
  settled_r = i.settled_r;
  settled_w = i.settled_w;
}
