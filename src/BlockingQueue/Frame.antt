-- ===== src/BlockingQueue/Frame.antt =====
-- Operations on one queue leave the nodes of another one coherent.
use libfibre.Base.{ℕ, ◌≡◌, ◌≢◌, Option, none, some, arith}
use libfibre.Freds.{Freds, prepare_race}
use libfibre.BlockingQueue.Defs.{BlockingQueue, block_enter, block_leave}
use libfibre.BlockingQueue.Order.{live, first, first-live, handed}
use libfibre.BlockingQueue.Coherence.{IsCoherent, first-mem}

module _ (a b : BlockingQueue) (w : Freds) (apart : a.address ≢ b.address)
    (c : IsCoherent b w) where
  pub block_enter-frame : (f : ℕ) → w.blocked_on f ≡ 0 → IsCoherent b (block_enter f a w).1
  unfolding block_enter prepare_race
  block_enter-frame f free = record {
    distinct = c.distinct;
    nonnull = c.nonnull;
    member = λ g. ground (arith, c.member g, c.nonnull);
  }

  pub block_leave-frame : (f : ℕ) → w.blocked_on f ≡ a.address → IsCoherent b (block_leave f a w).2
  unfolding block_leave
  block_leave-frame f inside = record {
    distinct = c.distinct;
    nonnull = c.nonnull;
    member = λ g. ground (arith, c.member g, c.nonnull);
  }

  pub handed-frame :
      (next : Option ℕ)
      → next ≡ first (live a w)
      → IsCoherent a w
      → IsCoherent b (handed a.address next w)
  handed-frame none e ca = c
  handed-frame (some f) e ca = record {
    distinct = c.distinct;
    nonnull = c.nonnull;
    member = λ g. ground (
      arith,
      c.member g,
      c.nonnull,
      ca.member f,
      first-live w.info a.queue {f = f},
      first-mem w.info a.queue f,
    );
  }
