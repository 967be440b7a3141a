-- ===== src/Processor/Tokens.antt =====
-- The counter of the idle manager promises freds to the processors that search for one.
use libfibre.Base.{
  ℕ, suc, ◌+◌, ◌≡◌, refl, Bool, true, false, some, List, [], ◌∷◌, mem, Distinct, arith,
}
use libfibre.Base.Int.{ℤ, pos, pos_part}
use libfibre.IdleManager.{may_get, try_get, get_ready_fred, add_ready_fred}
use libfibre.Processor.{Pool, enqueue_fred, search_local, steal_from}
use libfibre.Processor.Counting.{total, total-search_local, total-steal_from, total-enqueue_fred}

-- `claims`: the processors that the counter has let into `scheduleBlocking`. `incoming`: the freds that
-- are not in a ready queue yet, after `addReadyFred` has counted them, or as `yield` has switched away.
pub record System : Type 0 where
  pub pool : Pool
  pub counter : ℤ
  pub claims : ℕ
  pub incoming : ℕ

abbrev pub init : (processor priority : ℕ → ℕ) → (affinity : ℕ → Bool) → System
init processor priority affinity = record {
  pool = record {
    ready = λ _ _. [];
    processor = processor;
    priority = priority;
    affinity = affinity;
  };
  counter = pos 0;
  claims = 0;
  incoming = 0;
}

-- One atomic access to the counter or to a ready queue of the processors `procs`.
pub data Step (procs : List ℕ) (s : System) : System → Type 0 where
  announce :
      (n : ℤ)
      → add_ready_fred s.counter ≡ (false, n)
      → Step procs s (record s { counter = n; incoming = suc s.incoming })
  handover :
      (n : ℤ) → add_ready_fred s.counter ≡ (true, n) → Step procs s (record s { counter = n })
  put :
      (p f k : ℕ) (t : Pool)
      → mem p procs ≡ true
      → s.incoming ≡ suc k
      → enqueue_fred p f s.pool ≡ some t
      → Step procs s (record s { pool = t; incoming = k })
  claim :
      (c n : ℤ)
      → may_get c ≡ true
      → try_get c s.counter ≡ (true, n)
      → Step procs s (record s { counter = n; claims = suc s.claims })
  ready :
      (n : ℤ)
      → get_ready_fred s.counter ≡ (true, n)
      → Step procs s (record s { counter = n; claims = suc s.claims })
  wait : (n : ℤ) → get_ready_fred s.counter ≡ (false, n) → Step procs s (record s { counter = n })
  take :
      (p f k : ℕ) (t : Pool)
      → mem p procs ≡ true
      → s.claims ≡ suc k
      → search_local p s.pool ≡ (some f, t)
      → Step procs s (record s { pool = t; claims = k })
  steal :
      (a : Bool) (this v f k : ℕ) (t : Pool)
      → mem v procs ≡ true
      → s.claims ≡ suc k
      → steal_from a this v s.pool ≡ (some f, t)
      → Step procs s (record s { pool = t; claims = k })
  yield :
      (p f : ℕ) (t : Pool)
      → mem p procs ≡ true
      → search_local p s.pool ≡ (some f, t)
      → Step procs s (record s { pool = t; incoming = suc s.incoming })
  yield_global :
      (a : Bool) (this v f : ℕ) (t : Pool)
      → mem v procs ≡ true
      → steal_from a this v s.pool ≡ (some f, t)
      → Step procs s (record s { pool = t; incoming = suc s.incoming })

pub data Reach (procs : List ℕ) : System → Type 0 where
  here :
      (processor priority : ℕ → ℕ) (affinity : ℕ → Bool)
      → Reach procs (init processor priority affinity)
  later : {s t : System} → Reach procs s → Step procs s t → Reach procs t

total-nil : (procs : List ℕ) → total (λ _ _. []) procs ≡ 0
total-nil [] = refl
total-nil (p ∷ ps) = omega (arith, total-nil ps)

module _ (procs : List ℕ) (d : Distinct procs) where
  abbrev Balanced : System → Type 0
  Balanced s = pos_part s.counter + s.claims ≡ total s.pool.ready procs + s.incoming

  Step-Balanced : {s t : System} → Step procs s t → Balanced s → Balanced t
  unfolding add_ready_fred may_get try_get get_ready_fred
  Step-Balanced (announce n e) b = ground (arith, e, b)
  Step-Balanced (handover n e) b = ground (arith, e, b)
  Step-Balanced {s} (put p f k t m e h) b =
      omega (arith, e, total-enqueue_fred procs d p f s.pool t m h)
  Step-Balanced (claim c n e h) b = ground (arith, e, h, b)
  Step-Balanced (ready n e) b = ground (arith, e, b)
  Step-Balanced (wait n e) b = ground (arith, e, b)
  Step-Balanced {s} (take p f k t m e h) b =
      omega (arith, e, total-search_local procs d p f s.pool t m h)
  Step-Balanced {s} (steal a this v f k t m e h) b =
      omega (arith, e, total-steal_from procs d a this v f s.pool t m h)
  Step-Balanced {s} (yield p f t m h) b = omega (arith, total-search_local procs d p f s.pool t m h)
  Step-Balanced {s} (yield_global a this v f t m h) b =
      omega (arith, total-steal_from procs d a this v f s.pool t m h)

  -- In every reachable state the permits in the counter and the processors that hold one are together as
  -- many as the freds in the ready queues and those on their way there.
  pub Reach-Balanced :
      {s : System}
      → Reach procs s
      → pos_part s.counter + s.claims ≡ total s.pool.ready procs + s.incoming
  Reach-Balanced (here processor priority affinity) = rw (total-nil procs) refl
  Reach-Balanced (later r step) = Step-Balanced step (Reach-Balanced r)
