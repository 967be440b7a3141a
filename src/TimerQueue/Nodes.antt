-- ===== src/TimerQueue/Nodes.antt =====
-- The node of a fred is in the queue exactly until the timer or the fred itself has taken it out.
use libfibre.Base.{
  ℕ, ◌≡◌, ◌≢◌, refl, sym, ◌∙◌, Option, some, Bool, true, false, not, ◌&&◌, ◌||◌, List, [], ◌∷◌,
  ◌==◌, if◌then◌else◌, update, arith, Bool-cases, inl, inr,
}
use libfibre.Time.{Time, lt}
use libfibre.Freds.{Freds, prepare_race, race_resume, resume}
use libfibre.TimerQueue.{Entry, Timers, enqueue, erase, check_loop, check_expiry, block_leave}
use libfibre.TimerQueue.Order.{
  IsSorted, IsOnce, holds, insert-IsSorted, holds-insert, insert-IsOnce, others, others-IsSorted,
  others-IsOnce, others_same, holds-others, take_out_lem,
}
use libfibre.TimerQueue.Expiry.{check_loop_stop, check_loop_won, check_loop_lost}
use libfibre.TimerQueue.System.{
  System, other, Step, block, race, fire, check, leave, Reach, here, later,
}

-- What the queue, the flag of the node and the race say of one fred.
abbrev pub is_tracked : (q : ℕ) (waiting queued expired : Bool) (info : ℕ) → Bool
is_tracked q waiting queued expired info =
    if queued
    then waiting && (not expired && not (info == q))
    else not waiting || ((info == q) || (expired && not (info == 0)))

abbrev Tracks : ℕ → Bool → ℕ → List Entry → Timers → Freds → Type 0
Tracks q waiting f es t w = is_tracked q waiting (holds f es) (t.expired f) (w.info f) ≡ true

abbrev Kept : ℕ → Bool → ℕ → Timers × Freds → Type 0
Kept q waiting f r =
    (r.0.address ≡ q) × IsSorted r.0.queue × IsOnce r.0.queue × Tracks q waiting f r.0.queue r.0 r.1

module _ (now : Time) (waiting : Bool) (f : ℕ) where
  check_loop-Kept :
      (es : List Entry) (t : Timers) (w : Freds)
      → IsSorted es
      → IsOnce es
      → Tracks t.address waiting f es t w
      → t.address ≢ 0
      → Kept t.address waiting f (check_loop now es t w)
  unfolding check_loop
  check_loop-Kept [] t w s o h z = (refl, tt, tt, h)
  check_loop-Kept (e ∷ es) t w s o h z = elim (Bool-cases (lt now e.time)) [
    | inl p ↦ rw (check_loop_stop now e es t w p) (refl, s, o, h)
    | inr p ↦ elim (Bool-cases (w.info e.fred == 0)) [
      | inl q ↦
          rw (check_loop_won now e es t w p q)
            (check_loop-Kept es t _ s.1 o.1 (ground (arith, h, o.0, q)) z)
      | inr q ↦ rw (check_loop_lost now e es t w p q) (
          check_loop-Kept es (record t { expired = update t.expired e.fred true }) w s.1 o.1
            (ground (arith, h, o.0, q)) z)
    ]
  ]

  check_expiry-Kept :
      (q : ℕ) (t : Timers) (w : Freds)
      → t.address ≡ q
      → IsSorted t.queue
      → IsOnce t.queue
      → Tracks q waiting f t.queue t w
      → q ≢ 0
      → Kept q waiting f (check_expiry now t w)
  unfolding check_expiry
  check_expiry-Kept q t w a s o h z =
      rw (← a) (check_loop-Kept t.queue t w s o (rw a h) (λ k. z (ground (arith, k, a))))

pub record Inv (q : ℕ) (s : System) : Type 0 where
  pub address : s.timers.address ≡ q
  pub sorted : IsSorted s.timers.queue
  pub once : IsOnce s.timers.queue
  pub tracks : (f : ℕ) → Tracks q (s.waiting f) f s.timers.queue s.timers s.freds

-- A fred outside `blockTimeout` has no node in the queue.
absent :
    (q : ℕ) (waiting : Bool) (f : ℕ) (es : List Entry) (t : Timers) (w : Freds)
    → waiting ≡ false
    → Tracks q waiting f es t w
    → holds f es ≡ false
absent q waiting f es t w e h = ground (arith, h)

enqueue-Tracks :
    (q : ℕ) (waiting : ℕ → Bool) (n : Entry) (t : Timers) (w : Freds)
    → q ≢ 0
    → ((g : ℕ) → Tracks q (waiting g) g t.queue t w)
    → (g : ℕ)
    → Tracks q
        (update waiting n.fred true g)
        g
        (enqueue n t).queue
        (enqueue n t)
        (prepare_race n.fred w)
unfolding enqueue prepare_race
enqueue-Tracks q waiting n t w z h g = ground (arith, h g, holds-insert g n t.queue)

race-Tracks :
    (q : ℕ) (waiting : Bool) (f m : ℕ) (t : Timers) (w : Freds) (g : ℕ)
    → q ≢ 0
    → m ≢ 0
    → m ≢ q
    → Tracks q waiting g t.queue t w
    → Tracks q waiting g t.queue t (other f m w)
unfolding other race_resume resume
race-Tracks q waiting f m t w g z a b h = ground (arith, h)

-- What `blockTimeout` does once the fred is resumed.
pub block_leave_lem :
    (q f : ℕ) (waiting : Bool) (t : Timers) (w : Freds)
    → t.address ≡ q
    → IsOnce t.queue
    → waiting ≡ true
    → w.info f ≢ 0
    → Tracks q waiting f t.queue t w
    → block_leave f t w
      ≡ some (if w.info f == q then 0 else w.info f, record t { queue = others f t.queue })
unfolding block_leave erase
block_leave_lem q f waiting t w a o p z h = elim (Bool-cases (holds f t.queue)) [
  | inl k ↦
      let won : (w.info f == t.address) ≡ false = ground (arith, h, k, a) in
      let lost : (w.info f == q) ≡ false = ground (arith, h, k) in
      let early : t.expired f ≡ false = ground (arith, h, k) in
      rw (won, lost, early, take_out_lem f t.queue o k) refl
  | inr k ↦ rw (others_same f t.queue k) (elim (Bool-cases (w.info f == q)) [
    | inl c ↦ let won : (w.info f == t.address) ≡ true = ground (arith, c, a) in rw (won, c) refl
    | inr c ↦
        let lost : (w.info f == t.address) ≡ false = ground (arith, c, a) in
        let late : t.expired f ≡ true = ground (arith, h, k, p, c) in rw (lost, c, late) refl
  ])
]

leave-Tracks :
    (q : ℕ) (waiting : ℕ → Bool) (f : ℕ) (t : Timers) (w : Freds)
    → ((g : ℕ) → Tracks q (waiting g) g t.queue t w)
    → (g : ℕ) → Tracks q (update waiting f false g) g (others f t.queue) t w
leave-Tracks q waiting f t w h g = ground (arith, h g, holds-others f g t.queue)

pub block_leave_timers :
    {a b : ℕ} {t u : Timers} → Path (Option (ℕ × Timers)) (some (a, t)) (some (b, u)) → t ≡ u
block_leave_timers k = cc

-- Such a return keeps the invariant.
leave-Inv :
    (q f winner : ℕ) {s : System} (t : Timers)
    → Inv q s
    → s.waiting f ≡ true
    → s.freds.info f ≢ 0
    → block_leave f s.timers s.freds ≡ some (winner, t)
    → Inv q (record s { timers = t; waiting = update s.waiting f false })
leave-Inv q f winner {s} t v e p h =
    let here =
      block_leave_lem q f (s.waiting f) s.timers s.freds v.address v.once e p (v.tracks f) in
    let same : t ≡ record (s.timers) { queue = others f s.timers.queue } =
      block_leave_timers (sym h ∙ here) in
    rw same record {
      address = v.address;
      sorted = others-IsSorted f s.timers.queue v.sorted;
      once = others-IsOnce f s.timers.queue v.once;
      tracks = leave-Tracks q s.waiting f s.timers s.freds v.tracks;
    }

Step-Inv : (q : ℕ) → q ≢ 0 → {s t : System} → Step s t → Inv q s → Inv q t
unfolding enqueue check_expiry
Step-Inv q z {s} (block f t e) v = record {
  address = v.address;
  sorted = insert-IsSorted (record { time = t; fred = f }) s.timers.queue v.sorted;
  once =
      insert-IsOnce (record { time = t; fred = f }) s.timers.queue
        (absent q (s.waiting f) f s.timers.queue s.timers s.freds e (v.tracks f)) v.once;
  tracks = enqueue-Tracks q s.waiting (record { time = t; fred = f }) s.timers s.freds z v.tracks;
}
Step-Inv q z {s} (race f m a b) v = record {
  address = v.address;
  sorted = v.sorted;
  once = v.once;
  tracks = λ g.
      race-Tracks q (s.waiting g) f m s.timers s.freds g z a (λ k. b (ground (arith, k, v.address)))
        (v.tracks g);
}
Step-Inv q z {s} (fire t e) v = record {
  address = v.address;
  sorted = v.sorted;
  once = v.once;
  tracks = v.tracks;
}
Step-Inv q z {s} (check now n e) v =
    let all : (f : ℕ) → Kept q (s.waiting f) f (check_expiry now s.timers s.freds) = λ f.
      check_expiry-Kept now (s.waiting f) f q s.timers s.freds v.address v.sorted v.once
        (v.tracks f) z in
    record { address = (all 0).0; sorted = (all 0).1; once = (all 0).2; tracks = λ f. (all f).3 }
Step-Inv q z {s} (leave f winner t e p h) v = leave-Inv q f winner t v e p h

pub Reach-Inv : (q : ℕ) → q ≢ 0 → {s : System} → Reach q s → Inv q s
Reach-Inv q z here = record { address = refl; sorted = tt; once = tt; tracks = λ f. refl }
Reach-Inv q z (later r step) = Step-Inv q z step (Reach-Inv q z r)

-- A fred that returns from `blockTimeout` in a reachable state never erases an element that is not in the
-- queue. It returns 0 if the timer won its race and the winner's message otherwise; afterwards the queue has
-- the elements of the other freds, in their order, and nothing else has changed.
pub block_leave-handle :
    (q : ℕ) {s : System} (f : ℕ)
    → q ≢ 0
    → Reach q s
    → s.waiting f ≡ true
    → s.freds.info f ≢ 0
    → block_leave f s.timers s.freds
      ≡ some (
        if s.freds.info f == q then 0 else s.freds.info f,
        record (s.timers) { queue = others f s.timers.queue },
      )
block_leave-handle q {s} f z r e p =
    let v = Reach-Inv q z r in
    block_leave_lem q f (s.waiting f) s.timers s.freds v.address v.once e p (v.tracks f)
