-- ===== src/TimerQueue/Watch.antt =====
-- The timer is armed in time for the first element of the queue.
use libfibre.Base.{
  ℕ, ◌≡◌, ◌≢◌, refl, sym, ◌∙◌, Bool, true, false, not, ◌||◌, Option, none, some, List, [], ◌∷◌,
  ◌==◌, if◌then◌else◌, ltb, arith, Bool-cases, inl, inr,
}
use libfibre.Time.{Time, lt}
use libfibre.Freds.{Freds}
use libfibre.TimerQueue.{
  Entry, Timers, insert, is_first, enqueue, check_loop, check_expiry, block_leave,
}
use libfibre.TimerQueue.Order.{Later, Later-trans, Later-others, IsSorted, others}
use libfibre.TimerQueue.Expiry.{check_loop_stop, check_loop_won, check_loop_lost}
use libfibre.TimerQueue.Nodes.{Inv, Reach-Inv, block_leave_lem, block_leave_timers}
use libfibre.TimerQueue.System.{System, Step, block, race, fire, check, leave, Reach, here, later}

-- The timer is armed, and not for a time after the first element's.
abbrev pub is_timely : Option Time → List Entry → Bool
is_timely armed [] = true
is_timely none (e ∷ es) = false
is_timely (some t) (e ∷ es) = not (lt e.time t)

abbrev IsWatched : System → Type 0
IsWatched s = (ltb 0 s.pending || is_timely s.timers.armed s.timers.queue) ≡ true

lt_irrefl : (t : Time) → lt t t ≡ false
unfolding lt
lt_irrefl t = ground arith

first_decides :
    (armed : Option Time) (e : Entry) (xs ys : List Entry)
    → is_timely armed (e ∷ xs) ≡ is_timely armed (e ∷ ys)
first_decides none e xs ys = refl
first_decides (some t) e xs ys = refl

insert_timely :
    (n : Entry) (es : List Entry) (armed : Option Time) (b : Bool)
    → (b || is_timely armed es) ≡ true
    → (b || is_timely (if is_first n es then some n.time else armed) (insert n es)) ≡ true
unfolding insert is_first
insert_timely n [] armed b h = rw (lt_irrefl n.time) (ground arith)
insert_timely n (e ∷ es) armed b h = elim (Bool-cases (lt n.time e.time)) [
  | inl p ↦ rw (p, lt_irrefl n.time) (ground arith)
  | inr p ↦ rw (p, first_decides armed e (insert n es) es) h
]

enqueue_timely :
    (n : Entry) (t : Timers) (b : Bool)
    → (b || is_timely t.armed t.queue) ≡ true
    → (b || is_timely (enqueue n t).armed (enqueue n t).queue) ≡ true
unfolding enqueue
enqueue_timely n t b h = insert_timely n t.queue t.armed b h

timely_of_Later : (t : Time) (es : List Entry) → Later t es → is_timely (some t) es ≡ true
timely_of_Later t [] l = refl
timely_of_Later t (e ∷ es) l = rw l.0 refl

-- An element that is taken out leaves no earlier one behind.
others_timely :
    (armed : Option Time) (f : ℕ) (es : List Entry)
    → IsSorted es
    → is_timely armed es ≡ true
    → is_timely armed (others f es) ≡ true
others_timely armed f [] s h = refl
others_timely none f (e ∷ es) s h = cc
others_timely (some t) f (e ∷ es) s h =
    let early : lt e.time t ≡ false = ground (arith, h) in
    timely_of_Later t (others f (e ∷ es))
      (Later-others t f (e ∷ es) (early, Later-trans t e.time es early s.0))

check_loop_timely :
    (now : Time) (es : List Entry) (t : Timers) (w : Freds)
    → is_timely (check_loop now es t w).0.armed (check_loop now es t w).0.queue ≡ true
unfolding check_loop
check_loop_timely now [] t w = refl
check_loop_timely now (e ∷ es) t w = elim (Bool-cases (lt now e.time)) [
  | inl p ↦ rw (check_loop_stop now e es t w p, lt_irrefl e.time) refl
  | inr p ↦ elim (Bool-cases (w.info e.fred == 0)) [
    | inl q ↦ rw (check_loop_won now e es t w p q) (check_loop_timely now es t _)
    | inr q ↦
        rw (check_loop_lost now e es t w p q)
          (check_loop_timely now es (record t { expired = _ }) w)
  ]
]

leave_timely :
    {q : ℕ} {s : System} (f winner : ℕ) (t : Timers)
    → Inv q s
    → s.waiting f ≡ true
    → s.freds.info f ≢ 0
    → block_leave f s.timers s.freds ≡ some (winner, t)
    → IsWatched s
    → (ltb 0 s.pending || is_timely t.armed t.queue) ≡ true
leave_timely {q} {s} f winner t v e p k h =
    let same =
      block_leave_lem q f (s.waiting f) s.timers s.freds v.address v.once e p (v.tracks f) in
    rw (block_leave_timers (sym k ∙ same))
      (ground (arith, h, others_timely s.timers.armed f s.timers.queue v.sorted))

Step-IsWatched : {q : ℕ} {s t : System} → Step s t → Inv q s → IsWatched s → IsWatched t
unfolding check_expiry
Step-IsWatched {s = s} (block f t e) v h =
    enqueue_timely (record { time = t; fred = f }) s.timers (ltb 0 s.pending) h
Step-IsWatched (race f m a b) v h = h
Step-IsWatched (fire t e) v h = ground arith
Step-IsWatched {s = s} (check now n e) v h =
    ground (arith, check_loop_timely now s.timers.queue s.timers s.freds)
Step-IsWatched {s = s} (leave f winner t e p k) v h = leave_timely f winner t v e p k h

-- In every reachable state in which a fred waits for its timeout, the timer is armed for a time that is
-- not after the first element's, or it has gone off and a check is to come: no timeout is lost.
pub Reach-IsWatched :
    (q : ℕ) {s : System}
    → (q == 0) ≡ false
    → Reach q s
    → (ltb 0 s.pending || is_timely s.timers.armed s.timers.queue) ≡ true
Reach-IsWatched q z here = refl
Reach-IsWatched q z (later r step) =
    Step-IsWatched step (Reach-Inv q (λ e. ground (arith, z, e)) r) (Reach-IsWatched q z r)
