-- ===== src/LockedBarrier/Rounds.antt =====
-- The last fred to arrive lets all others go; a condition is signalled to one fred or to all.
use libfibre.Base.{
  ℕ, zero, suc, ◌+◌, ◌%◌, ◌^◌, ◌≤◌, ◌<◌, ◌≡◌, refl, ap, sym, ◌∙◌, Bool, true, false, ◌&&◌, Option,
  List, [], ◌∷◌, ◌++◌, ◌==◌, arith, if◌then◌else◌, length, length-append, mem, Bool-cases, inl, inr,
}
use mathlib.Core.List.{append-nil, append_assoc}
use libfibre.Freds.{Freds, prepare_race}
use libfibre.BlockingQueue.{BlockingQueue, block_enter, unblock}
use libfibre.BlockingQueue.Order.{live, first, rest, to_list, unblock-live, block_enter-live}
use libfibre.BlockingQueue.Coherence.{IsCoherent, block_enter-IsCoherent, unblock-IsCoherent}
use libfibre.LockedBarrier.{Barrier, open_loop, wait, signal_loop, is_some}

open_step :
    (n : ℕ) (bq : BlockingQueue) (w : Freds)
    → open_loop (suc n) bq w ≡ (let (next, bq', w') = unblock true bq w in open_loop n bq' w')
unfolding open_loop unblock
open_step n bq w = refl

open_base : (bq : BlockingQueue) (w : Freds) → open_loop zero bq w ≡ (bq, w)
unfolding open_loop
open_base bq w = refl

first-rest : (xs : List ℕ) → to_list (first xs) ++ rest xs ≡ xs
first-rest [] = refl
first-rest (x ∷ xs) = refl

length-rest : (xs : List ℕ) (n : ℕ) → length xs ≤ suc n → length (rest xs) ≤ n
length-rest [] n l = omega arith
length-rest (x ∷ xs) n l = omega arith

none_left : (xs : List ℕ) → length xs ≤ 0 → xs ≡ []
none_left [] l = refl
none_left (x ∷ xs) l = absurd (omega arith)

-- What is left of a queue that was emptied, and that all who waited were resumed, in order.
abbrev Opened : (bq bq' : BlockingQueue) → (w w' : Freds) → Type 0
Opened bq bq' w w' = IsCoherent bq' w' × (live bq' w' ≡ []) × (w'.resumed ≡ w.resumed ++ live bq w)

-- One call of `unblock`, and then the rest.
one_more :
    (bq bq' bq'' : BlockingQueue) (w w' w'' : Freds)
    → live bq' w' ≡ rest (live bq w)
    → w'.resumed ≡ w.resumed ++ to_list (first (live bq w))
    → Opened bq' bq'' w' w''
    → Opened bq bq'' w w''
one_more bq bq' bq'' w w' w'' b r (c, e, r') = (
  c,
  e,
  r'
      ∙ ap (λ (xs : List ℕ). xs ++ live bq' w') r
      ∙ ap (λ (xs : List ℕ). (w.resumed ++ to_list (first (live bq w))) ++ xs) b
      ∙ append_assoc w.resumed (to_list (first (live bq w))) (rest (live bq w))
      ∙ ap (λ (xs : List ℕ). w.resumed ++ xs) (first-rest (live bq w)),
)

-- As many calls of `unblock` as freds wait, or more, resume them all.
open_loop_lem :
    (n : ℕ) (bq : BlockingQueue) (w : Freds)
    → IsCoherent bq w
    → length (live bq w) ≤ n
    → let (bq', w') = open_loop n bq w in Opened bq bq' w w'
open_loop_lem zero bq w c l = rw (open_base bq w) (
    let e = none_left (live bq w) l in
    (c, e, sym (append-nil w.resumed) ∙ ap (λ (xs : List ℕ). w.resumed ++ xs) (sym e)))
open_loop_lem (suc n) bq w c l =
    let (next, bq', w') = unblock true bq w in
    let (a, node, race, b, r) = unblock-live true bq w c.distinct c.nonnull in
    let fewer : length (live bq' w') ≤ n =
      omega (arith, ap length b, length-rest (live bq w) n l) in
    rw (open_step n bq w)
      (one_more bq bq' _ w w' _ b r (open_loop_lem n bq' w' (unblock-IsCoherent true bq w c) fewer))

-- The freds that wait are as many as the barrier has counted.
abbrev pub Waits : Barrier → Freds → Type 0
Waits b w =
    IsCoherent b.bq w
    × (length (live b.bq w) ≡ b.counter)
    × (b.counter < b.target)
    × (b.target < 2 ^ 64)

wait_step :
    (f : ℕ) (b : Barrier) (w : Freds)
    → wait f b w ≡ (
        if (b.counter + 1) % 2 ^ 64 == b.target
        then (
          true,
          record b { counter = 0; bq = (open_loop ((b.counter + 1) % 2 ^ 64) b.bq w).0 },
          (open_loop ((b.counter + 1) % 2 ^ 64) b.bq w).1,
        )
        else (
          false,
          record b { counter = (b.counter + 1) % 2 ^ 64; bq = (block_enter f b.bq w).0 },
          (block_enter f b.bq w).1,
        ))
unfolding wait open_loop block_enter
wait_step f b w = refl

block_enter-resumed :
    (f : ℕ) (bq : BlockingQueue) (w : Freds) → (block_enter f bq w).1.resumed ≡ w.resumed
unfolding block_enter prepare_race
block_enter-resumed f bq w = refl

not_queued :
    (f : ℕ) (bq : BlockingQueue) (w : Freds)
    → IsCoherent bq w
    → w.blocked_on f ≡ 0
    → mem f bq.queue ≡ false
not_queued f bq w c free = ground (arith, c.member f, c.nonnull, free)

-- A fred that comes to a barrier and is not the last goes to the end of those that wait. The last one returns
-- true, resumes all that wait, in order and each once, and leaves the barrier empty for the next round.
pub wait-Waits :
    (f : ℕ) (b : Barrier) (w : Freds)
    → Waits b w
    → w.blocked_on f ≡ 0
    → let (last, b', w') = wait f b w in
      Waits b' w'
      × (last ≡ (b.counter + 1 == b.target))
      × (live b'.bq w' ≡ (if last then [] else live b.bq w ++ f ∷ []))
      × (w'.resumed ≡ (if last then w.resumed ++ live b.bq w else w.resumed))
wait-Waits f b w (c, n, l, m) free =
    let same : (b.counter + 1) % 2 ^ 64 ≡ b.counter + 1 = omega (arith, l, m) in
    let (c', e, r) = open_loop_lem (b.counter + 1) b.bq w c (omega (arith, n)) in
    let joined = block_enter-live f b.bq w (not_queued f b.bq w c free) in
    rw (wait_step f b w, same)
      (elim (Bool-cases (b.counter + 1 == b.target)) [
        | inl y ↦ rw y ((c', ap length e, omega (arith, l), m), refl, e, r)
        | inr y ↦ rw y (
          (
            block_enter-IsCoherent f b.bq w c free,
            ap length joined ∙ length-append (live b.bq w) (f ∷ []) ∙ ap (λ (k : ℕ). k + 1) n,
            ground (arith, y, l),
            m,
          ),
          refl,
          joined,
          block_enter-resumed f b.bq w,
        )
      ])

signal_step :
    (n : ℕ) (broadcast : Bool) (bq : BlockingQueue) (w : Freds)
    → signal_loop (suc n) broadcast bq w ≡ (
        if is_some (unblock true bq w).0 && broadcast
        then signal_loop n broadcast (unblock true bq w).1 (unblock true bq w).2
        else ((unblock true bq w).1, (unblock true bq w).2))
unfolding signal_loop unblock
signal_step n broadcast bq w = refl

and_no : (b : Bool) → (b && false) ≡ false
and_no b = ground arith

nobody : (xs : List ℕ) → is_some (first xs) ≡ false → xs ≡ []
nobody [] e = refl
nobody (x ∷ xs) e = absurd (ground (arith, e))

-- No fred waits, and the loop ends.
signal_end :
    (n : ℕ) (bq : BlockingQueue) (w : Freds)
    → IsCoherent bq w
    → (let (next, bq', w') = unblock true bq w in
        (next ≡ first (live bq w))
        × (live bq' w' ≡ rest (live bq w))
        × (w'.resumed ≡ w.resumed ++ to_list (first (live bq w))))
    → live bq w ≡ []
    → let (bq', w') = signal_loop (suc n) true bq w in Opened bq bq' w w'
signal_end n bq w c (a, b, r) e =
    let stop : (is_some (unblock true bq w).0 && true) ≡ false =
      ap (λ (x : Option ℕ). is_some x && true) (a ∙ ap first e) in
    rw (signal_step n true bq w, stop)
      (
        unblock-IsCoherent true bq w c,
        b ∙ ap rest e,
        r
            ∙ ap (λ (xs : List ℕ). w.resumed ++ to_list (first xs)) e
            ∙ ap (λ (xs : List ℕ). w.resumed ++ xs) (sym e),
      )

-- A condition that is signalled without Broadcast resumes the fred that has waited longest, if any, and with
-- Broadcast all that wait, in order, with one round more than freds wait.
pub signal_loop_lem :
    (n : ℕ) (broadcast : Bool) (bq : BlockingQueue) (w : Freds)
    → IsCoherent bq w
    → length (live bq w) ≤ n
    → let (bq', w') = signal_loop (suc n) broadcast bq w in
      IsCoherent bq' w'
      × (live bq' w' ≡ (if broadcast then [] else rest (live bq w)))
      × (w'.resumed ≡ w.resumed ++ (if broadcast then live bq w else to_list (first (live bq w))))
signal_loop_lem n false bq w c l =
    let (a, node, race, b, r) = unblock-live true bq w c.distinct c.nonnull in
    rw (signal_step n false bq w, and_no (is_some (unblock true bq w).0))
      (unblock-IsCoherent true bq w c, b, r)
signal_loop_lem zero true bq w c l =
    let (a, node, race, b, r) = unblock-live true bq w c.distinct c.nonnull in
    signal_end zero bq w c (a, b, r) (none_left (live bq w) l)
signal_loop_lem (suc n) true bq w c l =
    let (next, bq', w') = unblock true bq w in
    let (a, node, race, b, r) = unblock-live true bq w c.distinct c.nonnull in
    elim (Bool-cases (is_some next)) [
      | inl e ↦
          rw (signal_step (suc n) true bq w, e)
            (one_more bq bq' _ w w' _ b r (
              signal_loop_lem n true bq' w' (unblock-IsCoherent true bq w c)
                (omega (arith, ap length b, length-rest (live bq w) n l))))
      | inr e ↦ signal_end (suc n) bq w c (a, b, r) (nobody (live bq w) (sym (ap is_some a) ∙ e))
    ]
