-- ===== src/GoManager/Tests.antt =====
-- The only processor halts, and a call of `unblock` takes it out of the list.
use libfibre.Base.{ℕ, ◌≡◌, refl, true, false, none, [], ◌∷◌, update, mem, inl, arith}
use libfibre.GoManager.{
  inc_spinning, dec_spinning, inc_waiting, block, is_own, unblock_round, unblock_spin,
}
use libfibre.GoManager.Counting.{has}
use libfibre.GoManager.Moves.{will_look}
use libfibre.GoManager.Waking.{Reach-awake}
use libfibre.GoManager.System.{
  spins, waits, doing, spun, blocking, halted, leaving, passed, System, init, go, queue, enter, put,
  fail, spin, stop, wait, find_none, halt, choose, Reach, here, later,
}

abbrev searched : System
unfolding passed
searched = go 1 (doing (passed 1 (waits (λ _. false)))) (
    go 1 (doing (waits (λ _. false))) (
      go 1 spun (
        go 1 (doing spins) (record init {
          manager = record {
            spin_counter = 0;
            wait_counter = 1;
            waiting_procs = [];
            halting = λ _. false;
          };
        }))))

searched-Reach : Reach (1 ∷ []) searched
unfolding inc_spinning dec_spinning inc_waiting passed searched
searched-Reach =
    later (later (later (later here (spin 1 refl refl)) (stop 1 refl refl)) (wait 1 refl refl))
      (fail 1 1 (waits (λ _. false)) refl refl (inl refl))

abbrev asleep : System
unfolding block searched
asleep = go 1 halted (record (go 1 blocking searched) { manager = block 1 searched.manager })

asleep-Reach : Reach (1 ∷ []) asleep
unfolding block passed searched asleep
asleep-Reach =
    later (later searched-Reach (find_none 1 (update (λ _. false) 1 true) refl refl seen_all))
      (halt 1 refl refl)
  where
    seen_all : (q : ℕ) → mem q (1 ∷ []) ≡ true → update (λ _. false) 1 true q ≡ true
    seen_all q z = ground (arith, z)

-- A fred is put in, and the caller of `unblock` takes the processor out of the list.
abbrev taken_out : System
unfolding block searched asleep
taken_out =
    go 1 leaving (record (queue 1 1 false (record asleep { lock = update (λ _. false) 1 true })) {
      manager = record {
        spin_counter = 0;
        wait_counter = 1;
        waiting_procs = [];
        halting = update (update (λ _. false) 1 true) 1 false;
      };
      unblockers = 0;
    })

taken_out-Reach : Reach (1 ∷ []) taken_out
unfolding unblock_round is_own block searched asleep taken_out
taken_out-Reach =
    later (later (later asleep-Reach (enter 1 refl refl)) (put 1 refl refl))
      (choose 0 1 true none taken_out.manager refl refl)

-- The last processor that stops spinning as it has found a fred calls `unblock`.
last_spinner : (unblock_spin (inc_spinning init.manager)).0 ≡ true
unfolding unblock_spin inc_spinning
last_spinner = refl

Reach-awake_example : has (will_look 1) taken_out.pc (1 ∷ []) ≡ true
unfolding taken_out asleep searched
Reach-awake_example =
    Reach-awake (1 ∷ []) (refl, tt) (omega arith) (omega arith) 1 taken_out-Reach refl refl refl
      (omega arith)
