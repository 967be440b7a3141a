-- ===== src/LockedSemaphore/Tests.antt =====
-- The semaphore at concrete inputs, and its theorems there.
use libfibre.Base.{refl, true, false, arith}
use libfibre.Base.Int.{pos}
use libfibre.BlockingQueue.{flag}
use libfibre.LockedSemaphore.{internal_p}
use libfibre.LockedSemaphore.System.{System, init, do_p, do_v, Reach, here, later, enter, post}
use libfibre.LockedSemaphore.Invariant.{Inv, Reach-Inv}
use libfibre.LockedSemaphore.Permits.{Ledger, permits_conserved}

-- One permit: fred 1 takes it, fred 2 waits, and a `V` hands the next permit to fred 2.
abbrev waiting : System
waiting = do_p (flag true) 2 (do_p (flag true) 1 (init (pos 1) 7))

abbrev handed_over : System
handed_over = do_v false true waiting

handed_over-Reach : Reach false (init (pos 1) 7) handed_over
unfolding do_p do_v internal_p
handed_over-Reach =
    later (later (later here (enter 1 (flag true) refl)) (enter 2 (flag true) refl)) (post true)

Reach-Inv_example : Inv false handed_over.sem handed_over.freds
Reach-Inv_example = Reach-Inv {c = pos 1} (omega arith) (λ e. cc) handed_over-Reach

permits_conserved_example : Ledger (pos 1) handed_over
permits_conserved_example = permits_conserved (omega arith) handed_over-Reach
