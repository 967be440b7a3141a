-- ===== src/LockedMutex/Tests.antt =====
-- The mutex at concrete inputs, and its theorems there.
use libfibre.Base.{◌≡◌, ◌⊎◌, refl, true, false, [], arith}
use libfibre.BlockingQueue.{flag}
use libfibre.BlockingQueue.Order.{live}
use libfibre.LockedMutex.{internal_acquire, release}
use libfibre.LockedMutex.System.{
  System, init, do_acquire, do_release, Reach, here, later, enter, exit,
}
use libfibre.LockedMutex.Ownership.{mutual_exclusion}
use libfibre.LockedMutex.Wakeup.{Contender, no_lost_wakeup}

-- Fred 1 holds the mutex and fred 2 waits for it.
abbrev contended : System
contended = do_acquire false (flag true) 2 (do_acquire false (flag true) 1 (init 7))

contended-Reach : Reach true (init 7) contended
unfolding do_acquire internal_acquire
contended-Reach =
    later (later here (enter false 1 (flag true) refl refl)) (enter false 2 (flag true) refl refl)

-- Fred 1 has released a mutex that lets others barge in, and fred 2 is awake.
abbrev free : System
free = do_release false 1 contended

free-Reach : Reach false (init 7) free
unfolding do_acquire internal_acquire libfibre.BlockingQueue.block
    libfibre.BlockingQueue.block_enter libfibre.Freds.prepare_race
free-Reach =
    later
      (later (later here (enter false 1 (flag true) refl refl))
        (enter false 2 (flag true) refl refl))
      (exit 1 refl refl)

mutual_exclusion_example : ◌≡◌ {A = libfibre.Base.ℕ} 1 1
unfolding do_acquire internal_acquire libfibre.BlockingQueue.block
    libfibre.BlockingQueue.block_enter libfibre.Freds.prepare_race
mutual_exclusion_example = mutual_exclusion (omega arith) contended-Reach 1 1 refl refl

no_lost_wakeup_example : (live free.mutex.bq free.freds ≡ []) ⊎ Contender free
unfolding do_release release
no_lost_wakeup_example = no_lost_wakeup (omega arith) free-Reach refl
