-- ===== src/SpinCondMutex/Tests.antt =====
-- Two freds at one SpinCondMutex, and the theorems there.
use libfibre.Base.{ℕ, ◌≡◌, ◌⊎◌, ◌&&◌, not, refl, true, false, some, [], arith, ◌==◌}
use libfibre.BlockingQueue.{flag}
use libfibre.BlockingQueue.Order.{live}
use libfibre.SpinCondMutex.{
  trying, holding, is_fred, start, try_lock1, after_try1, try_lock2, after_try2, write_owner, ask,
  park,
}
use libfibre.SpinCondMutex.System.{
  System, init, goes, do_try1, do_try2, do_ask, do_park, Reach, here, later, starts, tries, swaps,
  owns, asks, parks,
}
use libfibre.SpinCondMutex.Exclusion.{has, holds}
use libfibre.SpinCondMutex.Holder.{cond_mutex_exclusion}
use libfibre.SpinCondMutex.Wakeup.{pusher}
use libfibre.SpinCondMutex.Watching.{cond_mutex_wakeup}

-- Fred 16 holds the mutex.
abbrev held : System
unfolding try_lock1 after_try1 write_owner
held =
    let s1 : System = goes 16 (trying false) (init 8).mutex (init 8).freds (init 8) in
    let s2 : System = do_try1 false false 16 s1 in
    goes 16 holding (write_owner (some 16) s2.mutex) s2.freds s2

held-Reach : Reach (init 8) held
unfolding start try_lock1 after_try1 write_owner held
held-Reach =
    later
      (later (later here (starts false (flag true) 16 (trying false) refl refl))
        (tries false false 16 refl))
      (owns 16 refl)

-- Fred 32 has seen the value 2 and sleeps.
abbrev contended : System
unfolding try_lock1 after_try1 try_lock2 after_try2 write_owner ask park held
contended =
    let s1 : System = goes 32 (trying false) held.mutex held.freds held in
    do_park (flag true) 32 (do_ask 32 (do_try2 false 32 (do_try1 false false 32 s1)))

contended-Reach : Reach (init 8) contended
unfolding start try_lock1 after_try1 try_lock2 after_try2 write_owner ask park held contended
contended-Reach =
    later
      (later
        (later
          (later (later held-Reach (starts false (flag true) 32 (trying false) refl refl))
            (tries false false 32 refl))
          (swaps false 32 refl))
        (asks 32 refl refl))
      (parks (flag true) 32 refl)

cond_mutex_exclusion_example :
    ((has (contended.phase 16) && (has (contended.phase 32) && not (32 == 16))) ≡ false)
    × ((has (contended.phase 16) && (contended.mutex.value == 0)) ≡ false)
    × ((contended.mutex.value ≡ 0) ⊎ ((h : ℕ) × (has (contended.phase h) ≡ true)))
    × (is_fred contended.mutex.owner 32 ≡ holds (contended.phase 32))
cond_mutex_exclusion_example = cond_mutex_exclusion 16 32 contended-Reach

cond_mutex_wakeup_example :
    (live contended.mutex.queue contended.freds ≡ [])
    ⊎ ((contended.mutex.value ≡ 2) ⊎ ((g : ℕ) × (pusher contended g ≡ true)))
cond_mutex_wakeup_example = cond_mutex_wakeup (omega arith) contended-Reach
