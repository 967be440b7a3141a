-- ===== src/FastMutex/Tests.antt =====
-- A run of two freds, the second of which sleeps and is woken, and the theorems there.
use libfibre.Base.{ℕ, ◌≡◌, refl, true, false, some, [], ◌∷◌, ◌++◌, arith}
use libfibre.Base.Int.{pos, negsuc}
use libfibre.Benaphore
use libfibre.Benaphore.{v_round}
use libfibre.LimitedSemaphore
use libfibre.LockedSemaphore.{semaphore_was_open, semaphore_timeout}
use libfibre.FastMutex.{p, try_p, try_lock, internal_acquire}
use libfibre.FastMutex
use libfibre.FastMutex.Spinning.{spin_loop, start, after_failure}
use libfibre.FastMutex.Invariant.{is_sleeping, is_pushing}
use libfibre.FastMutex.Wakeup.{is_moving, fast_mutex_exclusion, fast_mutex_wakeup}
use libfibre.FastMutex.System.{
  System, init, go, spinning, paying, retrying, holding, pushing, sleeping, posting, popping, idle,
  Reach, here, later, enter, give_up, pay, retry, block, push, release, again, owing, pop, stored,
}

-- Four, eight, then two rounds of sixteen pauses, and no attempt has got the lock.
spun_out : spin_loop 16 2 0 5 (λ _. false) 0 (start 16 2 0 4) ≡ some false
unfolding spin_loop start after_failure
spun_out = refl

tried :
    (try_p (pos 1) (pos 1) ≡ (semaphore_was_open, pos 0))
    × (try_p (pos 0) (pos 0) ≡ (semaphore_timeout, pos 0))
unfolding try_p Benaphore.may_try Benaphore.try_p
tried = (refl, refl)

abbrev s1 : System
s1 = go 3 spinning init

abbrev s2 : System
s2 = go 3 paying s1

abbrev s3 : System
s3 = go 3 retrying (record s2 { counter = pos 0 })

abbrev s4 : System
s4 = go 3 holding (record s3 { owner = 3 })

abbrev s5 : System
s5 = go 5 spinning s4

abbrev s6 : System
s6 = go 5 paying s5

abbrev s7 : System
s7 = go 5 pushing (record s6 { counter = negsuc 0; pushers = [] ++ 5 ∷ [] })

abbrev s8 : System
s8 = go 5 sleeping (record s7 { queue = [] ++ 5 ∷ []; pushers = [] })

abbrev s9 : System
s9 = go 3 (posting (pos 0)) (record s8 { owner = 0 })

abbrev s10 : System
s10 = go 3 (posting (negsuc 0)) s9

abbrev s11 : System
s11 = go 3 popping (record s10 { counter = pos 0; poppers = [] ++ 3 ∷ [] })

abbrev s12 : System
s12 = go 3 idle (go 5 retrying (record s11 { queue = []; poppers = [] }))

abbrev s13 : System
s13 = go 5 holding (record s12 { owner = 5 })

abbrev s14 : System
s14 = go 5 (posting (pos 0)) (record s13 { owner = 0 })

abbrev s15 : System
s15 = go 5 idle (record s14 { counter = pos 1 })

second_sleeps : Reach s8
unfolding internal_acquire p Benaphore.p try_lock LimitedSemaphore.p
second_sleeps =
    later
      (later
        (later
          (later
            (later
              (later (later (later here (enter 3 0 refl (omega arith) refl)) (give_up 3 refl))
                (pay 3 semaphore_was_open (pos 0) refl refl))
              (retry 3 3 true refl refl))
            (enter 5 3 refl (omega arith) refl))
          (give_up 5 refl))
        (block 5 (negsuc 0) refl refl))
      (push 5 refl)

first_pops : Reach s11
unfolding FastMutex.release v_round
first_pops =
    later
      (later (later second_sleeps (release 3 0 refl refl))
        (again 3 (pos 0) (negsuc 0) (negsuc 0) refl refl))
      (owing 3 (negsuc 0) (pos 0) refl refl)

all_done : Reach s15
unfolding LimitedSemaphore.pop FastMutex.release v_round try_lock
all_done =
    later
      (later (later (later first_pops (pop 3 5 [] refl refl)) (retry 5 5 true refl refl))
        (release 5 0 refl refl))
      (stored 5 (pos 0) (pos 1) refl refl)

abbrev inside : ℕ
inside = 3

fast_mutex_exclusion_example : (inside ≡ inside) × (s8.owner ≡ inside)
fast_mutex_exclusion_example = fast_mutex_exclusion inside inside second_sleeps refl refl

at_rest : (g : ℕ) → is_moving (s15.pc g) ≡ false
at_rest g = ground arith

fast_mutex_wakeup_example :
    (s15.counter ≡ pos 1) × (is_sleeping (s15.pc 5) ≡ false) × (is_pushing (s15.pc 5) ≡ false)
fast_mutex_wakeup_example = fast_mutex_wakeup 5 all_done refl at_rest
