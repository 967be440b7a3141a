-- ===== src/SimpleMutex/Tests.antt =====
-- A fred inside while another sleeps, and the theorems there.
use libfibre.Base.{◌≡◌, refl, false, [], ◌∷◌, ◌++◌, ◌==◌}
use libfibre.Base.Int.{pos, negsuc, pos_part}
use libfibre.Benaphore
use libfibre.LimitedSemaphore
use libfibre.SimpleMutex
use libfibre.SimpleMutex.{
  acquire, System, init, go, idle, holding, pushing, sleeping, popping, Reach, here, later, enter,
  block, push, owing, pop, leave,
}
use libfibre.SimpleMutex.Invariant.{is_holding, is_popping}
use libfibre.SimpleMutex.Holders.{simple_mutex_exclusion}

abbrev inside : System
inside = go 3 holding (record init { counter = pos 0; holders = [] ++ 3 ∷ [] })

abbrev blocked : System
blocked = go 5 pushing (record inside { counter = negsuc 0; pushers = [] ++ 5 ∷ [] })

abbrev asleep : System
asleep = go 5 sleeping (record blocked { queue = [] ++ 5 ∷ []; pushers = [] })

abbrev owed : System
owed = go 3 popping (record asleep { counter = pos 0; holders = []; poppers = [] ++ 3 ∷ [] })

abbrev handed : System
handed = go 3 idle (go 5 holding (record owed { queue = []; holders = [] ++ 5 ∷ []; poppers = [] }))

abbrev free : System
free = go 5 idle (record handed { counter = pos 1; holders = [] })

asleep-Reach : Reach asleep
unfolding acquire Benaphore.p LimitedSemaphore.p
asleep-Reach =
    later (later (later here (enter 3 (pos 0) refl refl)) (block 5 (negsuc 0) refl refl))
      (push 5 refl)

handed-Reach : Reach handed
unfolding SimpleMutex.release Benaphore.v LimitedSemaphore.pop
handed-Reach = later (later asleep-Reach (owing 3 (pos 0) refl refl)) (pop 3 5 [] refl refl)

free-Reach : Reach free
unfolding SimpleMutex.release Benaphore.v
free-Reach = later handed-Reach (leave 5 (pos 1) refl refl)

simple_mutex_exclusion_example :
    (is_holding (handed.pc 3) ≡ (3 == 5))
    × (is_popping (handed.pc 3) ≡ false)
    × (pos_part handed.counter ≡ 0)
simple_mutex_exclusion_example = simple_mutex_exclusion 5 3 handed-Reach refl
