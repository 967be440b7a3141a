-- ===== src/LockedBarrier/Tests.antt =====
-- A barrier for two, and the theorems there.
use libfibre.Base.{◌≡◌, refl, [], ◌∷◌, ◌==◌, arith, if◌then◌else◌}
use libfibre.Freds.{Freds}
use libfibre.BlockingQueue.Order.{live}
use libfibre.LockedBarrier.{Barrier, wait}
use libfibre.LockedBarrier.Rounds.{Waits, wait-Waits}

-- Fred 16 waits at the barrier with address 8.
abbrev one_waits : Barrier
one_waits = record { target = 2; counter = 1; bq = record { address = 8; queue = 16 ∷ [] } }

abbrev sleeping : Freds
sleeping = record { info = λ f. 0; blocked_on = λ f. if f == 16 then 8 else 0; resumed = [] }

one-Waits : Waits one_waits sleeping
one-Waits = (
  record { distinct = ground arith; nonnull = omega arith; member = λ f. ground arith },
  refl,
  omega arith,
  omega arith,
)

wait-Waits_example :
    let (last, b', w') = wait 32 one_waits sleeping in
    Waits b' w'
    × (last ≡ (2 == 2))
    × (live b'.bq w' ≡ (if last then [] else 16 ∷ 32 ∷ []))
    × (w'.resumed ≡ (if last then 16 ∷ [] else []))
wait-Waits_example = wait-Waits 32 one_waits sleeping one-Waits refl
