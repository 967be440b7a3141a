-- ===== src/Cluster.antt =====
-- Pausing the workers, in class Cluster of src/libfibre/Cluster.cc.
pub mod Pausing
mod Tests
use libfibre.Base.{
  ℕ, zero, suc, ◌-◌, Bool, Option, none, some, ◌>>=◌, List, [], ◌∷◌, ◌++◌, ◌==◌, if◌then◌else◌,
  length,
}

-- The loop of `pause` with fuel, from a processor on: the processors that have got a pause fibre. `next`
-- is the ring. `none`: out of fuel.
unfoldable pub pause_loop : ℕ → (next : ℕ → ℕ) → (current place proc : ℕ) → List ℕ → Option (List ℕ)
pause_loop zero next current place proc made = none
pause_loop (suc n) next current place proc made =
    let made' : List ℕ = if proc == current then made else made ++ proc ∷ [] in
    let rest = pause_loop n next current place (next proc) made' in
    if next proc == place then some made' else rest

-- `pause`, up to the waiting for the confirmations: the pause fibres, and how many confirmations are
-- waited for. `none` if the assertion fails.
unfoldable pub pause : ℕ → (next : ℕ → ℕ) → (current place ring_count : ℕ) → Option (List ℕ × ℕ)
pause n next current place ring_count = pause_loop n next current place place [] >>= λ made.
    if length made == ring_count - 1 then some (made, ring_count - 1) else none

-- `resume`: how often the semaphore of the pause fibres is raised.
unfoldable pub resume_posts : (ring_count : ℕ) → ℕ
resume_posts ring_count = ring_count - 1
