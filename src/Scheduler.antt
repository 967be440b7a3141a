-- ===== src/Scheduler.antt =====
-- class Scheduler of src/runtime/Scheduler.h: the ring of a scheduler's processors, and the placement of
-- new freds on them. Each function runs under `ringLock`.
pub mod Placement
mod Tests
use libfibre.Base.{ℕ, ◌+◌, ◌-◌, ◌%◌, ◌^◌, false, Option, none, some, ◌>>=◌, ◌==◌, if◌then◌else◌}
use libfibre.Container.Ring.{Links, close}
use libfibre.Container.Ring

-- `place_proc` is 0 for null; `links` are the processors' links in the ring.
pub record Scheduler : Type 0 where
  pub ring_count : ℕ
  pub place_proc : ℕ
  pub links : Links

-- `addProcessor`; `none` if an assertion fails, as below.
unfoldable pub add_processor : ℕ → Scheduler → Option Scheduler
unfolding close
add_processor proc s =
    if s.place_proc == 0
    then some (record {
      ring_count = (s.ring_count + 1) % 2 ^ 64;
      place_proc = proc;
      links = close proc proc s.links;
    })
    else (Ring.insert_after false s.place_proc proc proc s.links >>= λ h.
        some (record s { ring_count = (s.ring_count + 1) % 2 ^ 64; links = h }))

-- `removeProcessor`
unfoldable pub remove_processor : ℕ → Scheduler → Option Scheduler
remove_processor proc s =
    if s.place_proc == 0
    then none
    else (let moved : ℕ =
          if s.place_proc == proc then s.links.next s.place_proc else s.place_proc in
        Ring.remove proc proc s.links >>= λ r. some (record {
          ring_count = (s.ring_count + 2 ^ 64 - 1) % 2 ^ 64;
          place_proc = if moved == proc then 0 else moved;
          links = r.1;
        }))

-- `placement`
unfoldable pub placement : Scheduler → Option (ℕ × Scheduler)
placement s =
    if s.place_proc == 0
    then none
    else (let next : ℕ = s.links.next s.place_proc in some (next, record s { place_proc = next }))
