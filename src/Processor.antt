-- ===== src/Processor.antt =====
-- classes ReadyQueue and BaseProcessor of src/runtime/BaseProcessor.h and src/runtime/BaseProcessor.cc, in
-- builds with TESTING_LOADBALANCING: ready queues by priority, the search of a processor for a fred to run, and the
-- affinity of freds from src/runtime/Fred.h. A dequeue of one ready queue is one atomic step.
pub mod Listing
pub mod Stealing
pub mod Counting
pub mod Tokens
pub mod Search
mod Tests
use libfibre.Base.{
  ℕ, zero, suc, ◌≡◌, Bool, true, false, not, Option, none, some, List, [], ◌∷◌, ◌++◌, ◌==◌, ltb,
  if◌then◌else◌, update,
}

-- `NumPriority`: the priorities are 0, the top, 1, the default, and 2.
abbrev pub num_priority : ℕ
num_priority = 3

-- The freds of each priority. A ready queue's lock-free queues are read as sequences.
abbrev pub ReadyQueue : Type 0
ReadyQueue = ℕ → List ℕ

abbrev taken : List ℕ → ℕ → ReadyQueue → Option ℕ × ReadyQueue → Option ℕ × ReadyQueue
taken [] p q rest = rest
taken (f ∷ fs) p q rest = (some f, update q p fs)

-- The loop of `dequeueInternal`, with the rounds that are left and the priority.
unfoldable pub dequeue_from : (left p : ℕ) → ReadyQueue → Option ℕ × ReadyQueue
dequeue_from zero p q = (none, q)
dequeue_from (suc n) p q = taken (q p) p q (dequeue_from n (suc p) q)

-- `dequeue`
unfoldable pub dequeue : ReadyQueue → Option ℕ × ReadyQueue
unfolding dequeue_from
dequeue q = dequeue_from num_priority 0 q

abbrev pub is_empty {ℓ} : {A : Type ℓ} → List A → Bool
is_empty [] = true
is_empty (x ∷ xs) = false

unfoldable pub probe_from : (left p : ℕ) → ReadyQueue → Bool
probe_from zero p q = false
probe_from (suc n) p q = if not (is_empty (q p)) then true else probe_from n (suc p) q

-- `probe`
unfoldable pub probe : ReadyQueue → Bool
unfolding probe_from
probe q = probe_from num_priority 0 q

-- `tryDequeue`, with what `readyLock.tryAcquire` returns.
unfoldable pub try_dequeue : (acquired : Bool) → ReadyQueue → Option ℕ × ReadyQueue
unfolding dequeue probe
try_dequeue acquired q =
    if not (probe q) then (none, q) else if not acquired then (none, q) else dequeue q

-- `enqueue`, for a fred of the priority; `none` if its assertion fails.
unfoldable pub enqueue : (f priority : ℕ) → ReadyQueue → Option ReadyQueue
enqueue f priority q =
    if ltb priority num_priority then some (update q priority (q priority ++ f ∷ [])) else none

-- The ready queues of the processors, and of each fred its processor, priority and affinity.
pub record Pool : Type 0 where
  pub ready : ℕ → ReadyQueue
  pub processor : ℕ → ℕ
  pub priority : ℕ → ℕ
  pub affinity : ℕ → Bool

abbrev pub set_ready : ℕ → ReadyQueue → Pool → Pool
set_ready p q s = record s { ready = update s.ready p q }

-- `checkAffinity`
unfoldable pub check_affinity : (f p : ℕ) → Pool → Bool × Pool
check_affinity f p s =
    if s.affinity f then (true, s) else (false, record s { processor = update s.processor f p })

-- `enqueueFred`, which is also `enqueueYield`.
unfoldable pub enqueue_fred : (p f : ℕ) → Pool → Option Pool
enqueue_fred p f s = elim (enqueue f (s.priority f) (s.ready p)) [
  | none ↦ none
  | some q ↦ some (set_ready p q s)
]

-- `searchLocal`
unfoldable pub search_local : ℕ → Pool → Option ℕ × Pool
search_local p s = let (f, q) = dequeue (s.ready p) in (f, set_ready p q s)

-- One round of the loop in `searchSteal`, at a victim: what was found, and the pool.
abbrev robbed : (this : ℕ) → Option ℕ → Pool → Option ℕ × Pool
robbed this none s = (none, s)
robbed this (some f) s = (some f, (check_affinity f this s).1)

unfoldable pub steal_from : (acquired : Bool) → (this victim : ℕ) → Pool → Option ℕ × Pool
unfolding check_affinity
steal_from acquired this victim s =
    let (f, q) = try_dequeue acquired (s.ready victim) in robbed this f (set_ready victim q s)

abbrev found : {A : Type 0} → Option ℕ × Pool → A → (Option ℕ × Pool → A) → A
found (none, s) rest done = rest
found (some f, s) rest done = done (some f, s)

-- The loop of `searchSteal` with fuel; `acquired` is what `tryAcquire` returns at each victim, `next` the
-- ring. `none` means that the fuel ran out.
unfoldable pub steal_loop :
    ℕ → (acquired : ℕ → Bool) → (next : ℕ → ℕ) → (this victim : ℕ) → Pool → Option (Option ℕ × Pool)
steal_loop zero acquired next this victim s = none
steal_loop (suc n) acquired next this victim s =
    let r = steal_from (acquired victim) this victim s in
    let rest = steal_loop n acquired next this (next victim) r.1 in
    if victim == this then some (none, s) else found r rest some

-- `searchSteal`
unfoldable pub search_steal :
    ℕ → (acquired : ℕ → Bool) → (next : ℕ → ℕ) → ℕ → Pool → Option (Option ℕ × Pool)
search_steal n acquired next this s = steal_loop n acquired next this (next this) s

-- `searchAll`; `poll` is `RuntimeWorkerPoll`, which may make freds ready.
unfoldable pub search_all :
    ℕ
    → (poll : Pool → Bool × Pool) → (acquired : ℕ → Bool) → (next : ℕ → ℕ) → ℕ
    → Pool
    → Option (Option ℕ × Pool)
search_all n poll acquired next this s =
    let r = search_local this s in
    let (polled, s') = poll r.1 in
    let again = search_local this s' in
    let last = search_steal n acquired next this in
    found r (if polled then found again (last again.1) some else last s') some

-- `scheduleFull`, with what `scheduleNonblocking` returns.
unfoldable pub schedule_full : (next_fred : Option ℕ) → (idle_fred : ℕ) → ℕ
schedule_full none idle_fred = idle_fred
schedule_full (some f) idle_fred = f
