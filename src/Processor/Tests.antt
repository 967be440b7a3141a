-- ===== src/Processor/Tests.antt =====
-- Two processors with freds of several priorities, and the theorems there.
use libfibre.Base.{
  ℕ, ◌≡◌, refl, true, false, not, none, some, [], ◌∷◌, ◌++◌, ◌⊎◌, ltb, update, arith,
}
use libfibre.Base.Int.{pos}
use libfibre.IdleManager.{may_get, try_get, add_ready_fred}
use libfibre.Processor.{
  ReadyQueue, dequeue, probe, enqueue, Pool, enqueue_fred, search_steal, search_all, schedule_full,
}
use libfibre.Processor.Listing.{listing, file, enqueue-listing}
use libfibre.Processor.Listing.{first_fred, others, dequeue-listing}
use libfibre.Processor.Stealing.{loot, is_none, has_open, search_steal-loot}
use libfibre.Processor.Tokens.{System, init, announce, put, claim, Reach, here, later}
use libfibre.Processor.Search.{search_all-finds}

abbrev mixed : ReadyQueue
mixed = update (update (λ _. []) 1 (11 ∷ 12 ∷ [])) 2 (21 ∷ [])

mixed_order : (listing mixed ≡ (1, 11) ∷ (1, 12) ∷ (2, 21) ∷ []) × ((dequeue mixed).0 ≡ some 11)
unfolding dequeue
mixed_order = (refl, refl)

scheduled : (schedule_full (dequeue mixed).0 99 ≡ 11) × (schedule_full none 99 ≡ 99)
unfolding schedule_full dequeue
scheduled = (refl, refl)

enqueue-listing_example :
    (enqueue 7 1 mixed ≡ none) × (ltb 1 3 ≡ false)
    ⊎ ((q : ReadyQueue) × (enqueue 7 1 mixed ≡ some q) × (listing q ≡ file 1 7 (listing mixed)))
enqueue-listing_example = enqueue-listing 7 1 mixed

dequeue-listing_example :
    ((dequeue mixed).0 ≡ first_fred (listing mixed))
    × (listing (dequeue mixed).1 ≡ others (listing mixed))
    × (probe mixed ≡ not false)
dequeue-listing_example = dequeue-listing mixed

abbrev on_second : Pool
on_second = record {
  ready = update (λ _ _. []) 2 mixed;
  processor = λ _. 2;
  priority = λ _. 1;
  affinity = λ _. false;
}

search_steal-loot_example :
    (search_steal 2 (λ _. true) (update (λ _. 1) 1 2) 1 on_second
      ≡ some (loot (λ _. true) 1 (2 ∷ []) on_second))
    × (is_none (loot (λ _. true) 1 (2 ∷ []) on_second).0
        ≡ not (has_open (λ _. true) on_second (2 ∷ [])))
search_steal-loot_example =
    search_steal-loot (λ _. true) 1 (update (λ _. 1) 1 2) (2 ∷ []) on_second (refl, refl, refl)

-- A fred has been made ready on the second processor, and the first one has claimed a permit.
abbrev start : System
start = init (λ _. 2) (λ _. 1) (λ _. false)

abbrev claimed : System
claimed = record {
  pool = record (start.pool) { ready = update (λ _ _. []) 2 (update (λ _. []) 1 ([] ++ 7 ∷ [])) };
  counter = pos 0;
  claims = 1;
  incoming = 0;
}

claimed-Reach : Reach (1 ∷ 2 ∷ []) claimed
unfolding add_ready_fred may_get try_get enqueue_fred enqueue
claimed-Reach =
    later
      (later (later (here (λ _. 2) (λ _. 1) (λ _. false)) (announce (pos 1) refl))
        (put 2 7 0 claimed.pool refl refl refl))
      (claim (pos 1) (pos 0) refl refl)

search_all-finds_example :
    (f : ℕ) × (t : Pool) × (search_all 2
        (λ t. (false, t))
        (λ _. true)
        (update (λ _. 1) 1 2)
        1
        claimed.pool
      ≡ some (some f, t))
search_all-finds_example =
    search_all-finds (update (λ _. 1) 1 2) 1 (2 ∷ []) (refl, (refl, tt)) (refl, refl, refl)
      claimed-Reach (omega arith) refl
