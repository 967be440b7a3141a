-- ===== src/BlockingQueue/Tests.antt =====
-- The queue at concrete inputs, and its theorems there.
use libfibre.Base.{◌≡◌, refl, some, [], ◌∷◌, ◌==◌, if◌then◌else◌, true, arith}
use libfibre.Freds.{Freds}
use libfibre.BlockingQueue.Defs.{BlockingQueue, unblock}
use libfibre.BlockingQueue.Order.{without, decided, live, unblock-live}

-- Freds 4, 5 and 6 wait; the timer at 9 has won the race of fred 4.
abbrev three : BlockingQueue
three = record { address = 7; queue = 4 ∷ 5 ∷ 6 ∷ [] }

abbrev freds : Freds
freds = record {
  info = λ f. if f == 4 then 9 else 0;
  blocked_on = λ f. if f == 0 then 0 else 7;
  resumed = [];
}

unblock-live_example :
    ((unblock true three freds).0 ≡ some 5)
    × ((unblock true three freds).1
        ≡ record three { queue = without (unblock true three freds).0 three.queue })
    × ((unblock true three freds).2.info ≡ decided 7 (unblock true three freds).0 freds.info)
    × (live (unblock true three freds).1 (unblock true three freds).2 ≡ 6 ∷ [])
    × ((unblock true three freds).2.resumed ≡ 5 ∷ [])
unblock-live_example = unblock-live true three freds (refl, (refl, (refl, tt))) (omega arith)
