-- ===== src/LimitedSemaphore/Tests.antt =====
-- Two freds wait, and one of them gets the permit.
use libfibre.Base.{◌≡◌, refl, true, false, none, some, [], ◌∷◌}
use libfibre.Freds.{Freds, resume}
use libfibre.LimitedSemaphore.{p, pop, try_v}

abbrev at_start : Freds
at_start = record { info = λ _. 0; blocked_on = λ _. 0; resumed = [] }

handed_over :
    ((try_v true (p 5 (p 3 [])) at_start).0 ≡ some 3)
    × ((try_v true (p 5 (p 3 [])) at_start).1 ≡ 5 ∷ [])
    × ((try_v true (p 5 (p 3 [])) at_start).2.resumed ≡ 3 ∷ [])
    × ((try_v false [] at_start).0 ≡ none)
unfolding try_v p pop resume
handed_over = (refl, refl, refl, refl)
