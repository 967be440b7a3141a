-- ===== src/Cluster/Tests.antt =====
-- Three workers, the second of which pauses the others.
use libfibre.Base.{ℕ, ◌≡◌, refl, some, [], ◌∷◌, length, update}
use libfibre.Cluster.{pause, resume_posts}
use libfibre.Cluster.Pausing.{all_but, pause-covers}

abbrev ring : ℕ → ℕ
ring = update (update (update (λ _. 0) 1 2) 2 3) 3 1

pause-covers_example :
    (pause 3 ring 2 1 3 ≡ some (all_but 2 (1 ∷ 2 ∷ 3 ∷ []), 2))
    × (length (all_but 2 (1 ∷ 2 ∷ 3 ∷ [])) ≡ resume_posts 3)
pause-covers_example =
    pause-covers ring 2 1 (2 ∷ 3 ∷ []) (refl, (refl, (refl, tt))) refl
      (refl, refl, (refl, refl, refl))
