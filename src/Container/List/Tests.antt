-- ===== src/Container/List/Tests.antt =====
-- A list of two nodes behind its anchor, and an operation on it.
use libfibre.Base.{ℕ, ◌≡◌, refl, Option, none, some, [], ◌∷◌, arith, ◌==◌, if◌then◌else◌}
use libfibre.Container.Ring.{Links}
use libfibre.Container.List.{remove}
use libfibre.Container.List.Contents.{IsList}

abbrev links : Links
links = record {
  next = λ a. if a == 16 then 32 else if a == 32 then 48 else if a == 48 then 16 else 0;
  prev = λ a. if a == 16 then 48 else if a == 32 then 16 else if a == 48 then 32 else 0;
}

two-IsList : IsList 16 (32 ∷ 48 ∷ []) links
two-IsList = ground arith

-- `remove` with a count beyond the end of the list: the last node removed, and the count.
removed : Option ((ℕ × ℕ) × Links) → ℕ × ℕ
removed none = (0, 0)
removed (some r) = r.0

remove-two : removed (remove 16 32 5 links) ≡ (48, 2)
unfolding remove removed libfibre.Container.Ring.remove libfibre.Container.List.remove_loop
remove-two = refl
