-- ===== src/Container/Ring.antt =====
-- class Ring of src/runtime/Container.h: doubly linked rings of nodes.
pub mod Chains
pub mod Insertion
pub mod Removal
pub mod Rotation
mod Tests
use libfibre.Base.{
  ℕ, Bool, true, false, not, ◌&&◌, ◌||◌, Option, none, some, ◌>>=◌, ◌==◌, if◌then◌else◌, update,
}

-- `Next` and `Prev` of every node, 0 for null.
pub record Links : Type 0 where
  pub next : ℕ → ℕ
  pub prev : ℕ → ℕ

abbrev pub set_next : ℕ → ℕ → Links → Links
set_next a v h = record h { next = update h.next a v }

abbrev pub set_prev : ℕ → ℕ → Links → Links
set_prev a v h = record h { prev = update h.prev a v }

-- Both links of a node are valid.
abbrev pub linked : ℕ → Links → Bool
linked a h = not (h.prev a == 0) && not (h.next a == 0)

-- `take_out`; `none` if an assertion fails, as below.
unfoldable pub take_out : (first last : ℕ) → Links → Option Links
take_out first last h =
    if linked first h && linked last h
    then (let h1 = set_next (h.prev first) (h.next last) h in
        some (set_prev (h1.next last) (h1.prev first) h1))
    else none

unfoldable pub combine_before : (next first last : ℕ) → Links → Option Links
combine_before next first last h =
    if linked next h
    then (let h1 = set_next last next h in
        let h2 = set_next (h1.prev next) first h1 in
        let h3 = set_prev first (h2.prev next) h2 in some (set_prev next last h3))
    else none

unfoldable pub combine_after : (prev first last : ℕ) → Links → Option Links
combine_after prev first last h =
    if linked prev h
    then (let h1 = set_prev first prev h in
        let h2 = set_prev (h1.next prev) last h1 in
        let h3 = set_next last (h2.next prev) h2 in some (set_next prev first h3))
    else none

unfoldable pub close : (first last : ℕ) → Links → Links
close first last h = set_next last first (set_prev first last h)

unfoldable pub insert_before : (next first last : ℕ) → Links → Option Links
unfolding combine_before
insert_before next first last h =
    if (h.prev first == 0) && (h.next last == 0) then combine_before next first last h else none

unfoldable pub insert_after : (force : Bool) → (prev first last : ℕ) → Links → Option Links
unfolding combine_after
insert_after force prev first last h =
    if (force || (h.prev first == 0)) && (force || (h.next last == 0))
    then combine_after prev first last h
    else none

-- `remove`: it returns `last`.
unfoldable pub remove : (first last : ℕ) → Links → Option (ℕ × Links)
unfolding take_out
remove first last h =
    take_out first last h >>= λ h'. some (last, set_prev first 0 (set_next last 0 h'))

unfoldable pub join_before : (next first last : ℕ) → Links → Option Links
unfolding combine_before
join_before next first last h =
    if (h.prev first == last) && (h.next last == first)
    then combine_before next first last h
    else none

unfoldable pub join_after : (prev first last : ℕ) → Links → Option Links
unfolding combine_after
join_after prev first last h =
    if (h.prev first == last) && (h.next last == first)
    then combine_after prev first last h
    else none

-- `split`: it returns `last`.
unfoldable pub split : (first last : ℕ) → Links → Option (ℕ × Links)
unfolding take_out close
split first last h = take_out first last h >>= λ h'. some (last, close first last h')
