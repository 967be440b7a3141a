-- ===== src/Container/List.antt =====
-- class List of src/runtime/Container.h: a doubly linked list, kept as a ring through an anchor node.
pub mod Contents
mod Tests
use libfibre.Base.{
  ℕ, zero, suc, ◌-◌, Bool, true, false, not, ◌&&◌, Option, none, some, ◌>>=◌, ◌==◌, if◌then◌else◌,
}
use libfibre.Container.Ring.{Links, close, linked}
use libfibre.Container.Ring

-- `List()`: the anchor's links point to the anchor.
unfoldable pub fresh : (anchor : ℕ) → Links → Links
unfolding close
fresh anchor h = close anchor anchor h

abbrev pub front : (anchor : ℕ) → Links → ℕ
front anchor h = h.next anchor

abbrev pub back : (anchor : ℕ) → Links → ℕ
back anchor h = h.prev anchor

abbrev eq_Bool : Bool → Bool → Bool
eq_Bool true b = b
eq_Bool false b = not b

-- `empty`; `none` if an assertion fails, as below.
unfoldable pub is_empty : (anchor : ℕ) → Links → Option Bool
is_empty anchor h =
    if eq_Bool (front anchor h == anchor) (back anchor h == anchor)
    then some (front anchor h == anchor)
    else none

unfoldable pub push_front : (anchor elem : ℕ) → Links → Option Links
push_front anchor elem h = Ring.insert_before (front anchor h) elem elem h

unfoldable pub push_back : (anchor elem : ℕ) → Links → Option Links
push_back anchor elem h = Ring.insert_after false (back anchor h) elem elem h

unfoldable pub splice_back : (anchor first last : ℕ) → Links → Option Links
splice_back anchor first last h = Ring.insert_after false (back anchor h) first last h

-- `pop_front` and `pop_back`, whose assertion is that the list is not empty.
unfoldable pub pop_front : (anchor : ℕ) → Links → Option (ℕ × Links)
unfolding is_empty
pop_front anchor h =
    is_empty anchor h >>= λ e. if e then none else Ring.remove (front anchor h) (front anchor h) h

unfoldable pub pop_back : (anchor : ℕ) → Links → Option (ℕ × Links)
unfolding is_empty
pop_back anchor h =
    is_empty anchor h >>= λ e. if e then none else Ring.remove (back anchor h) (back anchor h) h

unfoldable pub remove_all : (anchor : ℕ) → Links → Option (ℕ × Links)
remove_all anchor h = Ring.remove (front anchor h) (back anchor h) h

-- The loop of `remove` with a count, its `i` at `count - n`: the last node and the count that it leaves.
unfoldable pub remove_loop : (n i count : ℕ) → (anchor last : ℕ) → Links → ℕ × ℕ
remove_loop zero i count anchor last h = (last, count)
remove_loop (suc n) i count anchor last h =
    let deeper = remove_loop n (suc i) count anchor (h.next last) h in
    if h.next last == anchor then (last, i) else deeper

-- `remove` with a count: the last node removed and the count.
unfoldable pub remove : (anchor first count : ℕ) → Links → Option ((ℕ × ℕ) × Links)
remove anchor first count h =
    if linked first h
    then (let (last, count') = remove_loop (count - 1) 1 count anchor first h in
        Ring.remove first last h >>= λ r. some ((r.0, count'), r.1))
    else none
