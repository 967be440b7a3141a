-- ===== src/Container/Queue.antt =====
-- class Queue of src/runtime/Container.h: a singly linked first-in first-out queue, and its refinement of
-- lists.
mod Tests
use libfibre.Base.{
  ℕ, zero, suc, ◌+◌, ◌-◌, ◌≤◌, ◌<◌, ◌≡◌, refl, sym, ◌≢◌, Bool, true, false, not, Option, none, some,
  ◌>>=◌, List, [], ◌∷◌, ◌++◌, arith, leb, ◌==◌, if◌then◌else◌, update, mem, length, Distinct,
}
use libfibre.Container.Chains.{
  sentinel, null, IsNode, Heap, next, Seg, last, take, drop, mem-last, last-append, mem-take,
  mem-drop, Distinct-take, last-link, member-IsNode, Distinct-drop, Distinct-append, last-mem-drop,
  last-drop, Seg-frame, Seg-append, Seg-retarget, Seg-take, Seg-drop,
}

pub record Queue : Type 0 where
  pub head : ℕ
  pub tail : ℕ

abbrev pub fresh : Queue
fresh = record { head = sentinel; tail = sentinel }

abbrev eq_Bool : Bool → Bool → Bool
eq_Bool true b = b
eq_Bool false b = not b

-- `empty`; `none` if its assertion fails.
unfoldable pub is_empty : Queue → Option Bool
is_empty q =
    if eq_Bool (q.head == sentinel) (q.tail == sentinel) then some (q.head == sentinel) else none

-- `push` of a chain; `none` if an assertion fails.
unfoldable pub push : (first end : ℕ) → Queue → Heap → Option (Queue × Heap)
push first end q h =
    let h1 : Heap = update h end sentinel in
    if h end == null
    then is_empty q >>= (λ e. some (
        if e
        then (record { head = first; tail = end }, h1)
        else (record q { tail = end }, update h1 q.tail first)))
    else none

-- `popHelper` with a count, its `i` at `count - n`: the element and the count that it leaves.
unfoldable pub pop_helper : (n i count : ℕ) → ℕ → Heap → Option (ℕ × ℕ)
pop_helper zero i count elem h = some (elem, count)
pop_helper (suc n) i count elem h = next elem h >>= λ s.
    let deeper = pop_helper n (suc i) count s h in if s == sentinel then some (elem, i) else deeper

-- `pop` with a count: the last element popped, the count, and what is left.
unfoldable pub pop : (count : ℕ) → Queue → Heap → Option ((ℕ × ℕ) × Queue × Heap)
pop count q h = is_empty q >>= λ e.
    if e
    then some ((null, count), q, h)
    else (pop_helper (count - 1) 1 count q.head h >>= λ r. next r.0 h >>= λ n. some (
      r,
      record { head = n; tail = if q.tail == r.0 then sentinel else q.tail },
      update h r.0 null,
    ))

-- The queue holds these nodes, the oldest first.
abbrev pub IsQueue : Queue → Heap → List ℕ → Type 0
IsQueue q h xs = Seg h q.head xs sentinel × (q.tail ≡ last sentinel xs) × Distinct xs

empty-IsQueue : (h : Heap) (q : Queue) → IsQueue q h [] → is_empty q ≡ some true
unfolding is_empty
empty-IsQueue h q (s, t, d) = ground (arith, s, t)

nonempty-IsQueue :
    (h : Heap) (q : Queue) (x : ℕ) (xs : List ℕ) → IsQueue q h (x ∷ xs) → is_empty q ≡ some false
unfolding is_empty
nonempty-IsQueue h q x xs (s, t, d) =
    let l : IsNode (last x xs) =
      member-IsNode h q.head sentinel (last x xs) (x ∷ xs) s (mem-last x xs) in
    ground (arith, s, t, l)

pop_helper_lem :
    (h : Heap) (a n i count x : ℕ) (xs : List ℕ)
    → Seg h a (x ∷ xs) sentinel
    → pop_helper n i count a h
      ≡ some (last x (take n xs), if leb n (length xs) then count else i + length xs)
unfolding pop_helper
pop_helper_lem h a zero i count x xs (p, v, s) = ground (arith, p)
pop_helper_lem h a (suc n) i count x [] (p, v, s) = ground (arith, p, v, s)
pop_helper_lem h a (suc n) i count x (y ∷ xs) (p, v, s) =
    ground (arith, p, v, s, pop_helper_lem h (h x) n (suc i) count y xs s)

-- A chain of nodes that are not in the queue, whose last link is null, goes behind the queue's nodes
-- in its order, with no assertion failed.
pub push-IsQueue :
    (h : Heap) (q : Queue) (xs : List ℕ) (y : ℕ) (ys : List ℕ)
    → IsQueue q h xs
    → Seg h y (y ∷ ys) null
    → Distinct (y ∷ ys)
    → ((a : ℕ) → mem a xs ≡ true → mem a (y ∷ ys) ≡ false)
    → (q' : Queue) × (h' : Heap) × (push y (last y ys) q h ≡ some (q', h'))
      × IsQueue q' h' (xs ++ y ∷ ys)
unfolding push
push-IsQueue h q [] y ys u c e f = (
  record { head = y; tail = last y ys },
  update h (last y ys) sentinel,
  ground (arith, empty-IsQueue h q u, last-link h y null y ys c),
  (Seg-retarget h y null sentinel y ys e c, refl, e),
)
push-IsQueue h q (x ∷ xs) y ys (s, t, d) c e f =
    let h1 : Heap = update h (last y ys) sentinel in
    let l : ℕ = last x xs in
    let far : mem (last y ys) (x ∷ xs) ≡ false = ground (arith, f (last y ys), mem-last y ys) in
    let apart : mem l (y ∷ ys) ≡ false = f l (mem-last x xs) in
    let behind : Seg (update h1 l y) y (y ∷ ys) sentinel =
      Seg-frame h1 y sentinel l y (y ∷ ys) apart (Seg-retarget h y null sentinel y ys e c) in
    let front : Seg (update h1 l y) q.head (x ∷ xs) y =
      Seg-retarget h1 q.head sentinel y x xs d
        (Seg-frame h q.head sentinel (last y ys) sentinel (x ∷ xs) far s) in
    (
      record q { tail = last y ys },
      update h1 l y,
      ground (arith, t, nonempty-IsQueue h q x xs (s, t, d), last-link h y null y ys c),
      (
        Seg-append (update h1 l y) q.head y sentinel (x ∷ xs) (y ∷ ys) front behind,
        sym (last-append x y xs ys),
        Distinct-append (x ∷ xs) (y ∷ ys) d e f,
      ),
    )

-- `pop` with a positive count takes as many nodes as the count says and the queue has, the oldest
-- first. It returns the last of them and how many they are; they stay chained from the old head on,
-- with a null link at the end, and the rest is the queue.
pub pop-IsQueue :
    (h : Heap) (q : Queue) (x : ℕ) (xs : List ℕ) (n : ℕ)
    → IsQueue q h (x ∷ xs)
    → (q' : Queue) × (h' : Heap) × (pop (suc n) q h
        ≡ some ((last x (take n xs), if leb n (length xs) then suc n else suc (length xs)), q', h'))
      × IsQueue q' h' (drop n xs)
      × Seg h' q.head (x ∷ take n xs) null
unfolding pop
pop-IsQueue h q x xs n (s, t, d) =
    let e : ℕ = last x (take n xs) in
    let taken : Seg h q.head (x ∷ take n xs) (h e) = Seg-take h q.head sentinel n x xs s in
    let node : IsNode e =
      member-IsNode h q.head (h e) e (x ∷ take n xs) taken (mem-last x (take n xs)) in
    let distinct : Distinct (x ∷ take n xs) =
      ground (arith, Distinct-take n xs d.1, mem-take x n xs, d) in
    (
      record { head = h e; tail = if q.tail == e then sentinel else q.tail },
      update h e null,
      ground (
        arith,
        node,
        nonempty-IsQueue h q x xs (s, t, d),
        pop_helper_lem h q.head n 1 (suc n) x xs s,
      ),
      (
        Seg-frame h (h e) sentinel e null (drop n xs) (last-mem-drop n x xs d)
            (Seg-drop h q.head sentinel n x xs s),
        ground (arith, t, last-drop n x xs d),
        Distinct-drop n xs d.1,
      ),
      Seg-retarget h q.head (h e) null x (take n xs) distinct taken,
    )
