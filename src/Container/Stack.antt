-- ===== src/Container/Stack.antt =====
-- class Stack of src/runtime/Container.h: a singly linked last-in first-out stack, and its refinement of
-- lists.
mod Tests
use libfibre.Base.{
  ℕ, zero, suc, ◌+◌, ◌-◌, ◌≤◌, ◌<◌, ◌≡◌, refl, ◌≢◌, Bool, true, false, Option, none, some, ◌>>=◌,
  List, [], ◌∷◌, ◌++◌, arith, ◌==◌, if◌then◌else◌, update, mem, length, Distinct, ltb,
}
use libfibre.Container.Chains.{
  sentinel, null, IsNode, Heap, next, Seg, last, take, drop, mem-last, mem-take, last-link,
  member-IsNode, Distinct-take, Distinct-drop, Distinct-append, last-mem-drop, Seg-frame,
  Seg-append, Seg-retarget, Seg-take, Seg-drop,
}

-- `push` of a chain on the head of a stack; `none` if its assertion fails.
unfoldable pub push : (first end : ℕ) → (head : ℕ) → Heap → Option (ℕ × Heap)
push first end head h = if h end == null then some (first, update h end head) else none

-- The loop of `pop` with a count, its `i` at `count - n`: the element and the count that it leaves.
unfoldable pub pop_loop : (n i count : ℕ) → ℕ → Heap → Option (ℕ × ℕ)
pop_loop zero i count elem h = some (elem, count)
pop_loop (suc n) i count elem h = next elem h >>= λ s.
    let deeper = pop_loop n (suc i) count s h in if s == null then some (elem, i) else deeper

-- `pop` with a count: the last element popped, the count, and what is left; `none` if it reads the
-- link of an address that is no node's.
unfoldable pub pop : (count : ℕ) → (head : ℕ) → Heap → Option ((ℕ × ℕ) × ℕ × Heap)
pop count head h =
    if head == sentinel
    then some ((null, count), head, h)
    else (pop_loop (count - 1) 1 count head h >>= λ r.
        next r.0 h >>= λ n. some (r, n, update h r.0 null))

-- The stack holds these nodes, the latest first.
abbrev pub IsStack : ℕ → Heap → List ℕ → Type 0
IsStack head h xs = Seg h head xs sentinel × Distinct xs

pop_loop-take :
    (h : Heap) (a n i count x : ℕ) (xs : List ℕ)
    → Seg h a (x ∷ xs) sentinel
    → n ≤ length xs
    → pop_loop n i count a h ≡ some (last x (take n xs), count)
unfolding pop_loop
pop_loop-take h a zero i count x xs (p, v, s) l = ground (arith, p)
pop_loop-take h a (suc n) i count x [] (p, v, s) l = absurd (omega arith)
pop_loop-take h a (suc n) i count x (y ∷ xs) (p, v, s) l =
    ground (arith, p, v, s, pop_loop-take h (h x) n (suc i) count y xs s)

pop_loop-none :
    (h : Heap) (a n i count x : ℕ) (xs : List ℕ)
    → Seg h a (x ∷ xs) sentinel
    → length xs < n
    → (pop_loop n i count a h >>= λ r. next r.0 h) ≡ none
unfolding pop_loop
pop_loop-none h a zero i count x xs (p, v, s) l = absurd (omega arith)
pop_loop-none h a (suc zero) i count x [] (p, v, s) l = ground (arith, p, v, s)
pop_loop-none h a (suc (suc n)) i count x [] (p, v, s) l = ground (arith, p, v, s)
pop_loop-none h a (suc n) i count x (y ∷ xs) (p, v, s) l =
    ground (arith, p, v, s, pop_loop-none h (h x) n (suc i) count y xs s)

-- A chain of nodes that are not in the stack, whose last link is null, goes on top in its order, and
-- the assertion does not fail.
pub push-IsStack :
    (h : Heap) (head : ℕ) (xs : List ℕ) (y : ℕ) (ys : List ℕ)
    → IsStack head h xs
    → Seg h y (y ∷ ys) null
    → Distinct (y ∷ ys)
    → ((a : ℕ) → mem a (y ∷ ys) ≡ true → mem a xs ≡ false)
    → (h' : Heap) × (push y (last y ys) head h ≡ some (y, h')) × IsStack y h' ((y ∷ ys) ++ xs)
unfolding push
push-IsStack h head xs y ys (s, d) c e f =
    let l : ℕ = last y ys in
    let top : Seg (update h l head) y (y ∷ ys) head = Seg-retarget h y null head y ys e c in
    let below : Seg (update h l head) head xs sentinel =
      Seg-frame h head sentinel l head xs (f l (mem-last y ys)) s in
    (
      update h l head,
      ground (arith, last-link h y null y ys c),
      (
        Seg-append (update h l head) y head sentinel (y ∷ ys) xs top below,
        Distinct-append (y ∷ ys) xs e d f,
      ),
    )

-- `pop` with a positive count of at most the stack's nodes takes that many, the latest first. It
-- returns the last of them and leaves the count; they stay chained from the old head on, with a null
-- link at the end, and the rest is the stack.
pub pop-IsStack :
    (h : Heap) (head x : ℕ) (xs : List ℕ) (n : ℕ)
    → IsStack head h (x ∷ xs)
    → n ≤ length xs
    → (head' : ℕ) × (h' : Heap) × (pop (suc n) head h
        ≡ some ((last x (take n xs), suc n), head', h'))
      × IsStack head' h' (drop n xs)
      × Seg h' head (x ∷ take n xs) null
unfolding pop
pop-IsStack h head x xs n (s, d) l =
    let e : ℕ = last x (take n xs) in
    let taken : Seg h head (x ∷ take n xs) (h e) = Seg-take h head sentinel n x xs s in
    let node : IsNode e =
      member-IsNode h head (h e) e (x ∷ take n xs) taken (mem-last x (take n xs)) in
    let distinct : Distinct (x ∷ take n xs) =
      ground (arith, Distinct-take n xs d.1, mem-take x n xs, d) in
    (
      h e,
      update h e null,
      ground (arith, node, s, pop_loop-take h head n 1 (suc n) x xs s l),
      (
        Seg-frame h (h e) sentinel e null (drop n xs) (last-mem-drop n x xs d)
            (Seg-drop h head sentinel n x xs s),
        Distinct-drop n xs d.1,
      ),
      Seg-retarget h head (h e) null x (take n xs) distinct taken,
    )

-- `pop` with a count greater than the number of nodes of a nonempty stack reads the link of the
-- sentinel, which is no node: its loop looks for a null link, and a stack ends with the sentinel.
pub pop-beyond :
    (h : Heap) (head x : ℕ) (xs : List ℕ) (count : ℕ)
    → IsStack head h (x ∷ xs)
    → suc (length xs) < count
    → pop count head h ≡ none
unfolding pop
pop-beyond h head x xs count (s, d) l =
    ground (arith, s, pop_loop-none h head (count - 1) 1 count x xs s)
