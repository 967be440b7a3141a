-- ===== src/SynchronizedFlag/Joining.antt =====
-- The fred that waits is woken by the post or the detach, and gets the posted result.
use libfibre.Base.{
  ℕ, ◌<◌, ◌≡◌, refl, ◌≢◌, ◌⊎◌, inl, Bool, true, false, Option, none, some, arith, if◌then◌else◌,
}
use libfibre.SynchronizedFlag.{
  running, posted, detached, Joinable, aborts, wait_leave, wait, post, detach, Joiner, before,
  asleep, woken, done, System, Step, wait_suspends, wait_returns, leave, posting, detaching, Reach,
  here, later,
}

-- The flag and the result, as the joiner stands.
abbrev Fits : ℕ → Joinable → Option ℕ → Joiner → Type 0
Fits f j v before =
    ((j.flag ≡ running) × (v ≡ none))
    ⊎ ((j.flag ≡ posted) × (j.result ≡ v) × (v ≢ none))
    ⊎ ((j.flag ≡ detached) × (v ≡ none))
Fits f j v asleep = (j.flag ≡ f) × (v ≡ none)
Fits f j v woken =
    ((j.flag ≡ posted) × (j.result ≡ v) × (v ≢ none)) ⊎ ((j.flag ≡ detached) × (v ≡ none))
Fits f j v (done b r) =
    ((j.flag ≡ posted) × (j.result ≡ v) × (v ≢ none) × (b ≡ true) × (r ≡ v))
    ⊎ ((j.flag ≡ detached) × (v ≡ none) × (b ≡ false) × (r ≡ some 0))

abbrev pub Fit : ℕ → System → Type 0
Fit f s = Fits f s.joinable s.value s.joiner

Step-Fit : (f : ℕ) → 4 < f → {s t : System} → Step f s t → Fit f s → Fit f t
unfolding wait_leave wait post detach
Step-Fit f l {s} (wait_suspends j e h) w = ground (arith, w)
Step-Fit f l {s} (wait_returns b r j e h) w = ground (arith, w)
Step-Fit f l {s} (leave b r e h) w = ground (arith, w)
Step-Fit f l {s} (posting r b g j h) w = ground (arith, w)
Step-Fit f l {s} (detaching g j h) w = ground (arith, w)

Reach-Fit : (f : ℕ) → 4 < f → {s : System} → Reach f s → Fit f s
Reach-Fit f l here = inl (refl, refl)
Reach-Fit f l (later r st) = Step-Fit f l st (Reach-Fit f l r)

-- A flag with an address in it is that of a fred that sleeps.
resumes_joiner :
    (f : ℕ)
    → 4 < f
    → {s : System} → Reach f s
    → (g : ℕ) → s.joinable.flag ≡ g
    → g ≢ running
    → g ≢ posted
    → g ≢ detached
    → (g ≡ f) × (s.joiner ≡ asleep)
resumes_joiner f l {s} r g e p q d = ground (arith, Reach-Fit f l r)

-- In every reachable state with one fred that waits, at an address above the flag's states: if its
-- `wait` has returned true, then it has the result of the post that succeeded, and if it has returned
-- false, then the flag is detached and no post has succeeded.
pub join_result :
    (f : ℕ)
    → 4 < f
    → {s : System} → Reach f s
    → (b : Bool) (r : Option ℕ) → s.joiner ≡ done b r
    → if b then ((r ≡ s.value) × (r ≢ none)) else ((s.joinable.flag ≡ detached) × (s.value ≡ none))
join_result f l {s} r true v e = ground (arith, Reach-Fit f l r)
join_result f l {s} r false v e = ground (arith, Reach-Fit f l r)

-- In every reachable state with one fred that waits, at an address above the flag's states: once the
-- fred has been resumed, the rest of `wait` does not reach its abort.
pub woken-wait_leave :
    (f : ℕ) → 4 < f → {s : System} → Reach f s → s.joiner ≡ woken → wait_leave s.joinable ≢ aborts
unfolding wait_leave
woken-wait_leave f l {s} r e = ground (arith, Reach-Fit f l r)

-- In every reachable state with one fred that waits, at an address above the flag's states: while it is
-- asleep the assertions of `post` and `detach` hold, either one resumes it, and the flag and the result
-- are set.
pub sleeper_is_resumed :
    (f : ℕ)
    → 4 < f
    → {s : System} → Reach f s
    → s.joiner ≡ asleep
    → (r : ℕ)
    → (post r s.joinable ≡ some ((true, some f), record { flag = posted; result = some r }))
      × (detach s.joinable ≡ some (some f, record s.joinable { flag = detached }))
unfolding post detach
sleeper_is_resumed f l {s} r e x =
    (ground (arith, Reach-Fit f l r), ground (arith, Reach-Fit f l r))

-- In every reachable state with one fred that waits, at an address above the flag's states: if `post`
-- resumes a fred, it is the one that waits, it is asleep, and the post is successful.
pub post-resumes :
    (f : ℕ)
    → 4 < f
    → {s : System} → Reach f s
    → (r g : ℕ) (b : Bool) (j : Joinable) → post r s.joinable ≡ some ((b, some g), j)
    → (g ≡ f) × (s.joiner ≡ asleep) × (b ≡ true)
unfolding post
post-resumes f l {s} r x g b j h = ground (arith, resumes_joiner f l r g, h)
