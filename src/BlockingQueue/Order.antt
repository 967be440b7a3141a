-- ===== src/BlockingQueue/Order.antt =====
-- The freds that still wait, in order of arrival: `unblock` takes the first of them.
use mathlib.Core.List.{append-nil}
use libfibre.Base.{
  ℕ, ◌≡◌, refl, ap, ◌∙◌, ◌≢◌, Bool, true, false, Option, none, some, List, [], ◌∷◌, ◌++◌, arith,
  ◌==◌, if◌then◌else◌, update, Bool-cases, inl, inr, mem, erase, Distinct,
}
use libfibre.Freds.{Freds, prepare_race, race_resume, resume}
use libfibre.BlockingQueue.Defs.{
  BlockingQueue, notify, block_enter, block_leave, unblock_loop, unblock,
}

-- Nodes whose resumption race is still open.
abbrev pub live_in : (ℕ → ℕ) → List ℕ → List ℕ
live_in info [] = []
live_in info (f ∷ fs) = if info f == 0 then f ∷ live_in info fs else live_in info fs

-- The abstract view: freds that wait and have not been cancelled, in order of arrival.
abbrev pub live : BlockingQueue → Freds → List ℕ
live b w = live_in w.info b.queue

abbrev pub first : List ℕ → Option ℕ
first [] = none
first (x ∷ xs) = some x

abbrev pub rest : List ℕ → List ℕ
rest [] = []
rest (x ∷ xs) = xs

abbrev pub to_list : Option ℕ → List ℕ
to_list none = []
to_list (some f) = f ∷ []

abbrev pub without : Option ℕ → List ℕ → List ℕ
without none fs = fs
without (some f) fs = erase f fs

-- The race of the chosen fred is decided for the queue at `q`.
abbrev pub handed : ℕ → Option ℕ → Freds → Freds
handed q none w = w
handed q (some f) w = record w { info = update w.info f q }

abbrev pub decided : ℕ → Option ℕ → (ℕ → ℕ) → ℕ → ℕ
decided q none info = info
decided q (some f) info = update info f q

pub first-live :
    (info : ℕ → ℕ) (fs : List ℕ) {f : ℕ} → first (live_in info fs) ≡ some f → info f ≡ 0
first-live info [] e = cc
first-live info (g ∷ fs) {f} e = ground (arith, first-live info fs {f = f})

-- The loop finds the first node whose race is open, unlinks it and decides its race.
pub unblock_loop_lem :
    (q : ℕ) (fs : List ℕ) (w : Freds)
    → let next = first (live_in w.info fs) in
      unblock_loop q fs w ≡ (next, without next fs, handed q next w)
unfolding unblock_loop race_resume
unblock_loop_lem q [] w = refl
unblock_loop_lem q (f ∷ fs) w = elim (Bool-cases (w.info f == 0)) [
  | inl undecided ↦ rw undecided (ground arith)
  | inr decided ↦ rw decided (ground (arith, unblock_loop_lem q fs w, first-live w.info fs {f = f}))
]

live_in-append :
    (info : ℕ → ℕ) (xs ys : List ℕ) → live_in info (xs ++ ys) ≡ live_in info xs ++ live_in info ys
live_in-append info [] ys = refl
live_in-append info (x ∷ xs) ys = ground (arith, live_in-append info xs ys)

-- A decision on a race that no node of the list runs changes nothing.
pub live_in-update_of_not-mem :
    (info : ℕ → ℕ) (a v : ℕ) (xs : List ℕ)
    → mem a xs ≡ false
    → live_in (update info a v) xs ≡ live_in info xs
live_in-update_of_not-mem info a v [] h = refl
live_in-update_of_not-mem info a v (x ∷ xs) h =
    ground (arith, live_in-update_of_not-mem info a v xs)

live_in-erase_head :
    (info : ℕ → ℕ) (xs : List ℕ) (f v : ℕ)
    → Distinct xs
    → v ≢ 0
    → first (live_in info xs) ≡ some f
    → live_in (update info f v) (erase f xs) ≡ rest (live_in info xs)
live_in-erase_head info [] f v d nz e = cc
live_in-erase_head info (x ∷ xs) f v d nz e = elim (Bool-cases (info x == 0)) [
  | inl z ↦ ground (arith, live_in-update_of_not-mem info f v xs)
  | inr nzx ↦ ground (arith, live_in-erase_head info xs f v d.1 nz, first-live info xs {f = f})
]

-- One call of `unblock`, in terms of the fred that it finds.
pub unblock_lem :
    (enqueue : Bool) (b : BlockingQueue) (w : Freds)
    → let next = first (live b w) in
      unblock enqueue b w ≡ (
        next,
        record b { queue = without next b.queue },
        notify enqueue next (handed b.address next w),
      )
unfolding unblock
unblock_lem enqueue b w = rw (unblock_loop_lem b.address b.queue w)

notify-false : (next : Option ℕ) (w : Freds) → notify false next w ≡ w
notify-false none w = refl
notify-false (some f) w = refl

-- The same without `Enqueue`.
pub unblock_quiet :
    (b : BlockingQueue) (w : Freds)
    → let next = first (live b w) in
      unblock false b w ≡ (next, record b { queue = without next b.queue }, handed b.address next w)
unblock_quiet b w =
    unblock_lem false b w
    ∙ ap (λ v. (first (live b w), record b { queue = without (first (live b w)) b.queue }, v))
        (notify-false (first (live b w)) (handed b.address (first (live b w)) w))

taken-live :
    (enqueue : Bool) (b : BlockingQueue) (w : Freds) (next : Option ℕ)
    → next ≡ first (live b w)
    → Distinct b.queue
    → b.address ≢ 0
    → (live_in (notify enqueue next (handed b.address next w)).info (without next b.queue)
        ≡ rest (live b w))
      × ((notify enqueue next (handed b.address next w)).resumed
          ≡ (if enqueue then w.resumed ++ to_list next else w.resumed))
unfolding resume
taken-live enqueue b w none e d nz = ground (arith, append-nil w.resumed)
taken-live enqueue b w (some f) e d nz =
    ground (arith, live_in-erase_head w.info b.queue f b.address d nz)

notify_info :
    (enqueue : Bool) (q : ℕ) (next : Option ℕ) (w : Freds)
    → (notify enqueue next (handed q next w)).info ≡ decided q next w.info
unfolding resume
notify_info enqueue q none w = refl
notify_info true q (some f) w = refl
notify_info false q (some f) w = refl

-- `unblock` returns the fred that has waited longest among those whose race is open, or null if there is
-- none. The node of that fred is unlinked and no other, decided ones included; its race is decided for the
-- queue, and no other; so that exactly it leaves the waiting order. With `Enqueue` it is resumed, and no other.
pub unblock-live :
    (enqueue : Bool) (b : BlockingQueue) (w : Freds)
    → Distinct b.queue
    → b.address ≢ 0
    → let (next, b', w') = unblock enqueue b w in
      (next ≡ first (live b w))
      × (b' ≡ record b { queue = without next b.queue })
      × (w'.info ≡ decided b.address next w.info)
      × (live b' w' ≡ rest (live b w))
      × (w'.resumed ≡ (if enqueue then w.resumed ++ to_list (first (live b w)) else w.resumed))
unblock-live enqueue b w d nz =
    let (order, calls) = taken-live enqueue b w (first (live b w)) refl d nz in
    rw (unblock_lem enqueue b w)
      (refl, refl, notify_info enqueue b.address (first (live b w)) w, order, calls)

-- A fred that blocks goes to the end of the waiting order.
pub block_enter-live :
    (f : ℕ) (b : BlockingQueue) (w : Freds)
    → mem f b.queue ≡ false
    → let (b', w') = block_enter f b w in live b' w' ≡ live b w ++ f ∷ []
unfolding block_enter prepare_race
block_enter-live f b w out =
    rw (live_in-append, live_in-update_of_not-mem w.info f 0 b.queue out) (ground arith)

live_in-update-erase :
    (info : ℕ → ℕ) (xs : List ℕ) (f ri : ℕ)
    → Distinct xs
    → ri ≢ 0
    → info f ≡ 0
    → live_in (update info f ri) xs ≡ erase f (live_in info xs)
live_in-update-erase info [] f ri d nz z = refl
live_in-update-erase info (x ∷ xs) f ri d nz z =
    ground (arith, live_in-update-erase info xs f ri d.1, live_in-update_of_not-mem info f ri xs)

erase-live_in :
    (info : ℕ → ℕ) (xs : List ℕ) (f : ℕ) → info f ≢ 0 → erase f (live_in info xs) ≡ live_in info xs
erase-live_in info [] f nz = refl
erase-live_in info (x ∷ xs) f nz = ground (arith, erase-live_in info xs f)

race_resume-live_in :
    (f ri : ℕ) (xs : List ℕ) (w : Freds)
    → Distinct xs
    → ri ≢ 0
    → live_in (race_resume f ri w).1.info xs ≡ erase f (live_in w.info xs)
unfolding race_resume
race_resume-live_in f ri xs w d nz =
    ground (arith, live_in-update-erase w.info xs f ri d, erase-live_in w.info xs f)

-- A fred whose race the timer wins leaves the waiting order, and the others keep their places.
pub race_resume-live :
    (f ri : ℕ) (b : BlockingQueue) (w : Freds)
    → Distinct b.queue
    → ri ≢ 0
    → live b (race_resume f ri w).1 ≡ erase f (live b w)
race_resume-live f ri b w d nz = race_resume-live_in f ri b.queue w d nz

live_in-erase_decided :
    (info : ℕ → ℕ) (xs : List ℕ) (f : ℕ) → info f ≢ 0 → live_in info (erase f xs) ≡ live_in info xs
live_in-erase_decided info [] f nz = refl
live_in-erase_decided info (x ∷ xs) f nz = ground (arith, live_in-erase_decided info xs f)

-- A fred that returns after its race was decided leaves the waiting order alone.
pub block_leave-live :
    (f : ℕ) (b : BlockingQueue) (w : Freds)
    → w.info f ≢ 0
    → let (done, b', w') = block_leave f b w in live b' w' ≡ live b w
unfolding block_leave
block_leave-live f b w nz = ground (arith, live_in-erase_decided w.info b.queue f)

pub notify-live :
    (enqueue : Bool) (next : Option ℕ) (b : BlockingQueue) (w : Freds)
    → live b (notify enqueue next w) ≡ live b w
unfolding resume
notify-live enqueue none b w = refl
notify-live true (some f) b w = refl
notify-live false (some f) b w = refl
