-- ===== src/FastBarrier/Groups.antt =====
-- The group of freds that one notifier lets go.
use mathlib.Core.List.{append_assoc, append-nil}
use libfibre.Base.{
  ℕ, suc, ◌≡◌, ◌≢◌, refl, sym, ap, ◌∙◌, Bool, true, false, not, ◌&&◌, some, List, [], ◌∷◌, ◌++◌,
  ◌==◌, if◌then◌else◌, update, ==_true, length, mem, arith, Bool-cases, inl, inr,
}
use libfibre.Freds.{Freds, race_resume, resume}
use libfibre.FastBarrier.{notify_one, notify_loop, wait_leave}

-- The list without the notifier.
abbrev pub without : ℕ → List ℕ → List ℕ
without cf [] = []
without cf (x ∷ xs) = if x == cf then without cf xs else x ∷ without cf xs

abbrev pub final_is : ℕ → List ℕ → Bool
final_is f [] = false
final_is f (x ∷ []) = f == x
final_is f (x ∷ y ∷ ys) = final_is f (y ∷ ys)

-- What the loop leaves, for a group taken from the queue.
pub record Releases (cf : ℕ) (park : Bool) (group : List ℕ) (w : Freds) (park' : Bool) (w' : Freds)
    : Type 0 where
  pub parks : park' ≡ (park && not (mem cf group))
  pub resumed : w'.resumed ≡ w.resumed ++ without cf group
  pub special : (f : ℕ) → (w'.info f) ≡ (if park' && final_is f group then cf else w.info f)

module _ (cf : ℕ) (w : Freds) (park : Bool) where
  notify_self : (b : Bool) → notify_one cf b cf park w ≡ (false, w)
  unfolding notify_one
  notify_self b = ground arith

  notify_other :
      (f : ℕ)
      → (f == cf) ≡ false
      → notify_one cf false f park w ≡ (park, record w { resumed = w.resumed ++ f ∷ [] })
  unfolding notify_one resume
  notify_other f h = rw h refl

  notify_final :
      (f : ℕ)
      → (f == cf) ≡ false
      → w.info f ≡ 0
      → notify_one cf true f park w ≡ (
        park,
        record w {
          info = if park then update w.info f cf else w.info;
          resumed = w.resumed ++ f ∷ [];
        },
      )
  unfolding notify_one race_resume resume
  notify_final f h z = elim (Bool-cases park) [ inl p ↦ rw (h, p, z) refl | inr p ↦ rw (h, p) refl ]

-- The races of the freds are open.
abbrev pub IsOpen : (info : ℕ → ℕ) → List ℕ → Type 0
IsOpen info [] = Unit
IsOpen info (x ∷ xs) = (info x ≡ 0) × IsOpen info xs

not_zero : (n : ℕ) → (suc n == 0) ≡ false
not_zero n = ground arith

abbrev Outcome : ℕ → Bool → List ℕ → List ℕ → Freds → Type 0
Outcome cf park group rest w =
    (park' : Bool) × (w' : Freds) × (notify_loop (length group) cf park (group ++ rest) w
      ≡ some (rest, park', w'))
    × Releases cf park group w park' w'

module _ (cf : ℕ) (rest : List ℕ) where
  notify_step :
      (n f : ℕ) (fs : List ℕ) (park : Bool) (w : Freds)
      → notify_loop (suc n) cf park (f ∷ fs) w
        ≡ notify_loop n cf
            (notify_one cf (n == 0) f park w).0
            fs
            (notify_one cf (n == 0) f park w).1
  unfolding notify_loop
  notify_step n f fs park w = refl

  final_self : (park : Bool) (w : Freds) → Outcome cf park (cf ∷ []) rest w
  unfolding notify_loop
  final_self park w = (
    false,
    w,
    rw (notify_step 0 cf rest park w, notify_self cf w park true) refl,
    record {
      parks = ground arith;
      resumed = rw (==_true {a = cf} refl) (sym (append-nil w.resumed));
      special = λ f. refl;
    },
  )

  final_other :
      (f : ℕ) (park : Bool) (w : Freds)
      → (f == cf) ≡ false
      → w.info f ≡ 0
      → Outcome cf park (f ∷ []) rest w
  unfolding notify_loop
  final_other f park w h z = (
    park,
    record w { info = if park then update w.info f cf else w.info; resumed = w.resumed ++ f ∷ [] },
    rw (notify_step 0 f rest park w, notify_final cf w park f h z) refl,
    record { parks = ground (arith, h); resumed = rw h refl; special = λ g. ground arith },
  )

  early_self :
      (park : Bool) (w : Freds) (g : ℕ) (gs : List ℕ)
      → Outcome cf false (g ∷ gs) rest w
      → Outcome cf park (cf ∷ g ∷ gs) rest w
  early_self park w g gs (park', w', e, r) = (
    park',
    w',
    rw
        (
          notify_step (suc (length gs)) cf ((g ∷ gs) ++ rest) park w,
          not_zero (length gs),
          notify_self cf w park false,
        )
        e,
    record {
      parks = ground (arith, r.parks);
      resumed = rw (==_true {a = cf} refl) r.resumed;
      special = r.special;
    },
  )

  early_other :
      (f : ℕ) (park : Bool) (w : Freds) (g : ℕ) (gs : List ℕ)
      → (f == cf) ≡ false
      → Outcome cf park (g ∷ gs) rest (record w { resumed = w.resumed ++ f ∷ [] })
      → Outcome cf park (f ∷ g ∷ gs) rest w
  early_other f park w g gs h (park', w', e, r) = (
    park',
    w',
    rw
        (
          notify_step (suc (length gs)) f ((g ∷ gs) ++ rest) park w,
          not_zero (length gs),
          notify_other cf w park f h,
        )
        e,
    record {
      parks = ground (arith, r.parks, h);
      resumed = rw h (r.resumed ∙ append_assoc w.resumed (f ∷ []) (without cf (g ∷ gs)));
      special = r.special;
    },
  )

  -- The loop takes the whole group, and resumes all but the notifier.
  pub notify_loop-Releases :
      (park : Bool) (w : Freds) (f : ℕ) (group : List ℕ)
      → IsOpen w.info (f ∷ group)
      → Outcome cf park (f ∷ group) rest w
  notify_loop-Releases park w f [] o = elim (Bool-cases (f == cf)) [
    | inl e ↦ let same : f ≡ cf = ground (arith, e) in rw same (final_self park w)
    | inr e ↦ final_other f park w e o.0
  ]
  notify_loop-Releases park w f (g ∷ gs) o = elim (Bool-cases (f == cf)) [
    | inl e ↦
        let same : f ≡ cf = ground (arith, e) in
        rw same (early_self park w g gs (notify_loop-Releases false w g gs o.1))
    | inr e ↦ early_other f park w g gs e (notify_loop-Releases park _ g gs o.1)
  ]

member : (cf g : ℕ) (l : List ℕ) → mem g l ≡ true → ((g == cf) && not (mem cf l)) ≡ false
member cf g l m = elim (Bool-cases (g == cf)) [
  | inl e ↦ let same : g ≡ cf = ground (arith, e) in rw (← same) (rw m (ground arith))
  | inr e ↦ rw e refl
]

one_result :
    (cf g : ℕ) (park there final : Bool) (info : ℕ)
    → cf ≢ 0
    → park ≡ (true && not there)
    → info ≡ (if park && final then cf else 0)
    → ((g == cf) && not there) ≡ false
    → (if g == cf
        then (if park then not (info == 0) else not (g == 0))
        else (if true then not (info == 0) else not (g == 0)))
      ≡ (if there then g == cf else final)
one_result cf g park there final info z p i m = ground (arith, z, p, i, m)

-- What `wait` returns to a fred of the group.
abbrev pub result_of : (cf : ℕ) → (park : Bool) → Freds → ℕ → Bool
result_of cf park w f = if f == cf then wait_leave f park w else wait_leave f true w

-- A notifier with a group of open freds at the front of the queue takes exactly this group, resumes all
-- of it but itself, in order, and `wait` returns true to exactly one of them: to the notifier if it is
-- of the group, else to the last one.
pub notify_loop-special :
    (cf : ℕ) (f g : ℕ) (group rest : List ℕ) (w : Freds)
    → cf ≢ 0
    → IsOpen w.info (f ∷ group)
    → mem g (f ∷ group) ≡ true
    → w.info g ≡ 0
    → (park : Bool) × (w' : Freds) × (notify_loop
          (suc (length group))
          cf
          true
          ((f ∷ group) ++ rest)
          w
        ≡ some (rest, park, w'))
      × (w'.resumed ≡ w.resumed ++ without cf (f ∷ group))
      × (result_of cf park w' g ≡ (if mem cf (f ∷ group) then g == cf else final_is g (f ∷ group)))
unfolding wait_leave
notify_loop-special cf f g group rest w z o m i =
    let (park, w', e, r) = notify_loop-Releases cf rest true w f group o in
    (
      park,
      w',
      e,
      r.resumed,
      one_result cf g park (mem cf (f ∷ group)) (final_is g (f ∷ group)) (w'.info g) z r.parks
          (r.special g ∙ ap (λ x. if park && final_is g (f ∷ group) then cf else x) i)
          (member cf g (f ∷ group) m),
    )
