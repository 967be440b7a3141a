-- ===== src/SpinCondMutex/Exclusion.antt =====
-- Mutual exclusion, and what `value` and `owner` say.
use libfibre.Base.{
  ℕ, ◌≡◌, refl, ◌≢◌, ◌≤◌, Bool, true, false, ◌||◌, Option, some, arith, ◌==◌, if◌then◌else◌, update,
  inl, inr, Bool-cases, ◌⊎◌, ap, sym, ◌∙◌,
}
use libfibre.SpinCondMutex.{
  Mutex, Phase, idle, trying, swapping, claimed, holding, clearing, is_fred, start, try_lock1,
  after_try1, try_lock2, after_try2,
}
use libfibre.SpinCondMutex.System.{System}

-- The fred has the value: no other fred may take it.
abbrev pub has : Phase → Bool
has claimed = true
has holding = true
has clearing = true
has _ = false

abbrev pub holds : Phase → Bool
holds holding = true
holds _ = false

pub record Exclusive (m : Mutex) (phase : ℕ → Phase) : Type 0 where
  pub one : (f g : ℕ) → has (phase f) ≡ true → has (phase g) ≡ true → f ≡ g
  pub taken : (f : ℕ) → has (phase f) ≡ true → m.value ≢ 0
  pub holder : (m.value ≡ 0) ⊎ ((f : ℕ) × (has (phase f) ≡ true))
  pub owned : (f : ℕ) → is_fred m.owner f ≡ holds (phase f)
  pub small : m.value ≤ 2

-- A test of the phases, before and after one fred changes its phase.
module _ (test : Phase → Bool) (phase : ℕ → Phase) (f : ℕ) (p : Phase) where
  pub test-update :
      (g : ℕ) → test (update phase f p g) ≡ (if g == f then test p else test (phase g))
  test-update g = elim (Bool-cases (g == f)) [ inl e ↦ rw e refl | inr e ↦ rw e refl ]

  pub test-kept : test p ≡ test (phase f) → (g : ℕ) → test (update phase f p g) ≡ test (phase g)
  test-kept e g = test-update g ∙ (elim (Bool-cases (g == f)) [
    | inl h ↦ rw h (e ∙ ap (λ (k : ℕ). test (phase k)) {x = f} {y = g} (ground (arith, h)))
    | inr h ↦ rw h refl
  ])

-- A step that changes neither what a fred has nor the mutex's value and owner.
same-Exclusive :
    (m m' : Mutex) (phase : ℕ → Phase) (f : ℕ) (p : Phase)
    → Exclusive m phase
    → m'.value ≡ m.value
    → m'.owner ≡ m.owner
    → has p ≡ has (phase f)
    → holds p ≡ holds (phase f)
    → Exclusive m' (update phase f p)
same-Exclusive m m' phase f p x ev eo eh el =
    let same = test-kept has phase f p eh in
    record {
      one = λ g h a b. x.one g h (sym (same g) ∙ a) (sym (same h) ∙ b);
      taken = λ g a. ground (arith, x.taken g (sym (same g) ∙ a), ev);
      holder = elim x.holder [ inl z ↦ inl (ev ∙ z) | inr (g, a) ↦ inr (g, same g ∙ a) ];
      owned = λ g.
          ap (λ (o : Option ℕ). is_fred o g) eo ∙ x.owned g ∙ sym (test-kept holds phase f p el g);
      small = ground (arith, ev, x.small);
    }

-- A fred takes the value, which was 0.
taken-Exclusive :
    (m m' : Mutex) (phase : ℕ → Phase) (f : ℕ)
    → Exclusive m phase
    → m.value ≡ 0
    → (m'.value ≢ 0) × (m'.value ≤ 2)
    → m'.owner ≡ m.owner
    → Exclusive m' (update phase f claimed)
taken-Exclusive m m' phase f x z (nz, le) eo =
    let nobody : (g : ℕ) → has (phase g) ≡ false = λ g. ground (arith, x.taken g, z) in
    let now = test-update has phase f claimed in
    record {
      one = λ g h a b. ground (arith, now g, now h, nobody g, nobody h, a, b);
      taken = λ g a. nz;
      holder = inr (f, now f ∙ ground arith);
      owned = λ g.
          ap (λ (o : Option ℕ). is_fred o g) eo
          ∙ x.owned g
          ∙ ground (arith, test-update holds phase f claimed g, has_holds (phase g), nobody g);
      small = le;
    }
  where
    has_holds : (p : Phase) → (holds p || has p) ≡ has p
    has_holds p = ground arith

-- The exchange fails: the value was not 0 and is 2 then.
swapped-Exclusive :
    (m : Mutex) (phase : ℕ → Phase) (f : ℕ) (p : Phase)
    → Exclusive m phase
    → m.value ≢ 0
    → has p ≡ has (phase f)
    → holds p ≡ holds (phase f)
    → Exclusive (record m { value = 2 }) (update phase f p)
swapped-Exclusive m phase f p x nz eh el =
    let y = same-Exclusive m m phase f p x refl refl eh el in
    record {
      one = y.one;
      taken = λ g a. ground arith;
      holder = elim y.holder [ inl z ↦ absurd (nz z) | inr h ↦ inr h ];
      owned = y.owned;
      small = omega arith;
    }

holds-has : (p : Phase) → holds p ≡ true → has p ≡ true
holds-has p e = ground (arith, e)

-- While a fred has the value no other holds the mutex.
others :
    (m : Mutex) (phase : ℕ → Phase) (f g : ℕ)
    → Exclusive m phase
    → has (phase f) ≡ true
    → (g == f) ≡ false
    → (has (phase g) ≡ false) × (holds (phase g) ≡ false)
others m phase f g x e ne =
    (ground (arith, x.one g f, e, ne), ground (arith, x.one g f, e, ne, holds-has (phase g)))

pub owner-Exclusive :
    (m : Mutex) (phase : ℕ → Phase) (f : ℕ) (p : Phase) (o : Option ℕ)
    → Exclusive m phase
    → has (phase f) ≡ true
    → has p ≡ true
    → ((g : ℕ) → is_fred o g ≡ (if g == f then holds p else false))
    → Exclusive (record m { owner = o }) (update phase f p)
owner-Exclusive m phase f p o x e h w =
    let same = test-kept has phase f p (h ∙ sym e) in
    record {
      one = λ g k a b. x.one g k (sym (same g) ∙ a) (sym (same k) ∙ b);
      taken = λ g a. x.taken g (sym (same g) ∙ a);
      holder = elim x.holder [ inl z ↦ inl z | inr (g, a) ↦ inr (g, same g ∙ a) ];
      owned = λ g. w g ∙ (elim (Bool-cases (g == f)) [
        | inl c ↦ rw c refl
        | inr c ↦ rw c (sym ((others m phase f g x e c).1))
      ]);
      small = x.small;
    }

pub freed-Exclusive :
    (m : Mutex) (phase : ℕ → Phase) (f : ℕ) (p : Phase)
    → Exclusive m phase
    → phase f ≡ clearing
    → has p ≡ false
    → holds p ≡ false
    → Exclusive (record m { value = 0 }) (update phase f p)
freed-Exclusive m phase f p x e h l =
    let had : has (phase f) ≡ true = ap has e in
    let nobody : (g : ℕ) → has (update phase f p g) ≡ false = λ g.
      test-update has phase f p g ∙ (elim (Bool-cases (g == f)) [
        | inl c ↦ rw c h
        | inr c ↦ rw c ((others m phase f g x had c).0)
      ]) in
    record {
      one = λ g k a b. absurd (ground (arith, nobody g, a));
      taken = λ g a. absurd (ground (arith, nobody g, a));
      holder = inl refl;
      owned = λ g. x.owned g ∙ sym (test-kept holds phase f p (l ∙ sym (ap holds e)) g);
      small = omega arith;
    }

module _ (s : System) (x : Exclusive s.mutex s.phase) where
  -- The phase changes between two in which the fred has nothing.
  pub moves :
      (m' : Mutex) (f : ℕ) (q p : Phase)
      → s.phase f ≡ q
      → (has q ≡ false) × (has p ≡ false)
      → m'.value ≡ s.mutex.value
      → m'.owner ≡ s.mutex.owner
      → Exclusive m' (update s.phase f p)
  moves m' f q p e (a, b) ev eo =
      same-Exclusive s.mutex m' s.phase f p x ev eo (ground (arith, ap has e, a, b))
        (ground (arith, ap has e, a, b, holds-has p, holds-has (s.phase f)))

  pub start-free :
      (owner_lock : Bool) (args : _) (f : ℕ) (p : Phase)
      → s.phase f ≡ idle
      → start owner_lock args f s.mutex ≡ some p
      → has p ≡ false
  unfolding start
  start-free owner_lock args f p e h = ground (arith, x.owned f, ap holds e, h)

  pub tries-Exclusive :
      (once more : Bool) (f : ℕ)
      → s.phase f ≡ trying once
      → Exclusive
          (try_lock1 s.mutex).1
          (update s.phase f (after_try1 once more (try_lock1 s.mutex).0 s.mutex.value))
  unfolding try_lock1 after_try1
  tries-Exclusive once more f e = elim (Bool-cases (s.mutex.value == 0)) [
    | inl z ↦ rw z (
        taken-Exclusive s.mutex (record s.mutex { value = 1 }) s.phase f x (ground (arith, z))
          (ground arith) refl)
    | inr z ↦ rw z (moves s.mutex f (trying once) _ e (refl, ground arith) refl refl)
  ]

  pub swaps-Exclusive :
      (more : Bool) (f : ℕ)
      → s.phase f ≡ swapping
      → Exclusive (try_lock2 s.mutex).1 (update s.phase f (after_try2 more (try_lock2 s.mutex).0))
  unfolding try_lock2 after_try2
  swaps-Exclusive more f e = elim (Bool-cases (s.mutex.value == 0)) [
    | inl z ↦ rw z (
        taken-Exclusive s.mutex (record s.mutex { value = 2 }) s.phase f x (ground (arith, z))
          (ground arith) refl)
    | inr z ↦ rw z (
        swapped-Exclusive s.mutex s.phase f _ x (ground (arith, z)) (ground (arith, ap has e))
          (ground (arith, ap holds e)))
  ]
