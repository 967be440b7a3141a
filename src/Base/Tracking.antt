-- ===== src/Base/Tracking.antt =====
-- A list of the freds that are at one place of their program.
use libfibre.Base.{
  ℕ, ◌≤◌, ◌≡◌, length, refl, sym, ◌∙◌, ap, Bool, true, false, List, [], ◌∷◌, ◌++◌, ◌==◌,
  if◌then◌else◌, update, arith, ==_true, mem, erase, Distinct, mem-append, mem-erase_ne,
  mem-erase_self, Distinct-erase, Distinct-snoc, Bool-cases, inl, inr,
}

-- A list of at most one fred, and one that is not empty.
pub mem-of-one : (f g : ℕ) (l : List ℕ) → mem f l ≡ true → length l ≤ 1 → mem g l ≡ (g == f)
mem-of-one f g [] m h = cc
mem-of-one f g (x ∷ []) m h = ground (arith, m)
mem-of-one f g (x ∷ y ∷ l) m h = absurd (omega arith)

pub one-le-length : (f : ℕ) (l : List ℕ) → mem f l ≡ true → 1 ≤ length l
one-le-length f [] m = cc
one-le-length f (x ∷ l) m = omega arith

pub mem-of-none : (g : ℕ) (l : List ℕ) → length l ≡ 0 → mem g l ≡ false
mem-of-none g [] h = refl
mem-of-none g (x ∷ l) h = absurd (omega arith)

module _ {ℓ} {A : Type ℓ} where
  -- The list holds exactly the freds whose place the test accepts, each once.
  pub record Tracks (test : A → Bool) (place : ℕ → A) (l : List ℕ) : Type 0 where
    pub once : Distinct l
    pub same : (f : ℕ) → mem f l ≡ test (place f)

  module _ (test : A → Bool) (place : ℕ → A) (i : ℕ) (a : A) where
    test-update :
        (f : ℕ) (b : Bool)
        → b ≡ (if f == i then test a else test (place f))
        → b ≡ test (update place i a f)
    test-update f b h = elim (Bool-cases (f == i)) [
      | inl e ↦ rw e (rw e at h)
      | inr e ↦ rw e (rw e at h)
    ]

    -- A fred moves, and the test takes its old and its new place alike.
    pub Tracks-stay :
        {l : List ℕ}
        → Tracks test place l
        → test (place i) ≡ test a
        → Tracks test (update place i a) l
    Tracks-stay {l} t h = record {
      once = t.once;
      same = λ f. test-update f (mem f l) (elim (Bool-cases (f == i)) [
        | inl e ↦ rw e (at f (ground (arith, e)))
        | inr e ↦ rw e (t.same f)
      ]);
    }
      where
        at : (f : ℕ) → f ≡ i → mem f l ≡ test a
        at f e = t.same f ∙ ap (λ j. test (place j)) e ∙ h

    -- A fred leaves the place.
    pub Tracks-erase :
        {l : List ℕ}
        → Tracks test place l
        → test a ≡ false
        → Tracks test (update place i a) (erase i l)
    Tracks-erase {l} t h = record {
      once = Distinct-erase i l t.once;
      same = λ f. test-update f (mem f (erase i l)) (elim (Bool-cases (f == i)) [
        | inl e ↦ rw (e, h) (at f (ground (arith, e)))
        | inr e ↦ rw e (mem-erase_ne i f l (λ k. ground (arith, k, e)) ∙ t.same f)
      ]);
    }
      where
        at : (f : ℕ) → f ≡ i → mem f (erase i l) ≡ false
        at f e = ap (λ j. mem j (erase i l)) e ∙ mem-erase_self i l t.once

    -- A fred comes to the place, and goes to the end of the list.
    pub Tracks-snoc :
        {l : List ℕ}
        → Tracks test place l
        → test (place i) ≡ false
        → test a ≡ true
        → Tracks test (update place i a) (l ++ i ∷ [])
    Tracks-snoc {l} t old h = record {
      once = Distinct-snoc i l t.once (t.same i ∙ old);
      same = λ f. test-update f (mem f (l ++ i ∷ [])) (
          mem-append f l (i ∷ []) ∙ elim (Bool-cases (f == i)) [
            | inl e ↦ rw (e, h) (ground arith)
            | inr e ↦ rw (e, t.same f) (ground arith)
          ]);
    }

    -- The first fred of the list leaves the place.
    pub Tracks-tail :
        {l : List ℕ} → Tracks test place (i ∷ l) → test a ≡ false → Tracks test (update place i a) l
    Tracks-tail {l} t h =
        let r : Tracks test (update place i a) (erase i (i ∷ l)) = Tracks-erase t h in
        record { once = t.once.1; same = λ f. ap (mem f) (sym first_erased) ∙ r.same f }
      where
        first_erased : erase i (i ∷ l) ≡ l
        first_erased = rw (==_true {a = i} refl) refl

    -- A fred comes to the place, and goes to the front of the list.
    pub Tracks-cons :
        {l : List ℕ}
        → Tracks test place l
        → test (place i) ≡ false
        → test a ≡ true
        → Tracks test (update place i a) (i ∷ l)
    Tracks-cons {l} t old h = record {
      once = (t.same i ∙ old, t.once);
      same = λ f. test-update f (mem f (i ∷ l)) (elim (Bool-cases (f == i)) [
        | inl e ↦ rw (e, h) (ground arith)
        | inr e ↦ rw (e, t.same f) (ground arith)
      ]);
    }
