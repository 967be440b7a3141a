-- ===== src/FastMutex/Invariant.antt =====
-- The owner, the counter and the places of the freds agree.
use libfibre.Base.{
  ℕ, ◌+◌, ◌≤◌, ◌≡◌, refl, sym, ap, ◌∙◌, Bool, true, false, not, ◌&&◌, ◌==◌, if◌then◌else◌, update,
  length, arith, Bool-cases, inl, inr,
}
use libfibre.Base.Int.{ℤ, pos_part, neg_part}
use libfibre.Base.Tracking.{Tracks, Tracks-stay}
use libfibre.FastMutex.{p, try_lock}
use libfibre.FastMutex.System.{Pc, idle, pushing, sleeping, holding, popping, posting, System, go}

abbrev pub is_idle : Pc → Bool
is_idle idle = true
is_idle _ = false

abbrev pub is_pushing : Pc → Bool
is_pushing pushing = true
is_pushing _ = false

abbrev pub is_sleeping : Pc → Bool
is_sleeping sleeping = true
is_sleeping _ = false

abbrev pub is_popping : Pc → Bool
is_popping popping = true
is_popping _ = false

abbrev pub is_holding : Pc → Bool
is_holding holding = true
is_holding _ = false

-- What a fred in the loop of `ben.V` expects of the counter.
abbrev pub Expects : Pc → Type 0
Expects (posting c) = pos_part c ≡ 0
Expects _ = Unit

pub record Inv (s : System) : Type 0 where
  pub null : is_idle (s.pc 0) ≡ true
  pub owned : (f : ℕ) → is_holding (s.pc f) ≡ (not (f == 0) && (s.owner == f))
  pub pushing : Tracks is_pushing s.pc s.pushers
  pub sleeping : Tracks is_sleeping s.pc s.queue
  pub popping : Tracks is_popping s.pc s.poppers
  pub balance : neg_part s.counter + length s.poppers ≡ length s.pushers + length s.queue
  pub capped : pos_part s.counter ≤ 1
  pub expects : (f : ℕ) → Expects (s.pc f)

-- A fred moves between two places that no list tracks.
abbrev pub is_untracked : Pc → Bool
is_untracked c = not (is_pushing c) && (not (is_sleeping c) && not (is_popping c))

pub non_null : {s : System} (i : ℕ) → Inv s → is_idle (s.pc i) ≡ false → (0 == i) ≡ false
non_null {s} i v h = elim (Bool-cases (0 == i)) [
  | inl e ↦ absurd (at 0 (ground (arith, e)) v.null)
  | inr e ↦ e
]
  where
    at : (z : ℕ) → z ≡ i → is_idle (s.pc z) ≡ true → ⊥
    at z e k = ground (arith, ap (λ j. is_idle (s.pc j)) e, k, h)

pub Expects-update :
    (place : ℕ → Pc) (i : ℕ) (c : Pc)
    → ((f : ℕ) → Expects (place f))
    → Expects c
    → (f : ℕ) → Expects (update place i c f)
Expects-update place i c all one f = elim (Bool-cases (f == i)) [
  | inl e ↦ rw e one
  | inr e ↦ rw e (all f)
]

pub null-update :
    (place : ℕ → Pc) (i : ℕ) (c : Pc)
    → is_idle (place 0) ≡ true
    → (0 == i) ≡ false
    → is_idle (update place i c 0) ≡ true
null-update place i c h z = rw z h

-- The owner is the fred inside.
abbrev pub Owned : (ℕ → Pc) → ℕ → Type 0
Owned place owner = (f : ℕ) → is_holding (place f) ≡ (not (f == 0) && (owner == f))

module _ (place : ℕ → Pc) (i : ℕ) (c : Pc) (owner : ℕ) (all : Owned place owner) where
  pub Owned-keep : is_holding (place i) ≡ is_holding c → Owned (update place i c) owner
  Owned-keep h f = elim (Bool-cases (f == i)) [
    | inl e ↦
        let same : f ≡ i = ground (arith, e) in
        rw e (sym h ∙ ap (λ j. is_holding (place j)) (sym same) ∙ all f)
    | inr e ↦ rw e (all f)
  ]

  pub Owned-take :
      (0 == i) ≡ false → (owner == 0) ≡ true → is_holding c ≡ true → Owned (update place i c) i
  Owned-take z free h f = elim (Bool-cases (f == i)) [
    | inl e ↦ rw (e, h) (ground (arith, e, z))
    | inr e ↦ rw (e, all f) (ground (arith, e, free))
  ]

  pub Owned-drop : is_holding (place i) ≡ true → is_holding c ≡ false → Owned (update place i c) 0
  Owned-drop was h f = elim (Bool-cases (f == i)) [
    | inl e ↦ rw (e, h) (ground arith)
    | inr e ↦ rw (e, all f) (ground (arith, e, was, all i))
  ]

untracked_pushing :
    (x y : Pc) → is_untracked x ≡ true → is_untracked y ≡ true → is_pushing x ≡ is_pushing y
untracked_pushing x y p q = ground (arith, p, q)

untracked_sleeping :
    (x y : Pc) → is_untracked x ≡ true → is_untracked y ≡ true → is_sleeping x ≡ is_sleeping y
untracked_sleeping x y p q = ground (arith, p, q)

untracked_popping :
    (x y : Pc) → is_untracked x ≡ true → is_untracked y ≡ true → is_popping x ≡ is_popping y
untracked_popping x y p q = ground (arith, p, q)

module _ (i : ℕ) (c : Pc) {s : System} (v : Inv s) (nz : (0 == i) ≡ false) (e : Expects c) where
  -- A fred moves between places outside the lists.
  pub move :
      (n : ℤ) (o : ℕ)
      → is_untracked (s.pc i) ≡ true
      → is_untracked c ≡ true
      → Owned (update s.pc i c) o
      → neg_part n ≡ neg_part s.counter
      → pos_part n ≤ 1
      → Inv (go i c (record s { counter = n; owner = o }))
  move n o a b own same cap = record {
    null = null-update s.pc i c v.null nz;
    owned = own;
    pushing = Tracks-stay is_pushing s.pc i c v.pushing (untracked_pushing (s.pc i) c a b);
    sleeping = Tracks-stay is_sleeping s.pc i c v.sleeping (untracked_sleeping (s.pc i) c a b);
    popping = Tracks-stay is_popping s.pc i c v.popping (untracked_popping (s.pc i) c a b);
    balance = rw same v.balance;
    capped = cap;
    expects = Expects-update s.pc i c v.expects e;
  }

  pub keep :
      (n : ℤ)
      → is_untracked (s.pc i) ≡ true
      → is_untracked c ≡ true
      → is_holding (s.pc i) ≡ is_holding c
      → neg_part n ≡ neg_part s.counter
      → pos_part n ≤ 1
      → Inv (go i c (record s { counter = n }))
  keep n a b h same cap = move n s.owner a b (Owned-keep s.pc i c s.owner v.owned h) same cap

pub taken : (i o owner : ℕ) → try_lock i owner ≡ (true, o) → ((owner == 0) ≡ true) × (o ≡ i)
unfolding try_lock
taken i o owner h = ground (arith, h)

pub refused : (i o owner : ℕ) → try_lock i owner ≡ (false, o) → ((owner == 0) ≡ false) × (o ≡ owner)
unfolding try_lock
refused i o owner h = ground (arith, h)

-- The calls of `tryLock`: inside, or on to the place c.
pub try-Inv :
    (i o : ℕ) (b : Bool) (c : Pc) {s : System}
    → Inv s
    → (0 == i) ≡ false
    → is_holding (s.pc i) ≡ false
    → is_untracked (s.pc i) ≡ true
    → is_untracked c ≡ true
    → is_holding c ≡ false
    → Expects c
    → try_lock i s.owner ≡ (b, o)
    → Inv (go i (if b then holding else c) (record s { owner = o }))
try-Inv i o true c {s} v z h a k hc e t =
    let (free, same) = taken i o s.owner t in
    rw same (
      move i holding v z tt s.counter i a refl
        (Owned-take s.pc i holding s.owner v.owned z free refl) refl v.capped)
try-Inv i o false c {s} v z h a k hc e t =
    rw (refused i o s.owner t).1 (keep i c v z e s.counter a k (h ∙ sym hc) refl v.capped)
