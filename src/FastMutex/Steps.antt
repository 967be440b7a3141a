-- ===== src/FastMutex/Steps.antt =====
-- Every step of a FastMutex keeps its invariant.
use libfibre.Base.{
  ℕ, suc, ◌≡◌, ◌≢◌, refl, sym, ap, ◌∙◌, Bool, true, false, none, some, List, [], ◌∷◌, ◌++◌, ◌==◌,
  update, erase, mem, length, length-append, length-erase, arith, Bool-cases, inl, inr,
}
use libfibre.Base.Int.{ℤ, pos, pos_part, neg_part}
use libfibre.Benaphore
use libfibre.Benaphore.{v_round, Round}
use libfibre.LimitedSemaphore
use libfibre.Base.Tracking.{Tracks, Tracks-stay, Tracks-erase, Tracks-snoc, Tracks-tail}
use libfibre.LockedSemaphore.{SemaphoreResult}
use libfibre.FastMutex
use libfibre.FastMutex.{p, try_lock, internal_acquire}
use libfibre.FastMutex.Invariant.{
  Inv, is_idle, is_pushing, is_sleeping, is_popping, is_holding, is_untracked, Expects, non_null,
  null-update, Expects-update, Owned-keep, Owned-drop, move, keep, try-Inv,
}
use libfibre.FastMutex.System.{
  Pc, idle, spinning, paying, pushing, sleeping, retrying, holding, popping, posting, System, go,
  Step, enter, enter_try, spin, give_up, pay, block, push, retry, release, again, stored, owing,
  pop, Reach, here, later,
}

-- What the operations of the benaphore do to its counter.
pub p-some :
    (counter : ℤ) (r : SemaphoreResult) (c : ℤ)
    → p counter ≡ (some r, c)
    → (pos_part counter ≡ suc (pos_part c)) × (neg_part c ≡ neg_part counter)
unfolding p Benaphore.p
p-some counter r c h = ground (arith, h)

pub p-none :
    (counter c : ℤ)
    → p counter ≡ (none, c)
    → (pos_part counter ≡ 0) × (pos_part c ≡ 0) × (neg_part c ≡ suc (neg_part counter))
unfolding p Benaphore.p
p-none counter c h = ground (arith, h)

pub round_again :
    (c c' counter n : ℤ)
    → v_round c counter ≡ (Round.again c', n)
    → (n ≡ counter) × (pos_part c' ≡ 0)
unfolding v_round
round_again c c' counter n h = ground (arith, h)

pub round_stored :
    (c counter n : ℤ)
    → pos_part c ≡ 0
    → v_round c counter ≡ (Round.returns true, n)
    → (neg_part n ≡ neg_part counter) × (pos_part n ≡ 1)
unfolding v_round
round_stored c counter n z h = ground (arith, h, z)

pub round_owing :
    (c counter n : ℤ)
    → pos_part c ≡ 0
    → v_round c counter ≡ (Round.returns false, n)
    → (neg_part counter ≡ suc (neg_part n)) × (pos_part n ≡ 0)
unfolding v_round
round_owing c counter n z h = ground (arith, h, z)

pub popped :
    (queue rest : List ℕ) (f : ℕ) → LimitedSemaphore.pop queue ≡ (some f, rest) → queue ≡ f ∷ rest
unfolding LimitedSemaphore.pop
popped [] rest f h = cc
popped (x ∷ xs) rest f h = cc

released : (i o owner : ℕ) → FastMutex.release i owner ≡ some o → o ≡ 0
unfolding FastMutex.release
released i o owner h = ground (arith, h)

pub entered :
    (i o owner : ℕ) (b : Bool)
    → internal_acquire false true i owner ≡ (FastMutex.Entry.returns b, o)
    → try_lock i owner ≡ (b, o)
unfolding internal_acquire
entered i o owner b h = ground (arith, h)

pub apart : (i : ℕ) → i ≢ 0 → (0 == i) ≡ false
apart i h = ground (arith, h)

pub heads : (f : ℕ) (rest : List ℕ) → mem f (f ∷ rest) ≡ true
heads f rest = ground arith

pub expected : {s : System} → Inv s → (i : ℕ) (c : ℤ) → s.pc i ≡ posting c → pos_part c ≡ 0
expected {s} v i c e = at (s.pc i) e (v.expects i)
  where
    at : (x : Pc) → x ≡ posting c → Expects x → pos_part c ≡ 0
    at x h k = ground (arith, h, k)

module _ {s : System} (v : Inv s) (i : ℕ) where
  release-Inv :
      (o : ℕ)
      → s.pc i ≡ holding
      → FastMutex.release i s.owner ≡ some o
      → Inv (go i (posting (pos 0)) (record s { owner = o }))
  release-Inv o e h = rw (released i o s.owner h) (
      move i (posting (pos 0)) v (non_null i v (ap is_idle e)) refl s.counter 0 (ap is_untracked e)
        refl (Owned-drop s.pc i (posting (pos 0)) s.owner v.owned (ap is_holding e) refl) refl
        v.capped)

  block-Inv :
      (c : ℤ)
      → s.pc i ≡ paying
      → p s.counter ≡ (none, c)
      → Inv (go i pushing (record s { counter = c; pushers = s.pushers ++ i ∷ [] }))
  block-Inv c e h =
      let n = p-none s.counter c h in
      record {
        null = null-update s.pc i pushing v.null (non_null i v (ap is_idle e));
        owned = Owned-keep s.pc i pushing s.owner v.owned (ap is_holding e);
        pushing = Tracks-snoc is_pushing s.pc i pushing v.pushing (ap is_pushing e) refl;
        sleeping = Tracks-stay is_sleeping s.pc i pushing v.sleeping (ap is_sleeping e);
        popping = Tracks-stay is_popping s.pc i pushing v.popping (ap is_popping e);
        balance = omega (arith, v.balance, n.2, length-append s.pushers (i ∷ []));
        capped = omega (arith, n.1);
        expects = Expects-update s.pc i pushing v.expects tt;
      }

  push-Inv :
      s.pc i ≡ pushing
      → Inv (
          go i sleeping
            (record s { queue = LimitedSemaphore.p i s.queue; pushers = erase i s.pushers }))
  unfolding LimitedSemaphore.p
  push-Inv e = record {
    null = null-update s.pc i sleeping v.null (non_null i v (ap is_idle e));
    owned = Owned-keep s.pc i sleeping s.owner v.owned (ap is_holding e);
    pushing = Tracks-erase is_pushing s.pc i sleeping v.pushing refl;
    sleeping = Tracks-snoc is_sleeping s.pc i sleeping v.sleeping (ap is_sleeping e) refl;
    popping = Tracks-stay is_popping s.pc i sleeping v.popping (ap is_popping e);
    balance = omega (
      arith,
      v.balance,
      length-append s.queue (i ∷ []),
      length-erase i s.pushers (v.pushing.same i ∙ ap is_pushing e),
    );
    capped = v.capped;
    expects = Expects-update s.pc i sleeping v.expects tt;
  }

  owing-Inv :
      (c n : ℤ)
      → s.pc i ≡ posting c
      → v_round c s.counter ≡ (Round.returns false, n)
      → Inv (go i popping (record s { counter = n; poppers = s.poppers ++ i ∷ [] }))
  owing-Inv c n e h =
      let m = round_owing c s.counter n (expected v i c e) h in
      record {
        null = null-update s.pc i popping v.null (non_null i v (ap is_idle e));
        owned = Owned-keep s.pc i popping s.owner v.owned (ap is_holding e);
        pushing = Tracks-stay is_pushing s.pc i popping v.pushing (ap is_pushing e);
        sleeping = Tracks-stay is_sleeping s.pc i popping v.sleeping (ap is_sleeping e);
        popping = Tracks-snoc is_popping s.pc i popping v.popping (ap is_popping e) refl;
        balance = omega (arith, v.balance, m.0, length-append s.poppers (i ∷ []));
        capped = omega (arith, m.1);
        expects = Expects-update s.pc i popping v.expects tt;
      }

  -- The fred that is popped sleeps, and is not the one that pops it.
  pub front_sleeps :
      (f : ℕ) (rest : List ℕ)
      → s.pc i ≡ popping
      → LimitedSemaphore.pop s.queue ≡ (some f, rest)
      → (s.pc f ≡ sleeping) × ((i == f) ≡ false)
  front_sleeps f rest e h =
      let q = popped s.queue rest f h in
      let there : mem f s.queue ≡ true = rw q (heads f rest) in
      let asleep = sleeping_at (s.pc f) (sym there ∙ v.sleeping.same f) in
      (asleep, elim (Bool-cases (i == f)) [ inl k ↦ absurd (clash k asleep) | inr k ↦ k ])
    where
      sleeping_at : (x : Pc) → true ≡ is_sleeping x → x ≡ sleeping
      sleeping_at x k = ground (arith, k)

      clash : (i == f) ≡ true → s.pc f ≡ sleeping → ⊥
      clash k a =
          let same : i ≡ f = ground (arith, k) in
          let both : popping ≡ sleeping = sym e ∙ ap (λ j. s.pc j) same ∙ a in cc

  pop-Inv :
      (f : ℕ) (rest : List ℕ)
      → s.pc i ≡ popping
      → LimitedSemaphore.pop s.queue ≡ (some f, rest)
      → Inv (go i idle (go f retrying (record s { queue = rest; poppers = erase i s.poppers })))
  pop-Inv f rest e h =
      let q = popped s.queue rest f h in
      let first : Tracks is_sleeping s.pc (f ∷ rest) = rw (← q) v.sleeping in
      let (asleep, apart) = front_sleeps f rest e h in
      let before : update s.pc f retrying i ≡ popping = rw apart e in
      record {
        null =
            null-update (update s.pc f retrying) i idle
              (null-update s.pc f retrying v.null (non_null f v (ap is_idle asleep)))
              (non_null i v (ap is_idle e));
        owned =
            Owned-keep (update s.pc f retrying) i idle s.owner
              (Owned-keep s.pc f retrying s.owner v.owned (ap is_holding asleep))
              (ap is_holding before);
        pushing =
            Tracks-stay is_pushing (update s.pc f retrying) i idle
              (Tracks-stay is_pushing s.pc f retrying v.pushing (ap is_pushing asleep))
              (ap is_pushing before);
        sleeping =
            Tracks-stay is_sleeping (update s.pc f retrying) i idle
              (Tracks-tail is_sleeping s.pc f retrying first refl) (ap is_sleeping before);
        popping =
            Tracks-erase is_popping (update s.pc f retrying) i idle
              (Tracks-stay is_popping s.pc f retrying v.popping (ap is_popping asleep)) refl;
        balance = omega (
          arith,
          v.balance,
          ap length q,
          length-erase i s.poppers (v.popping.same i ∙ ap is_popping e),
        );
        capped = v.capped;
        expects =
            Expects-update (update s.pc f retrying) i idle
              (Expects-update s.pc f retrying v.expects tt) tt;
      }

pub Step-Inv : {s t : System} → Step s t → Inv s → Inv t
unfolding internal_acquire
Step-Inv {s} (enter i o e nz h) v =
    keep i spinning v (apart i nz) tt s.counter (ap is_untracked e) refl (ap is_holding e) refl
      v.capped
Step-Inv {s} (enter_try i o b e nz h) v =
    try-Inv i o b idle v (apart i nz) (ap is_holding e) (ap is_untracked e) refl refl tt
      (entered i o s.owner b h)
Step-Inv {s} (spin i o b e h) v =
    try-Inv i o b spinning v (non_null i v (ap is_idle e)) (ap is_holding e) (ap is_untracked e)
      refl refl tt h
Step-Inv {s} (give_up i e) v =
    keep i paying v (non_null i v (ap is_idle e)) tt s.counter (ap is_untracked e) refl
      (ap is_holding e) refl v.capped
Step-Inv {s} (pay i r c e h) v =
    let n = p-some s.counter r c h in
    keep i retrying v (non_null i v (ap is_idle e)) tt c (ap is_untracked e) refl (ap is_holding e)
      n.1 (omega (arith, n.0, v.capped))
Step-Inv (block i c e h) v = block-Inv v i c e h
Step-Inv (push i e) v = push-Inv v i e
Step-Inv {s} (retry i o b e h) v =
    try-Inv i o b paying v (non_null i v (ap is_idle e)) (ap is_holding e) (ap is_untracked e) refl
      refl tt h
Step-Inv {s} (release i o e h) v = release-Inv v i o e h
Step-Inv {s} (again i c c' n e h) v =
    let m = round_again c c' s.counter n h in
    rw m.0 (
      keep i (posting c') v (non_null i v (ap is_idle e)) m.1 s.counter (ap is_untracked e) refl
        (ap is_holding e) refl v.capped)
Step-Inv {s} (stored i c n e h) v =
    let m = round_stored c s.counter n (expected v i c e) h in
    keep i idle v (non_null i v (ap is_idle e)) tt n (ap is_untracked e) refl (ap is_holding e) m.0
      (omega (arith, m.1))
Step-Inv (owing i c n e h) v = owing-Inv v i c n e h
Step-Inv (pop i f rest e h) v = pop-Inv v i f rest e h

pub Reach-Inv : {s : System} → Reach s → Inv s
Reach-Inv here = record {
  null = refl;
  owned = λ f. ground arith;
  pushing = record { once = tt; same = λ f. refl };
  sleeping = record { once = tt; same = λ f. refl };
  popping = record { once = tt; same = λ f. refl };
  balance = refl;
  capped = omega arith;
  expects = λ f. tt;
}
Reach-Inv (later r step) = Step-Inv step (Reach-Inv r)
