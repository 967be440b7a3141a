-- ===== src/TimerQueue/Expiry.antt =====
-- What `checkExpiry` does to a sorted queue.
use mathlib.Core.List.{append_assoc, append-nil}
use libfibre.Base.{
  ℕ, ◌≡◌, refl, sym, ◌∙◌, true, false, some, List, [], ◌∷◌, ◌++◌, ◌==◌, if◌then◌else◌, update,
  arith, Bool-cases, inl, inr,
}
use libfibre.Time.{Time, lt}
use libfibre.Freds.{Freds, race_resume, resume}
use libfibre.TimerQueue.{Entry, Timers, expire, check_loop, check_expiry}
use libfibre.TimerQueue.Order.{Later, IsSorted, IsOnce, holds}

-- The elements that are not due at the time.
abbrev pub upcoming : Time → List Entry → List Entry
upcoming now [] = []
upcoming now (e ∷ es) = if lt now e.time then e ∷ upcoming now es else upcoming now es

-- The freds whose time has come and whose race is open, in the order of the elements.
abbrev pub overdue : Time → (ℕ → ℕ) → List Entry → List ℕ
overdue now info [] = []
overdue now info (e ∷ es) =
    if lt now e.time
    then overdue now info es
    else if info e.fred == 0
    then e.fred ∷ overdue now info es
    else overdue now info es

lt_le_trans : (a b c : Time) → lt a b ≡ true → lt c b ≡ false → lt a c ≡ true
unfolding lt
lt_le_trans a b c h k = ground (arith, h, k)

Later-upcoming :
    (now t : Time) (es : List Entry) → lt now t ≡ true → Later t es → upcoming now es ≡ es
Later-upcoming now t [] h l = refl
Later-upcoming now t (e ∷ es) h l =
    rw (lt_le_trans now t e.time h l.0, Later-upcoming now t es h l.1)

Later-overdue :
    (now t : Time) (info : ℕ → ℕ) (es : List Entry)
    → lt now t ≡ true
    → Later t es
    → overdue now info es ≡ []
Later-overdue now t info [] h l = refl
Later-overdue now t info (e ∷ es) h l =
    rw (lt_le_trans now t e.time h l.0, Later-overdue now t info es h l.1)

-- A race that ends does not count for the elements of other nodes.
overdue-update :
    (now : Time) (info : ℕ → ℕ) (f m : ℕ) (es : List Entry)
    → holds f es ≡ false
    → overdue now (update info f m) es ≡ overdue now info es
overdue-update now info f m [] h = refl
overdue-update now info f m (e ∷ es) h = ground (arith, overdue-update now info f m es, h)

-- The three rounds of the loop.
module _ (now : Time) (e : Entry) (es : List Entry) (t : Timers) (w : Freds) where
  check_loop_step : check_loop now (e ∷ es) t w ≡ (
      if lt now e.time
      then (record t { queue = e ∷ es; armed = some e.time }, w)
      else check_loop now es (expire e t w).0 (expire e t w).1)
  unfolding check_loop
  check_loop_step = refl

  expire_won :
      (w.info e.fred == 0) ≡ true
      → expire e t w ≡ (
        t,
        record w { info = update w.info e.fred t.address; resumed = w.resumed ++ e.fred ∷ [] },
      )
  unfolding expire race_resume resume
  expire_won q = rw q

  expire_lost :
      (w.info e.fred == 0) ≡ false
      → expire e t w ≡ (record t { expired = update t.expired e.fred true }, w)
  unfolding expire race_resume
  expire_lost q = rw q

  pub check_loop_stop :
      lt now e.time ≡ true
      → check_loop now (e ∷ es) t w ≡ (record t { queue = e ∷ es; armed = some e.time }, w)
  check_loop_stop p = rw (check_loop_step, p)

  pub check_loop_won :
      lt now e.time ≡ false
      → (w.info e.fred == 0) ≡ true
      → check_loop now (e ∷ es) t w
        ≡ check_loop now es t
            (record w { info = update w.info e.fred t.address; resumed = w.resumed ++ e.fred ∷ [] })
  check_loop_won p q = rw (check_loop_step, p, expire_won q)

  pub check_loop_lost :
      lt now e.time ≡ false
      → (w.info e.fred == 0) ≡ false
      → check_loop now (e ∷ es) t w
        ≡ check_loop now es (record t { expired = update t.expired e.fred true }) w
  check_loop_lost p q = rw (check_loop_step, p, expire_lost q)

abbrev Checked : Time → List Entry → (w : Freds) → Timers × Freds → Type 0
Checked now es w r =
    (r.0.queue ≡ upcoming now es) × (r.1.resumed ≡ w.resumed ++ overdue now w.info es)

check_loop-Checked :
    (now : Time) (es : List Entry) (t : Timers) (w : Freds)
    → IsSorted es
    → IsOnce es
    → Checked now es w (check_loop now es t w)
unfolding check_loop
check_loop-Checked now [] t w s o = (refl, sym (append-nil w.resumed))
check_loop-Checked now (e ∷ es) t w s o = elim (Bool-cases (lt now e.time)) [
  | inl p ↦
      rw
        (
          check_loop_stop now e es t w p,
          p,
          Later-upcoming now e.time es p s.0,
          Later-overdue now e.time w.info es p s.0,
        )
        (refl, sym (append-nil w.resumed))
  | inr p ↦ elim (Bool-cases (w.info e.fred == 0)) [
    | inl q ↦
        let won : Freds = record w {
          info = update w.info e.fred t.address;
          resumed = w.resumed ++ e.fred ∷ [];
        } in
        let ih = check_loop-Checked now es t won s.1 o.1 in
        rw (check_loop_won now e es t w p q, p, q)
          (
            ih.0,
            ih.1
                ∙ rw (overdue-update now w.info e.fred t.address es o.0)
                    (append_assoc w.resumed (e.fred ∷ []) (overdue now w.info es)),
          )
    | inr q ↦
        rw (check_loop_lost now e es t w p q, p, q)
          (check_loop-Checked now es (record t { expired = update t.expired e.fred true }) w s.1
            o.1)
  ]
]

-- A check of a sorted queue leaves exactly the elements that are not due, in their order, and resumes
-- exactly the freds that are due and whose race was open, each once, in the order of their times.
pub check_expiry-splits :
    (now : Time) (t : Timers) (w : Freds)
    → IsSorted t.queue
    → IsOnce t.queue
    → ((check_expiry now t w).0.queue ≡ upcoming now t.queue)
      × ((check_expiry now t w).1.resumed ≡ w.resumed ++ overdue now w.info t.queue)
unfolding check_expiry
check_expiry-splits now t w s o = check_loop-Checked now t.queue t w s o
