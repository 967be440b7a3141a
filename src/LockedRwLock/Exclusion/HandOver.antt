-- ===== src/LockedRwLock/Exclusion/HandOver.antt =====
-- `release`: at most one of the two attempts wakes a fred, and that fred is let in as what it
-- waits for.
use mathlib.Core.Path.{subst}
use libfibre.Base.{
  ℕ, ==_true, ==_false, ◌∙◌, ◌≡◌, refl, sym, ◌≢◌, ◌⊎◌, inl, inr, true, false, Option, none, some,
  List, arith, update, erase, Bool-cases, ap,
}
use libfibre.Base.Int.{neg_part, inc, dec, pos, ltb_ℤ}
use libfibre.Freds.{Freds, resume}
use libfibre.BlockingQueue.{unblock, notify}
use libfibre.LockedRwLock.{
  RwLock, admit, admit_writer, wake_reader, wake_writer, or_else, hand_over, release,
}
use libfibre.LockedRwLock.System.{
  Role, outside, reading, writing, System, let_in, admitted, do_release,
}
use libfibre.LockedRwLock.Exclusion.Shared.{Shared, SharedIn}
use libfibre.LockedRwLock.Exclusion.Wakes.{
  Waited, wake_reader-Shared, wake_writer-Shared, notify-Shared,
}
use libfibre.LockedRwLock.Exclusion.Passes.{quit_reader-Shared, quit_writer-Shared}

module _ (role : ℕ → Role) (rs ws : List ℕ) (qr qw : ℕ) where
  -- The invariant after a wake, with the woken fred counted on its side.
  abbrev pub Lets : Option ℕ × RwLock × Freds → Type 0
  Lets (next, l, w) = Shared role (admitted qr w next rs) (admitted qw w next ws) l w

  reader_Lets :
      (next : Option ℕ) (l : RwLock) (w : Freds)
      → Shared role (let_in next rs) ws l w × Waited qr next w
      → qr ≢ qw
      → Lets (next, l, w)
  reader_Lets none l w (i, at) ne = i
  reader_Lets (some f) l w (i, at) ne =
      rw (==_true at, ==_false {a = w.blocked_on f} {b = qw} (λ e. ne (sym at ∙ e))) i

  writer_Lets :
      (next : Option ℕ) (l : RwLock) (w : Freds)
      → Shared role rs (let_in next ws) l w × Waited qw next w
      → qr ≢ qw
      → Lets (next, l, w)
  writer_Lets none l w (i, at) ne = i
  writer_Lets (some f) l w (i, at) ne =
      rw (==_true at, ==_false {a = w.blocked_on f} {b = qr} (λ e. ne (sym e ∙ at))) i

  -- The lock is open after a failed first attempt, which kept the addresses.
  record Opened (next : Option ℕ) (l : RwLock) : Type 0 where
    state_open : next ≡ none → l.state ≡ pos 0
    address_r : l.bq_r.address ≡ qr
    address_w : l.bq_w.address ≡ qw

  writer_first :
      (next : Option ℕ) (l : RwLock) (w : Freds)
      → Shared role rs (let_in next ws) l w × Waited qw next w
      → Opened next l
      → qr ≢ qw
      → Lets (or_else (next, l, w) wake_reader)
  writer_first (some f) l w i o ne = writer_Lets (some f) l w i ne
  writer_first none l w (i, at) o ne =
      let z : neg_part l.state ≡ 0 = ground (arith, o.state_open refl) in
      let (j, at') = wake_reader-Shared role rs ws l w i z in
      let (next, l', w') = wake_reader l w in
      reader_Lets next l' w' (j, subst (λ q. Waited q next w') o.address_r at') ne

  reader_first :
      (next : Option ℕ) (l : RwLock) (w : Freds)
      → Shared role (let_in next rs) ws l w × Waited qr next w
      → Opened next l
      → qr ≢ qw
      → Lets (or_else (next, l, w) wake_writer)
  reader_first (some f) l w i o ne = reader_Lets (some f) l w i ne
  reader_first none l w (i, at) o ne =
      let (j, at') = wake_writer-Shared role rs ws l w i (o.state_open refl) in
      let (next, l', w') = wake_writer l w in
      writer_Lets next l' w' (j, subst (λ q. Waited q next w') o.address_w at') ne

  -- A reader that leaves: the next writer, or else a reader, if it was the last one.
  last_reader :
      (l : RwLock) (w : Freds)
      → Shared role rs ws l w
      → l.state ≡ pos 0
      → l.bq_r.address ≡ qr
      → l.bq_w.address ≡ qw
      → qr ≢ qw
      → Lets (or_else (wake_writer l w) wake_reader)
  unfolding wake_writer unblock
  last_reader l w i z er ew ne =
      let (j, at) = wake_writer-Shared role rs ws l w i z in
      let (next, l', w') = wake_writer l w in
      writer_first next l' w' (j, subst (λ q. Waited q next w') ew at)
        (record {
          state_open = λ e. ap (λ n. admit_writer n l.state) e ∙ z;
          address_r = er;
          address_w = ew;
        })
        ne

  -- A writer that leaves: the next reader, or else a writer.
  last_writer :
      (l : RwLock) (w : Freds)
      → Shared role rs ws l w
      → l.state ≡ pos 0
      → l.bq_r.address ≡ qr
      → l.bq_w.address ≡ qw
      → qr ≢ qw
      → Lets (or_else (wake_reader l w) wake_writer)
  unfolding wake_reader unblock
  last_writer l w i z er ew ne =
      let (j, at) = wake_reader-Shared role rs ws l w i (ground (arith, z)) in
      let (next, l', w') = wake_reader l w in
      reader_first next l' w' (j, subst (λ q. Waited q next w') er at)
        (record {
          state_open = λ e. ap (λ n. admit n l.state) e ∙ z;
          address_r = er;
          address_w = ew;
        })
        ne

  notify-Lets :
      (next : Option ℕ) (l : RwLock) (w : Freds)
      → Lets (next, l, w)
      → Lets (next, l, notify true next w)
  unfolding resume
  notify-Lets none l w i = i
  notify-Lets (some f) l w i = notify-Shared role _ _ l w (some f) i

-- `release` by a reader or a writer keeps the invariant.
module _ (f : ℕ) (s : System) (i : SharedIn s) where
  hand_over-reader :
      s.role f ≡ reading
      → Lets
          (update s.role f outside)
          (erase f s.readers)
          (erase f s.writers)
          s.lock.bq_r.address
          s.lock.bq_w.address
          (hand_over s.lock s.freds)
  unfolding hand_over
  hand_over-reader r =
      let ((no_writer, many), j) = quit_reader-Shared f s i r in
      let open_test : ltb_ℤ (pos 0) s.lock.state ≡ true = ground arith in
      rw open_test (elim (Bool-cases (ltb_ℤ (pos 0) (dec s.lock.state))) [
        | inl e ↦ rw e j
        | inr e ↦ rw e (
            last_reader _ _ _ _ _ (record s.lock { state = dec s.lock.state }) s.freds j
              (ground arith) refl refl i.apart)
      ])

  hand_over-writer :
      s.role f ≡ writing
      → Lets
          (update s.role f outside)
          (erase f s.readers)
          (erase f s.writers)
          s.lock.bq_r.address
          s.lock.bq_w.address
          (hand_over s.lock s.freds)
  unfolding hand_over
  hand_over-writer r =
      let (z, j) = quit_writer-Shared f s i r in
      let closed_test : ltb_ℤ (pos 0) s.lock.state ≡ false = ground (arith, z) in
      rw closed_test (
        last_writer _ _ _ _ _ (record s.lock { state = inc s.lock.state }) s.freds j (ap inc z) refl
          refl i.apart)

  pub do_release-Shared : (s.role f ≡ reading) ⊎ (s.role f ≡ writing) → SharedIn (do_release f s)
  unfolding do_release release
  do_release-Shared h = elim h [
    | inl r ↦
        notify-Lets _ _ _ _ _ (hand_over s.lock s.freds).0 (hand_over s.lock s.freds).1
          (hand_over s.lock s.freds).2 (hand_over-reader r)
    | inr r ↦
        notify-Lets _ _ _ _ _ (hand_over s.lock s.freds).0 (hand_over s.lock s.freds).1
          (hand_over s.lock s.freds).2 (hand_over-writer r)
  ]
