-- ===== src/SpinLocks/Ticket/Tests.antt =====
-- The ticket lock with one holder and one waiter, and its theorems there.
use libfibre.Base.{ℕ, ◌≡◌, refl, arith}
use libfibre.SpinLocks.Ticket.{holding, spinning, System, acquire, enter, take, Reach, here, later}
use libfibre.SpinLocks.Ticket.Exclusion.{ticket_mutual_exclusion}

contended : (s : System) × Reach s × (s.pc 1 ≡ holding 0) × (s.pc 2 ≡ spinning 1) × (s.issued ≡ 2)
unfolding take
contended = (
  _,
  later (later (later here (acquire 1 refl)) (enter 1 0 refl refl)) (acquire 2 refl),
  refl,
  refl,
  refl,
)

ticket_mutual_exclusion_example : ◌≡◌ {A = ℕ} 1 1
unfolding contended
ticket_mutual_exclusion_example =
    ticket_mutual_exclusion contended.1 (omega arith) 1 1 0 0 contended.2 contended.2
