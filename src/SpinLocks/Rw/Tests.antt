-- ===== src/SpinLocks/Rw/Tests.antt =====
-- A writer and a bystander, and the theorems there.
use libfibre.Base.{◌≡◌, refl, false, arith}
use libfibre.Base.Int.{pos, negsuc}
use libfibre.SpinLocks.Rw.{
  System, writing, may_write, try_write, Reach, here, later, write_state, write_win,
}
use libfibre.SpinLocks.Rw.Exclusion.{reads, writes, spin_writer_alone}

written : (s : System) × Reach s × (s.pc 1 ≡ writing) × (s.state ≡ negsuc 0)
unfolding try_write may_write
written =
    (_, later (later here (write_state 1 refl refl)) (write_win 1 (pos 0) refl refl), refl, refl)

spin_writer_alone_example : (reads (written.0.pc 2) ≡ false) × (writes (written.0.pc 2) ≡ false)
unfolding written
spin_writer_alone_example = spin_writer_alone written.1 1 2 refl (omega arith)
