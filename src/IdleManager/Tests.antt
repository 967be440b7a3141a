-- ===== src/IdleManager/Tests.antt =====
-- A processor that halts and is handed a fred, and the theorems there.
use libfibre.Base.{◌≡◌, refl, true, none, some, [], ◌∷◌, arith, length}
use libfibre.Base.Int.{pos, negsuc, neg_part}
use libfibre.IdleManager.{
  block, unblock, get_ready_fred, add_ready_fred, halted, handed, System, unready, run_block, add,
  run_unblock, Reach, here, later,
}
use libfibre.IdleManager.Matching.{idle_quiescent}

resting : (s : System) × Reach true s × (s.proc 1 ≡ halted) × (s.manager.waiting_procs ≡ 1 ∷ [])
unfolding block get_ready_fred
resting = (
  _,
  later (later here (unready 1 (negsuc 0) refl refl)) (run_block 1 none _ refl refl),
  refl,
  refl,
)

served : (s : System) × Reach true s × (s.proc 1 ≡ handed 64) × (s.manager.waiting_procs ≡ [])
unfolding resting unblock add_ready_fred
served = (
  _,
  later (later resting.1 (add 9 64 1 (pos 0) refl refl)) (run_unblock 9 64 1 (some 1) _ refl refl),
  refl,
  refl,
)

idle_quiescent_example :
    (served.0.manager.waiting_freds ≡ [])
    × (length served.0.manager.waiting_procs ≡ neg_part served.0.manager.fred_counter)
unfolding served resting
idle_quiescent_example = idle_quiescent true served.1 (λ p. ground arith) (λ a. ground arith)
