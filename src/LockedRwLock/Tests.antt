-- ===== src/LockedRwLock/Tests.antt =====
-- The reader-writer lock at concrete inputs, its theorems there, and a run that strands a reader.
use libfibre.Base.{◌≡◌, refl, inr, [], ◌∷◌, true, arith}
use libfibre.Base.Int.{pos}
use libfibre.Freds.{race_resume, prepare_race, resume}
use libfibre.BlockingQueue.{flag, deadline, block, block_enter, block_leave, unblock, unblock_loop}
use libfibre.BlockingQueue.Order.{live}
use libfibre.LockedRwLock.{
  acquire_read, acquire_write, write_leave, hand_over, release, wake_reader, wake_writer,
}
use libfibre.LockedRwLock.System.{
  outside, System, init, do_acquire_read, do_acquire_write, do_release, do_expire, do_write_leave,
  Reach, here, later, enter_read, enter_write, leave_write, exit, expire,
}
use libfibre.LockedRwLock.Exclusion.Shared.{SharedIn}
use libfibre.LockedRwLock.Exclusion.Reachable.{Reach-Shared, writer_alone}

-- Writer 1 holds the lock, and writer 2 waits with a timeout, which strikes.
abbrev timed_out : System
timed_out =
    do_expire 2 9 (do_acquire_write (deadline 50 10) 2 (do_acquire_write (flag true) 1 (init 7 8)))

timed_out-Reach : Reach (init 7 8) timed_out
unfolding do_acquire_write acquire_write block block_enter prepare_race
timed_out-Reach =
    later
      (later (later here (enter_write 1 (flag true) refl refl))
        (enter_write 2 (deadline 50 10) refl refl))
      (expire 2 9 (omega arith) (ground arith) (ground arith))

Reach-Shared_example : SharedIn timed_out
Reach-Shared_example = Reach-Shared (omega arith) (omega arith) (omega arith) timed_out-Reach

writer_alone_example : timed_out.role 2 ≡ outside
unfolding do_expire do_acquire_write acquire_write block block_enter prepare_race race_resume
writer_alone_example =
    writer_alone (omega arith) (omega arith) (omega arith) timed_out-Reach 1 2 refl (omega arith)

-- Writer 1 leaves and finds nobody to wake; reader 3 arrives before writer 2 removes its node, and
-- waits for it; then writer 2 returns. The lock is open, nobody holds it or waits for it but
-- reader 3, and no call is left that would wake the reader.
abbrev stranded : System
stranded = do_write_leave 2 (do_acquire_read (flag true) 3 (do_release 1 timed_out))

stranded_reader :
    Reach (init 7 8) stranded
    × (stranded.lock.state ≡ pos 0)
    × (stranded.lock.bq_w.queue ≡ [])
    × (live stranded.lock.bq_r stranded.freds ≡ 3 ∷ [])
    × (stranded.readers ≡ [])
    × (stranded.writers ≡ [])
unfolding do_expire do_acquire_write acquire_write block block_enter prepare_race race_resume resume
    do_release release hand_over wake_reader wake_writer unblock unblock_loop do_acquire_read
    acquire_read do_write_leave write_leave block_leave
stranded_reader = (
  later (later (later timed_out-Reach (exit 1 (inr refl))) (enter_read 3 (flag true) refl refl))
      (leave_write 2 refl (omega arith)),
  refl,
  refl,
  refl,
  refl,
  refl,
)
