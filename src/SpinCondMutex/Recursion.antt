-- ===== src/SpinCondMutex/Recursion.antt =====
-- The owner test, and the depth that class OwnerMutex counts.
use libfibre.Base.{
  ℕ, ◌+◌, ◌-◌, ◌%◌, ◌^◌, ◌<◌, ◌≡◌, Bool, true, none, some, arith, ◌==◌, if◌then◌else◌,
}
use libfibre.BlockingQueue.{Args}
use libfibre.SpinCondMutex.{holding, trying, try_only, start, Owner, acquired, released}
use libfibre.SpinCondMutex.System.{System, init, Reach}
use libfibre.SpinCondMutex.Exclusion.{holds}
use libfibre.SpinCondMutex.Holder.{Reach-Exclusive}

-- In every reachable state the test of `owner`, which is read without a lock, is right: with OwnerLock a fred that
-- holds the mutex gets it again at once; any other fred goes on to try; and the assertion fails only for a fred
-- that holds the mutex and acquires it again without OwnerLock.
pub owner_test :
    {address : ℕ} {s : System} (owner_lock : Bool) (args : Args) (f : ℕ)
    → Reach (init address) s
    → start owner_lock args f s.mutex ≡ (
        if holds (s.phase f)
        then if owner_lock then some holding else none
        else some (trying (try_only args)))
unfolding start
owner_test {address} {s} owner_lock args f r = ground (arith, (Reach-Exclusive r).owned f)

-- The release that undoes an acquisition returns the depth before it, and releases the mutex itself exactly if
-- that is 0.
pub released-acquired :
    (o : Owner)
    → o.counter + 1 < 2 ^ 64
    → released (acquired true o).1 ≡ ((o.counter, o.counter == 0), o)
unfolding released acquired
released-acquired o l =
    let up : (o.counter + 1) % 2 ^ 64 ≡ o.counter + 1 = omega (arith, l) in
    let down : (o.counter + 1 + 2 ^ 64 - 1) % 2 ^ 64 ≡ o.counter = omega (arith, l) in
    rw (up, down) (ground arith)
