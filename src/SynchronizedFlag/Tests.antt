-- ===== src/SynchronizedFlag/Tests.antt =====
-- A fred that waits and is woken by a post, and the theorems there.
use libfibre.Base.{ℕ, ◌≡◌, refl, ◌≢◌, true, Option, none, some, arith}
use libfibre.SynchronizedFlag.{
  posted, detached, wait_leave, wait, post, detach, asleep, woken, done, System, wait_suspends,
  leave, posting, Reach, here, later,
}
use libfibre.SynchronizedFlag.Joining.{join_result, sleeper_is_resumed}

sleeping : (s : System) × Reach 16 s × (s.joiner ≡ asleep)
unfolding wait
sleeping = (_, later here (wait_suspends (record { flag = 16; result = none }) refl refl), refl)

posted_first :
    (s : System) × Reach 16 s
    × (s.joiner ≡ woken)
    × (s.joinable.flag ≡ posted)
    × (s.joinable.result ≡ some 7)
unfolding sleeping post
posted_first = (
  _,
  later sleeping.1 (posting 7 true (some 16) (record { flag = posted; result = some 7 }) refl),
  refl,
  refl,
  refl,
)

joined : (s : System) × Reach 16 s × (s.joiner ≡ done true (some 7)) × (s.value ≡ some 7)
unfolding posted_first wait_leave
joined = (_, later posted_first.1 (leave true (some 7) refl refl), refl, refl)

join_result_example : (some 7 ≡ joined.0.value) × (◌≢◌ {A = Option ℕ} (some 7) none)
unfolding joined
join_result_example = join_result 16 (omega arith) joined.1 true (some 7) refl

sleeper_is_resumed_example :
    (post 7 sleeping.0.joinable ≡ some ((true, some 16), record { flag = posted; result = some 7 }))
    × (detach sleeping.0.joinable ≡ some (some 16, record sleeping.0.joinable { flag = detached }))
unfolding sleeping
sleeper_is_resumed_example = sleeper_is_resumed 16 (omega arith) sleeping.1 refl 7
