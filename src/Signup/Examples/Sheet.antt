-- ===== src/Signup/Examples/Sheet.antt =====
-- The theorems of the policy, of Write and of Withdraw at the store in memory.
use raider_mate_service.Prelude.{◌≡◌, ◌⊎◌, refl, true, false, none, some, arith}
use raider_mate_service.Prelude.Int.{pos}
use raider_mate_service.Signup.Types.{
  confirmed, declined, Event, done, err, ok, event_started, signups_closed,
}
use raider_mate_service.Signup.Policy.{
  allowed_statuses, contains, has_started, check_deadline, reminder_pre_event, jobs_for,
}
use raider_mate_service.Signup.Policy.Jobs.{runs_of, due, if_future, jobs_for-due}
use raider_mate_service.Signup.Write.{keep_late_until, write, withdraw_signup, withdraw}
use raider_mate_service.Signup.Write.Laws.{write-refused, told_refusal}
use raider_mate_service.Signup.Policy.MayWrite.{MayWrite}
use raider_mate_service.Signup.Write.Effect.{IsWritten, write-IsWritten}
use raider_mate_service.Signup.Write.Withdraw.{withdraw-ok}
use raider_mate_service.Signup.Examples.{memory, night, answer, signup_of, run_write, run_withdraw}

jobs_for-due_example :
    runs_of reminder_pre_event (jobs_for 90000000000000 80000000000000 (pos 30) 100)
    ≡ if_future 100 (due 90000000000000 80000000000000 30 reminder_pre_event)
jobs_for-due_example =
    jobs_for-due 90000000000000 80000000000000 30 100 reminder_pre_event (omega arith)

is_closed : (write memory 600 600 (answer declined) true false night).0 ≡ err signups_closed
unfolding run_write
is_closed = refl

write-refused_example :
    (event : Event) × (memory.get_event 1 night ≡ done event)
    × (((contains (allowed_statuses true false (has_started event 600)) declined ≡ false)
          × (signups_closed ≡ told_refusal true (has_started event 600)))
        ⊎ ((contains (allowed_statuses true false (has_started event 600)) declined ≡ true)
            × (check_deadline event (some declined) false 600 ≡ some signups_closed)
            × (signups_closed ≡ signups_closed)))
write-refused_example =
    write-refused memory 600 600 (answer declined) true false night signups_closed is_closed refl

is_written :
    (write memory 100 101 (answer confirmed) true false night).0
    ≡ ok (signup_of (keep_late_until (answer confirmed)))
unfolding run_write
is_written = refl

write-IsWritten_example :
    (event : Event) × (memory.get_event 1 night ≡ done event)
    × MayWrite event confirmed true false 100 101
    × IsWritten memory event
        (answer confirmed)
        night
        (signup_of (keep_late_until (answer confirmed)))
        (write memory 100 101 (answer confirmed) true false night).1
write-IsWritten_example =
    write-IsWritten memory 100 101 (answer confirmed) true false night
      (signup_of (keep_late_until (answer confirmed))) is_written

has_begun : (withdraw memory 1000 1000 1 8 true night).0 ≡ err event_started
unfolding run_withdraw
has_begun = refl

is_withdrawn : (withdraw memory 400 400 1 8 false night).0 ≡ ok tt
unfolding run_withdraw
is_withdrawn = refl

withdraw-ok_example :
    (event : Event) × (memory.get_event 1 night ≡ done event)
    × (has_started event 400 ≡ false)
    × (check_deadline event none false 400 ≡ none)
    × (withdraw_signup memory event 1 8 night
        ≡ ok (tt, (withdraw memory 400 400 1 8 false night).1))
withdraw-ok_example = withdraw-ok memory 400 400 1 8 false night is_withdrawn
