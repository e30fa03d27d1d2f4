-- ===== src/Signup/Examples/Queue.antt =====
-- The theorems of the queue of late requests at the store in memory.
use raider_mate_service.Prelude.{◌⊎◌, ◌≡◌, refl, true, false, List, [], ◌∷◌}
use raider_mate_service.Signup.Types.{
  declined, Error, Event, LateRequest, done, err, ok, event_started, signups_closed,
}
use raider_mate_service.Signup.Policy.{has_started}
use raider_mate_service.Signup.Store.Laws.{is_failed}
use raider_mate_service.Signup.Write.{write}
use raider_mate_service.Signup.Late.{is_pending, file, approve_signup, approve}
use raider_mate_service.Signup.Late.Laws.{approve-ok, file_after_closed}
use raider_mate_service.Signup.Late.Laws.Clicks.{approve_at, reject_now, Decision}
use raider_mate_service.Signup.Examples.{
  memory, night, asked, answer, run_write, run_file, run_approve,
}

too_late : (file memory 1000 asked night).0 ≡ err event_started
unfolding run_file
too_late = refl

started : (approve memory 1000 5 night).0 ≡ err event_started
unfolding run_approve
started = refl

is_approved : (approve memory 900 5 night).0 ≡ ok tt
unfolding run_approve
is_approved = refl

approve-ok_example :
    (r : LateRequest) × (event : Event) × (memory.get_late_request 5 night ≡ done r)
    × (is_pending r.state ≡ true)
    × (memory.get_event r.event_id night ≡ done event)
    × (has_started event 900 ≡ false)
    × (approve_signup memory event r 5 night ≡ ok (tt, (approve memory 900 5 night).1))
approve-ok_example = approve-ok memory 900 5 night is_approved

is_closed : (write memory 600 600 (answer declined) true false night).0 ≡ err signups_closed
unfolding run_write
is_closed = refl

file_after_closed_example :
    ((r : LateRequest) × ((file memory 600 asked night).0 ≡ ok r))
    ⊎ ((e : Error) × ((file memory 600 asked night).0 ≡ err e) × (is_failed e ≡ true))
file_after_closed_example =
    file_after_closed memory 600 600 (answer declined) true false night is_closed asked refl

-- Two raid leads approve, a third rejects.
abbrev clicks : List Decision
clicks = approve_at 900 ∷ reject_now ∷ approve_at 901 ∷ []
