-- ===== src/Signup/Examples.antt =====
-- A small store in memory, and the theorems of the signup sheet on it: one event, one late request,
-- the comps that seat each character, and the notifications written so far.
mod Sheet
mod Schedule
mod Queue
mod Tables
mod Reminders
use Prim.Native.String.{String}
use raider_mate_service.Prelude.{
  ℕ, ◌≤◌, ◌≡◌, ◌↔◌, ◌⊎◌, refl, sym, ap, subst, ◌∙◌, Bool, true, false, ◌&&◌, ◌||◌, not, Option,
  none, some, List, [], ◌∷◌, arith, ◌==◌, if◌then◌else◌, Bool-cases, inl, inr,
}
use raider_mate_service.Prelude.Int.{pos, wrap, ◌+ℤ◌, ◌-ℤ◌}
use raider_mate_service.Signup.Types.{
  SignupStatus, confirmed, tentative, declined, late, absent, no_show, RequestState, pending,
  approved, Event, EventType, Signup, SignupWrite, LateRequest, LateRequestWrite, Notification,
  Reply, done, lost, Outcome, ok, err, Error, signups_closed, event_started,
}
use raider_mate_service.Signup.Policy.{
  allowed_statuses, contains, status_eq, has_started, check_deadline, deadline_for, runs_until_pull,
  JobEnum, reminder_pre_event, jobs_for,
}
use raider_mate_service.Signup.Policy.Laws.{allowed_statuses_lem, check_deadline-none_iff}
use raider_mate_service.Signup.Policy.Jobs.{runs_of, due, if_future, jobs_for-due}
use raider_mate_service.Signup.Store.{SignupStore, transact}
use raider_mate_service.Signup.Store.Laws.{is_failed}
use raider_mate_service.Signup.Notify.{notify_signup_changed, notify_comp_slots_dropped}
use raider_mate_service.Signup.Write.{
  keep_late_until, refusal, write_signup, write, withdraw_signup, withdraw, notify_all,
}
use raider_mate_service.Signup.Write.Laws.{write-err, write-ok, write-refused}
use raider_mate_service.Signup.Write.Withdraw.{withdraw-err, withdraw-ok}
use raider_mate_service.Signup.Late.{
  is_pending, file_request, file, approve_signup, approve_request, approve, reject, notify_filed,
}
use raider_mate_service.Signup.Late.Laws.{file-err, approve-err, approve-ok, file_after_closed}
use raider_mate_service.Signup.Late.Laws.Clicks.{
  KeepsDecisions, approve_at, reject_now, Decision, accepted, accepted_once,
}

record Memory : Type 0 where
  event : Event
  request : LateRequest
  seats : List String
  outbox : List Notification

abbrev signup_of : SignupWrite → Signup
signup_of w = record {
  id = 1;
  event_id = w.event_id;
  character_id = w.character_id;
  status = w.status;
  assigned_role = none;
  late_until = w.late_until;
  note = w.note;
  created_at = 0;
}

-- A status that leaves the pool gives up the seats.
abbrev leaves_pool : SignupStatus → Bool
leaves_pool declined = true
leaves_pool absent = true
leaves_pool _ = false

abbrev request_of : LateRequestWrite → LateRequest
request_of w = record {
  id = 5;
  event_id = w.event_id;
  character_id = w.character_id;
  status = w.status;
  note = w.note;
  late_until = w.late_until;
  state = pending;
  created_at = 0;
  decided_at = none;
}

decide_in : RequestState → Memory → Memory
decide_in state s = record s { request = record s.request { state = state } }

memory : SignupStore Memory
unfolding decide_in
memory = record {
  get_event = λ id s. if id == s.event.id then done s.event else lost 0;
  upsert_signup = λ w s.
      if leaves_pool w.status
      then done ((signup_of w, s.seats), record s { seats = [] })
      else done ((signup_of w, []), s);
  delete_signup = λ e c s. done (s.seats, record s { seats = [] });
  upsert_late_request = λ w s. done (request_of w, record s { request = request_of w });
  get_late_request = λ id s. if id == s.request.id then done s.request else lost 0;
  decide_late_request =
      λ id state s. if id == s.request.id then done (decide_in state s) else lost 0;
  raid_lead_role_ids = λ guild s. done (77 ∷ []);
  insert_notification = λ n s. done (record s { outbox = n ∷ s.outbox });
  begin = λ s. done tt;
  commit = λ s. done tt;
}

memory-KeepsDecisions : KeepsDecisions memory
unfolding memory decide_in
memory-KeepsDecisions = record {
  decided = λ id state filed s s' g h. elim (Bool-cases (id == s.request.id)) [
    | inr b ↦ absurd (ground (arith, b, h))
    | inl b ↦
        let same : decide_in state s ≡ s' = ground (arith, b, h) in
        subst (λ t. (r : LateRequest) × (memory.get_late_request id t ≡ done r) × (r.state ≡ state))
          same (record s.request { state = state }, rw b refl, refl)
  ];
  kept = λ n id s s' h.
      let same : record s { outbox = n ∷ s.outbox } ≡ s' = ground (arith, h) in
      ap (λ t. memory.get_late_request id t) (sym same);
  written = λ w id row s s' h. elim (Bool-cases (leaves_pool w.status)) [
    | inl b ↦
        let same : record s { seats = [] } ≡ s' = ground (arith, b, h) in
        ap (λ t. memory.get_late_request id t) (sym same)
    | inr b ↦
        let same : s ≡ s' = ground (arith, b, h) in
        ap (λ t. memory.get_late_request id t) (sym same)
  ];
}

abbrev tuesday : Event
tuesday = record {
  id = 1;
  discord_guild_id = 9;
  event_type = EventType.raid;
  title = "Tuesday";
  starts_at = 1000;
  signup_deadline = 500;
  message_id = some 3;
  channel_id = some 4;
  comp_template = "";
  difficulty = none;
  reminder_lead_minutes = none;
  warcraft_logs_url = none;
}

abbrev asked : LateRequestWrite
asked = record { event_id = 1; character_id = 8; status = declined; note = none; late_until = none }

abbrev night : Memory
night = record { event = tuesday; request = request_of asked; seats = "main" ∷ []; outbox = [] }

abbrev answer : SignupStatus → SignupWrite
answer status = record {
  event_id = 1;
  character_id = 8;
  status = status;
  note = none;
  late_until = some 1100;
}

-- The operations on this store with all that they compute with.
run_write : ℕ → ℕ → SignupWrite → Bool → Bool → Memory → Outcome Signup × Memory
unfolding write memory decide_in
run_write = write memory

run_withdraw : ℕ → ℕ → ℕ → ℕ → Bool → Memory → Outcome Unit × Memory
unfolding withdraw memory decide_in
run_withdraw = withdraw memory

run_file : ℕ → LateRequestWrite → Memory → Outcome LateRequest × Memory
unfolding file memory decide_in
run_file = file memory

run_approve : ℕ → ℕ → Memory → Outcome Unit × Memory
unfolding approve memory decide_in
run_approve = approve memory

-- Signing off before the deadline empties the seat and tells the channel and the raid leads.
sign_off : (run_write 100 100 (answer declined) true false night).1.seats ≡ []
unfolding run_write
sign_off = refl

signed_up :
    (run_write 100 100 (answer confirmed) true false night).0
    ≡ ok (signup_of (keep_late_until (answer confirmed)))
unfolding run_write
signed_up = refl

closed : (run_write 600 600 (answer declined) true false night).0 ≡ err signups_closed
unfolding run_write
closed = refl

begun : (run_write 2000 2000 (answer declined) true false night).0 ≡ err event_started
unfolding run_write
begun = refl
