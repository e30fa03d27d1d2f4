-- ===== src/Signup/Schedule.antt =====
-- The rows of scheduled_jobs (internal/db/jobs.sql.go), scheduleJobs (internal/signup/store.go), and of
-- UpdateEvent the edit of the row (internal/db/signup.sql.go) and the reschedule. The row of the event
-- exists, so no constraint can fail. The report row and the redraw of UpdateEvent are left out.
pub mod Laws
use raider_mate_service.Prelude.{
  ℕ, suc, Bool, true, false, ◌&&◌, ◌||◌, Option, none, some, List, [], ◌∷◌, ◌++◌, map, ◌==◌,
  if◌then◌else◌,
}
use raider_mate_service.Prelude.Int.{ℤ}
use raider_mate_service.Prelude.Text.{String, str_eq}
use raider_mate_service.Prelude.Filter.{update_by}
use raider_mate_service.Comp.Roles.{is_ok}
use raider_mate_service.Signup.Types.{Event, RaidDifficulty}
use raider_mate_service.Signup.Policy.{JobEnum, Job, jobs_for}
use raider_mate_service.Signup.Reminder.{
  JobStatus, pending, canceled, or_else, default_reminder_lead_minutes,
}

pub record JobRow : Type 0 where
  pub id : ℕ
  pub event_id : ℕ
  pub job : Job
  pub status : JobStatus
  pub attempts : ℕ
  pub skip_reason : Option String

-- `next_id` is what db.NewID hands out next.
pub record JobTable : Type 0 where
  pub rows : List JobRow
  pub next_id : ℕ

abbrev pub is_waiting : JobStatus → Bool
is_waiting pending = true
is_waiting _ = false

-- WHERE event_id = $1 AND status = 'PENDING'
abbrev pub is_pending_of : ℕ → JobRow → Bool
is_pending_of event_id r = r.event_id == event_id && is_waiting r.status

unfoldable pub cancel_jobs_for_event : ℕ → JobTable → JobTable
cancel_jobs_for_event event_id t = record t {
  rows = update_by (is_pending_of event_id) (λ r. record r { status = canceled }) t.rows;
}

abbrev pub first_row : ℕ → ℕ → Job → JobRow
first_row id event_id job = record {
  id = id;
  event_id = event_id;
  job = job;
  status = pending;
  attempts = 0;
  skip_reason = none;
}

unfoldable pub schedule_job : ℕ → Job → JobTable → JobTable
schedule_job event_id job t = record {
  rows = t.rows ++ first_row t.next_id event_id job ∷ [];
  next_id = suc t.next_id;
}

unfoldable pub insert_jobs : ℕ → List Job → JobTable → JobTable
unfolding schedule_job
insert_jobs event_id [] t = t
insert_jobs event_id (job ∷ jobs) t = insert_jobs event_id jobs (schedule_job event_id job t)

-- `now` is time.Now().
unfoldable pub schedule_jobs : ℕ → ℕ → ℕ → ℤ → ℕ → JobTable → JobTable
unfolding insert_jobs jobs_for
schedule_jobs event_id starts_at deadline lead now t =
    insert_jobs event_id (jobs_for starts_at deadline lead now) t

pub record UpdateEventInput : Type 0 where
  pub id : ℕ
  pub title : Option String
  pub starts_at : Option ℕ
  pub signup_deadline : Option ℕ
  pub comp_template : Option String
  pub difficulty : Option RaidDifficulty
  pub message_id : Option ℕ
  pub channel_id : Option ℕ
  pub reminder_lead_minutes : Option ℤ
  pub warcraft_logs_url : Option String

-- changesWhatIsPosted
unfoldable pub changes_what_is_posted : UpdateEventInput → Bool
changes_what_is_posted arg =
    is_ok arg.title
    || is_ok arg.starts_at
    || is_ok arg.signup_deadline
    || is_ok arg.comp_template
    || is_ok arg.difficulty
    || is_ok arg.reminder_lead_minutes
    || is_ok arg.warcraft_logs_url

-- COALESCE ($1, column), for a column that may be NULL.
abbrev pub coalesce {ℓ} : {A : Type ℓ} → Option A → Option A → Option A
coalesce none old = old
coalesce (some new) old = some new

-- CASE WHEN $9 = '' THEN NULL ELSE COALESCE ($9, warcraftlogs_url) END
abbrev pub url_after : Option String → Option String → Option String
url_after none old = old
url_after (some url) old = if str_eq url "" then none else some url

-- UPDATE events SET … RETURNING, on the row of the event.
unfoldable pub edited : UpdateEventInput → Event → Event
edited arg row = record row {
  title = or_else arg.title row.title;
  starts_at = or_else arg.starts_at row.starts_at;
  signup_deadline = or_else arg.signup_deadline row.signup_deadline;
  comp_template = or_else arg.comp_template row.comp_template;
  difficulty = coalesce arg.difficulty row.difficulty;
  message_id = coalesce arg.message_id row.message_id;
  channel_id = coalesce arg.channel_id row.channel_id;
  reminder_lead_minutes = coalesce arg.reminder_lead_minutes row.reminder_lead_minutes;
  warcraft_logs_url = url_after arg.warcraft_logs_url row.warcraft_logs_url;
}

abbrev pub is_retimed : UpdateEventInput → Bool
is_retimed arg = is_ok arg.starts_at || is_ok arg.signup_deadline || is_ok arg.reminder_lead_minutes

-- The if of UpdateEvent, where `row` is the event after the edit.
unfoldable pub reschedule : UpdateEventInput → Event → ℕ → JobTable → JobTable
unfolding schedule_jobs cancel_jobs_for_event
reschedule arg row now t =
    if is_retimed arg
    then schedule_jobs row.id row.starts_at row.signup_deadline
        (or_else row.reminder_lead_minutes default_reminder_lead_minutes) now
        (cancel_jobs_for_event row.id t)
    else t
