-- ===== src/Signup/Schedule/Laws.antt =====
-- The jobs of an event after a reschedule.
use raider_mate_service.Prelude.{◌≡◌, ℕ, Bool, true, false, not, List, map, arith, ◌==◌, ◌||◌}
use raider_mate_service.Prelude.Filter.{filter_by}
use raider_mate_service.Signup.Types.{Event}
use raider_mate_service.Signup.Policy.{Job, jobs_for}
use raider_mate_service.Signup.Reminder.{
  JobStatus, sent, failed, or_else, default_reminder_lead_minutes,
}
use raider_mate_service.Signup.Schedule.{
  JobRow, JobTable, is_pending_of, UpdateEventInput, changes_what_is_posted, is_retimed,
}

-- The jobs of the event that still run.
abbrev pub pending_jobs : ℕ → JobTable → List Job
pending_jobs event_id t = map (λ r. r.job) (filter_by (is_pending_of event_id) t.rows)

-- A job that went out or failed for good.
abbrev pub is_finished : JobStatus → Bool
is_finished sent = true
is_finished failed = true
is_finished _ = false

-- What a reschedule of the event must leave alone.
abbrev pub is_apart : ℕ → JobRow → Bool
is_apart event_id r = not (r.event_id == event_id) || is_finished r.status

-- What the schedule of an event is, decided at a time.
abbrev pub schedule_of : Event → ℕ → List Job
schedule_of e now =
    jobs_for e.starts_at e.signup_deadline
      (or_else e.reminder_lead_minutes default_reminder_lead_minutes) now

-- An edit that moves the jobs also changes the sheet that is posted.
is_retimed-changes_what_is_posted :
    (arg : UpdateEventInput) → is_retimed arg ≡ true → changes_what_is_posted arg ≡ true
unfolding changes_what_is_posted
is_retimed-changes_what_is_posted arg h = ground (arith, h)
