-- ===== src/Signup/Runner.antt =====
-- Runner of internal/signup/reminder.go: draining due jobs into the outbox. What is logged is left out,
-- and so is a job type that the enum does not have.
pub mod Build
use raider_mate_service.Prelude.{
  ℕ, suc, Bool, true, false, ◌||◌, Option, none, some, List, [], ◌∷◌, ◌++◌, map, leb, if◌then◌else◌,
}
use raider_mate_service.Prelude.Sort.{count_by}
use raider_mate_service.Comp.Types.{RoleEnum}
use raider_mate_service.Signup.Types.{
  Event, Signup, SignupStatus, Notification, Outcome, ok, err, Error, Reply, attempt, loading_event,
  claiming_due_jobs, marking_job_failed, marking_job_skipped, marking_job_sent,
  inserting_notification, beginning_tx, committing_tx,
}
use raider_mate_service.Signup.Policy.{
  JobEnum, signup_deadline, reminder_24h, reminder_pre_event, comp_nag,
}
use raider_mate_service.Signup.Reminder.{GuildSettings, JobStatus}
use raider_mate_service.Signup.Runner.Build.{
  ReminderStore, Built, notify, skip, unresolved, SkipReason, kind_retired, build_reminder_24h,
  build_reminder_pre_event, build_signup_deadline, ScheduledJob,
}

abbrev pub max_job_attempts : ℕ
max_job_attempts = 3

module _ {S : Type 0} (store : ReminderStore S) where
  -- The switch on job.JobType.
  abbrev pub build_for : JobEnum → Event → S → Built
  build_for JobEnum.reminder_24h event s = build_reminder_24h store event s
  build_for JobEnum.reminder_pre_event event s = build_reminder_pre_event store event s
  build_for JobEnum.signup_deadline event s = build_signup_deadline store event s
  build_for JobEnum.comp_nag event s = skip kind_retired

  unfoldable pub build_notifications : ScheduledJob → S → Built
  build_notifications job s = elim (attempt loading_event (store.get_event job.event_id s)) [
    | err e ↦ unresolved e
    | ok event ↦ build_for job.job_type event s
  ]

  unfoldable pub insert_all : List Notification → S → Outcome S
  insert_all [] s = ok s
  insert_all (n ∷ notifications) s =
      elim (attempt inserting_notification (store.insert_notification n s)) [
        | err e ↦ err e
        | ok s' ↦ insert_all notifications s'
      ]

  abbrev pub status_after : ScheduledJob → JobStatus
  status_after job =
      if leb max_job_attempts (suc job.attempts) then JobStatus.failed else JobStatus.pending

  unfoldable pub resolve : ScheduledJob → S → Outcome S
  unfolding build_notifications insert_all
  resolve job s = elim (build_notifications job s) [
    | unresolved e ↦ attempt marking_job_failed (store.mark_job_failed job.id (status_after job) s)
    | skip reason ↦ attempt marking_job_skipped (store.mark_job_skipped job.id reason s)
    | notify notifications ↦ elim (insert_all notifications s) [
      | err e ↦ err e
      | ok s' ↦ attempt marking_job_sent (store.mark_job_sent job.id s')
    ]
  ]

  unfoldable pub resolve_all : List ScheduledJob → S → Outcome S
  unfolding resolve
  resolve_all [] s = ok s
  resolve_all (job ∷ jobs) s = elim (resolve job s) [ err e ↦ err e | ok s' ↦ resolve_all jobs s' ]

  unfoldable pub run_due_in : ℕ → S → Outcome S
  unfolding resolve_all
  run_due_in limit s = elim (attempt claiming_due_jobs (store.claim_due_jobs limit s)) [
    | err e ↦ err e
    | ok (jobs, s') ↦ resolve_all jobs s'
  ]

  -- Transact: an error rolls back to `s`.
  unfoldable pub run_due : ℕ → S → Outcome Unit × S
  unfolding run_due_in
  run_due limit s = elim (attempt beginning_tx (store.begin s)) [
    | err e ↦ (err e, s)
    | ok _ ↦ elim (run_due_in limit s) [
      | err e ↦ (err e, s)
      | ok s' ↦ elim (attempt committing_tx (store.commit s')) [
        | err e ↦ (err e, s)
        | ok _ ↦ (ok tt, s')
      ]
    ]
  ]
