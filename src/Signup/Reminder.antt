-- ===== src/Signup/Reminder.antt =====
-- Events.ReminderState of internal/signup/event.go, what became of an event's reminder, with the
-- defaults of internal/signup/guildsettings.go.
pub mod Laws
use Prim.Native.String.{String}
use raider_mate_service.Prelude.{ℕ, Option, none, some, List, if◌then◌else◌}
use raider_mate_service.Prelude.Int.{ℤ, pos, eqb_ℤ}
use raider_mate_service.Signup.Types.{
  Event, Failure, Reply, Outcome, ok, err, Error, attempt, reading_guild_settings,
  reading_reminder_job,
}

pub data ReminderDelivery : Type 0 where
  ping dm both : ReminderDelivery

pub record GuildSettings : Type 0 where
  pub discord_guild_id : ℕ
  pub events_channel_id : Option ℕ
  pub timezone : Option String
  pub event_mention_role_ids : List ℕ
  pub event_banner_url : Option String
  pub reminder_lead_minutes : Option ℤ
  pub reminder_delivery : Option ReminderDelivery

abbrev pub default_reminder_lead_minutes : ℤ
default_reminder_lead_minutes = pos 30

abbrev pub or_else {ℓ} : {A : Type ℓ} → Option A → A → A
or_else none a = a
or_else (some b) a = b

abbrev pub reminder_lead : GuildSettings → ℤ
reminder_lead s = or_else s.reminder_lead_minutes default_reminder_lead_minutes

abbrev pub delivery : GuildSettings → ReminderDelivery
delivery s = or_else s.reminder_delivery ping

pub data JobStatus : Type 0 where
  pending sent failed canceled : JobStatus

pub record ReminderJob : Type 0 where
  pub status : JobStatus
  pub run_at : ℕ
  pub skip_reason : Option String

-- PreEventReminderJob: a job, ErrNoReminderJob, or another error.
pub data JobAnswer : Type 0 where
  job_found : ReminderJob → JobAnswer
  no_reminder_job : JobAnswer
  job_unreadable : Failure → JobAnswer

-- OFF, SCHEDULED, SENT, SKIPPED and FAILED.
pub data ReminderWord : Type 0 where
  off scheduled sent skipped failed : ReminderWord

pub record ReminderState : Type 0 where
  pub lead_minutes : ℤ
  pub delivery : ReminderDelivery
  pub runs_at : Option ℕ
  pub state : ReminderWord
  pub reason : Option String

abbrev pub reason_not_scheduled : String
reason_not_scheduled = "not_scheduled"

abbrev pub with_word : ℤ → ReminderDelivery → ReminderWord → ReminderState
with_word lead how word = record {
  lead_minutes = lead;
  delivery = how;
  runs_at = none;
  state = word;
  reason = none;
}

abbrev pub skipped_because : ℤ → ReminderDelivery → String → ReminderState
skipped_because lead how why = record (with_word lead how ReminderWord.skipped) {
  reason = some why;
}

-- The switch on job.Status.
unfoldable pub state_of_job : ℤ → ReminderDelivery → ReminderJob → ReminderState
state_of_job lead how job = elim job.status [
  | JobStatus.pending ↦ record (with_word lead how ReminderWord.scheduled) {
    runs_at = some job.run_at;
  }
  | JobStatus.sent ↦ elim job.skip_reason [
    | some why ↦ skipped_because lead how why
    | none ↦ with_word lead how ReminderWord.sent
  ]
  | JobStatus.failed ↦ with_word lead how ReminderWord.failed
  | JobStatus.canceled ↦ skipped_because lead how reason_not_scheduled
]

abbrev pub lead_of : Event → GuildSettings → ℤ
lead_of event settings = or_else event.reminder_lead_minutes (reminder_lead settings)

unfoldable pub reminder_state :
    (ℕ → Reply GuildSettings) → (ℕ → JobAnswer) → Event → Outcome ReminderState
unfolding state_of_job
reminder_state guild_settings pre_event_job event =
    elim (attempt reading_guild_settings (guild_settings event.discord_guild_id)) [
      | err e ↦ err e
      | ok settings ↦
          let lead = lead_of event settings in
          let how = delivery settings in
          elim (pre_event_job event.id) [
            | no_reminder_job ↦ ok (
                if eqb_ℤ lead (pos 0)
                then with_word lead how ReminderWord.off
                else skipped_because lead how reason_not_scheduled)
            | job_unreadable f ↦ err (Error.failed reading_reminder_job f)
            | job_found job ↦ ok (state_of_job lead how job)
          ]
    ]
