-- ===== src/Signup/Examples/Reminders.antt =====
-- What became of the reminder of the event in memory.
use raider_mate_service.Prelude.{ℕ, ◌≡◌, refl, none, []}
use raider_mate_service.Prelude.Int.{pos}
use raider_mate_service.Signup.Types.{Reply, done, ok}
use raider_mate_service.Signup.Reminder.{
  GuildSettings, ReminderDelivery, ReminderState, no_reminder_job, reminder_state, skipped_because,
  reason_not_scheduled,
}
use raider_mate_service.Signup.Reminder.Laws.{IsReport, reminder_state-IsReport}
use raider_mate_service.Signup.Examples.{tuesday}

abbrev unset : ℕ → Reply GuildSettings
unset guild = done (record {
  discord_guild_id = guild;
  events_channel_id = none;
  timezone = none;
  event_mention_role_ids = [];
  event_banner_url = none;
  reminder_lead_minutes = none;
  reminder_delivery = none;
})

abbrev missed : ReminderState
missed = skipped_because (pos 30) ReminderDelivery.ping reason_not_scheduled

was_missed : reminder_state unset (λ id. no_reminder_job) tuesday ≡ ok missed
unfolding reminder_state
was_missed = refl

reminder_state-IsReport_example : IsReport missed
reminder_state-IsReport_example =
    reminder_state-IsReport unset (λ id. no_reminder_job) tuesday missed was_missed
