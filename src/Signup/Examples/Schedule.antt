-- ===== src/Signup/Examples/Schedule.antt =====
-- The jobs of an event whose start is moved, and the theorem on reschedules there.
use raider_mate_service.Prelude.{◌≡◌, refl, ℕ, some, none, [], ◌∷◌}
use raider_mate_service.Prelude.Int.{pos, wrap, ◌+ℤ◌, ◌-ℤ◌}
use raider_mate_service.Prelude.Filter.{filter_by, update_by}
use raider_mate_service.Signup.Types.{Event, EventType}
use raider_mate_service.Signup.Policy.{Job, signup_deadline, reminder_24h, reminder_pre_event}
use raider_mate_service.Signup.Reminder.{sent}
use raider_mate_service.Signup.Schedule.{JobTable, first_row, UpdateEventInput, edited, reschedule}
use raider_mate_service.Signup.Schedule.Laws.{pending_jobs}

abbrev posted : Event
posted = record {
  id = 1;
  discord_guild_id = 9;
  event_type = EventType.raid;
  title = "Night";
  starts_at = 90000000000000;
  signup_deadline = 80000000000000;
  comp_template = "{}";
  message_id = some 5;
  channel_id = some 6;
  difficulty = none;
  reminder_lead_minutes = some (pos 60);
  warcraft_logs_url = none;
}

abbrev job : ℕ → Job
job at = record { kind = signup_deadline; run_at = pos at }

-- A reminder that went out, the two jobs that are left, and a job of another event.
abbrev table : JobTable
table = record {
  rows =
      record (first_row 10 1 (record { kind = reminder_24h; run_at = pos 3600000000000 })) {
        status = sent;
      }
      ∷ first_row 11 1 (job 80000000000000)
      ∷ first_row 12 1 (record { kind = reminder_pre_event; run_at = pos 86400000000000 })
      ∷ first_row 13 2 (job 70000000000000)
      ∷ [];
  next_id = 20;
}

abbrev moved : UpdateEventInput
moved = record {
  id = 1;
  title = none;
  starts_at = some 200000000000000;
  signup_deadline = none;
  comp_template = none;
  difficulty = none;
  message_id = none;
  channel_id = none;
  reminder_lead_minutes = none;
  warcraft_logs_url = none;
}

-- The three jobs of the moved event.
run_moved :
    pending_jobs 1 (reschedule moved (edited moved posted) 5000000000000 table)
    ≡ job 80000000000000
      ∷ record { kind = reminder_24h; run_at = pos 113600000000000 }
      ∷ record { kind = reminder_pre_event; run_at = pos 196400000000000 }
      ∷ []
unfolding filter_by reschedule edited ◌-ℤ◌ ◌+ℤ◌ wrap update_by
run_moved = refl
