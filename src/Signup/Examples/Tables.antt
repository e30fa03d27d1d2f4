-- ===== src/Signup/Examples/Tables.antt =====
-- Signups, decisions, claims and reminders over a small database, and their theorems there.
use raider_mate_service.Prelude.{
  ℕ, ◌+◌, ◌-◌, ◌≤◌, ◌≡◌, refl, some, none, List, [], ◌∷◌, map, All, arith,
}
use raider_mate_service.Prelude.Filter.{filter_by, any_by, find_by, update_by}
use raider_mate_service.Prelude.Sort.{sort_by}
use raider_mate_service.Comp.Store.Tx.{Connection}
use raider_mate_service.Signup.Types.{Notification, Signup, SignupWrite, declined, done}
use raider_mate_service.Signup.Late.Laws.Clicks.{Decision, approve_at, reject_now, accepted}
use raider_mate_service.Signup.Policy.{reminder_pre_event}
use raider_mate_service.Signup.Reminder.{GuildSettings, both}
use raider_mate_service.Signup.Store.Postgres.{upsert_signup, delete_signup, signup_store}
use raider_mate_service.Signup.Store.Postgres.Laws.{
  Seats, IsEvicted, upsert_signup-Seats, delete_signup-IsEvicted,
}
use raider_mate_service.Signup.Store.Postgres.Decisions.{signup_store-accepted}
use raider_mate_service.Signup.Runner.{build_notifications}
use raider_mate_service.Signup.Runner.Build.{
  ReminderStore, AttendingSignup, ScheduledJob, notify, ping_notice, dm_notice,
  build_reminder_pre_event,
}
use raider_mate_service.Signup.Runner.Build.Reach.{Reaches}
use raider_mate_service.Signup.Runner.Build.Laws.{
  Shaped, build_reminder_pre_event-Reaches, build_notifications-Shaped,
}
use raider_mate_service.Signup.Outbox.{
  claim, claim_lease, mark_failed, mark_delivered, report, ok as acked_ok,
}
use raider_mate_service.Signup.Outbox.Laws.{
  NotTaken, IsReported, claim-apart, mark_failed-IsReported,
}
use raider_mate_service.Tables.{Db, has_event, has_character}
use raider_mate_service.Tables.Signups.{
  get_event, upsert_signup_row, delete_signup_row, is_in_pool, in_pool,
  drop_comp_slots_for_character,
}
use raider_mate_service.Tables.Notifications.{
  claimed_rows, get_notification, mark_notification_delivered, insert_notification,
  list_raid_lead_roles,
}
use raider_mate_service.Tables.Sample.{sample, raid_night}

abbrev cancels : SignupWrite
cancels = record {
  event_id = 1;
  character_id = 7;
  status = declined;
  note = none;
  late_until = none;
}

-- The signup of character 7, and what is left of the tables when they cancel.
abbrev canceled : Signup
canceled = record {
  id = 11;
  event_id = 1;
  character_id = 7;
  status = declined;
  assigned_role = none;
  late_until = none;
  note = none;
  created_at = 2;
}

abbrev emptied : Db
emptied = record sample { signups = canceled ∷ []; comp_slots = [] }

run_cancel : upsert_signup cancels sample ≡ done ((canceled, "main" ∷ []), emptied)
unfolding upsert_signup upsert_signup_row drop_comp_slots_for_character is_in_pool has_event
    has_character any_by find_by filter_by update_by
run_cancel = refl

upsert_signup-Seats_example : Seats (in_pool declined) 1 7 ("main" ∷ []) sample.comp_slots []
upsert_signup-Seats_example =
    upsert_signup-Seats cancels sample emptied canceled ("main" ∷ []) run_cancel

abbrev withdrawn : Db
withdrawn = record sample { signups = []; comp_slots = [] }

run_withdraw : delete_signup 1 7 sample ≡ done ("main" ∷ [], withdrawn)
unfolding delete_signup delete_signup_row drop_comp_slots_for_character is_in_pool any_by filter_by
run_withdraw = refl

delete_signup-IsEvicted_example : IsEvicted 1 7 ("main" ∷ []) sample.comp_slots []
delete_signup-IsEvicted_example =
    delete_signup-IsEvicted 1 7 sample withdrawn ("main" ∷ []) run_withdraw

abbrev up : Connection
up = record { begin = λ db. done tt; commit = λ db. done tt }

abbrev clicks : List Decision
clicks = approve_at 700 ∷ reject_now ∷ []

signup_store-accepted_example : accepted (signup_store up) 5 clicks sample ≤ 1
signup_store-accepted_example = signup_store-accepted up 5 clicks sample

abbrev minutes_later : ℕ
minutes_later = claim_lease + 600

claim-apart_example :
    All
      (NotTaken (claimed_rows none (minutes_later - claim_lease) 10 sample))
      (claimed_rows none (minutes_later - claim_lease) 10 (claim minutes_later none 10 sample).1)
claim-apart_example = claim-apart minutes_later minutes_later 10 10 none none sample (omega arith)

run_failed : (mark_failed 20 "50013" sample).0 ≡ acked_ok tt
unfolding mark_failed mark_delivered report get_notification mark_notification_delivered get_event
    insert_notification list_raid_lead_roles has_event any_by find_by update_by filter_by sort_by
run_failed = refl

mark_failed-IsReported_example : IsReported 20 sample (mark_failed 20 "50013" sample).1
mark_failed-IsReported_example = mark_failed-IsReported 20 "50013" sample run_failed

-- Two raiders attend an event of a guild that wants a ping and direct messages.
abbrev attending : List AttendingSignup
attending =
    record { discord_id = 71; assigned_role = none }
    ∷ record { discord_id = 72; assigned_role = none }
    ∷ []

abbrev settings : GuildSettings
settings = record {
  discord_guild_id = 9;
  events_channel_id = some 4;
  timezone = none;
  event_mention_role_ids = [];
  event_banner_url = none;
  reminder_lead_minutes = none;
  reminder_delivery = some both;
}

abbrev reminders : ReminderStore Db
reminders = record {
  claim_due_jobs = λ limit db. done ([], db);
  mark_job_sent = λ id db. done db;
  mark_job_skipped = λ id reason db. done db;
  mark_job_failed = λ id status db. done db;
  get_event = get_event;
  list_signups_for_event = λ id db. done [];
  list_undecided_for_event = λ id db. done [];
  list_attending_for_event = λ id db. done attending;
  raid_lead_role_ids = λ guild db. done [];
  guild_settings = λ guild db. done settings;
  insert_notification = insert_notification;
  begin = λ db. done tt;
  commit = λ db. done tt;
}

abbrev due : ScheduledJob
due = record { id = 40; event_id = 1; job_type = reminder_pre_event; attempts = 0 }

abbrev notices : List Notification
notices = ping_notice raid_night 4 attending ∷ map (dm_notice raid_night) attending

run_build : build_reminder_pre_event reminders raid_night sample ≡ notify notices
unfolding build_reminder_pre_event
run_build = refl

build_reminder_pre_event-Reaches_example : All (Reaches notices) attending
build_reminder_pre_event-Reaches_example =
    build_reminder_pre_event-Reaches reminders raid_night sample attending settings notices refl
      refl run_build

run_job : build_notifications reminders due sample ≡ notify notices
unfolding build_notifications build_reminder_pre_event get_event find_by
run_job = refl

build_notifications-Shaped_example : Shaped notices
build_notifications-Shaped_example = build_notifications-Shaped reminders due sample notices run_job
