-- ===== src/Signup/Runner/Build.antt =====
-- What a due job becomes: the recipients and the notifications of internal/signup/reminder.go.
pub mod Laws
pub mod Reach
use raider_mate_service.Prelude.{
  ℕ, Bool, true, false, ◌||◌, Option, none, some, List, [], ◌∷◌, ◌++◌, map,
}
use raider_mate_service.Prelude.Sort.{count_by}
use raider_mate_service.Comp.Types.{RoleEnum}
use raider_mate_service.Signup.Types.{
  Event, Signup, SignupStatus, Notification, NotificationKind, to_user, to_channel, to_role,
  asked_again, starting_ping, starting_dm, deadline_counts, Outcome, ok, err, Error, Reply, attempt,
  listing_undecided, listing_attending, reading_guild_settings, listing_signups,
  loading_raid_lead_roles,
}
use raider_mate_service.Signup.Policy.{JobEnum, status_eq, all_statuses}
use raider_mate_service.Signup.Reminder.{
  GuildSettings, ReminderDelivery, ping, dm, both, delivery, JobStatus,
}

pub record AttendingSignup : Type 0 where
  pub discord_id : ℕ
  pub assigned_role : Option RoleEnum

pub record ScheduledJob : Type 0 where
  pub id : ℕ
  pub event_id : ℕ
  pub job_type : JobEnum
  pub attempts : ℕ

-- skipNoChannel, skipNoRecipients and skipKindRetired.
pub data SkipReason : Type 0 where
  no_channel no_recipients kind_retired : SkipReason

-- The interface reminderStore, with what its transaction begins and commits with.
pub record ReminderStore (S : Type 0) : Type 0 where
  pub claim_due_jobs : ℕ → S → Reply (List ScheduledJob × S)
  pub mark_job_sent : ℕ → S → Reply S
  pub mark_job_skipped : ℕ → SkipReason → S → Reply S
  pub mark_job_failed : ℕ → JobStatus → S → Reply S
  pub get_event : ℕ → S → Reply Event
  pub list_signups_for_event : ℕ → S → Reply (List Signup)
  pub list_undecided_for_event : ℕ → S → Reply (List ℕ)
  pub list_attending_for_event : ℕ → S → Reply (List AttendingSignup)
  pub raid_lead_role_ids : ℕ → S → Reply (List ℕ)
  pub guild_settings : ℕ → S → Reply GuildSettings
  pub insert_notification : Notification → S → Reply S
  pub begin : S → Reply Unit
  pub commit : S → Reply Unit

-- The three results of buildNotifications.
pub data Built : Type 0 where
  notify : List Notification → Built
  skip : SkipReason → Built
  unresolved : Error → Built

abbrev pub undecided_notice : Event → ℕ → Notification
undecided_notice event discord_id = record {
  discord_guild_id = event.discord_guild_id;
  event_id = event.id;
  kind = NotificationKind.reminder_24h;
  target_kind = to_user;
  discord_id = some discord_id;
  role_ids = [];
  discord_ids = [];
  channel_id = none;
  payload = asked_again event.title event.starts_at event.signup_deadline;
}

abbrev pub ping_notice : Event → ℕ → List AttendingSignup → Notification
ping_notice event channel rows = record {
  discord_guild_id = event.discord_guild_id;
  event_id = event.id;
  kind = NotificationKind.reminder_pre_event;
  target_kind = to_channel;
  discord_id = none;
  role_ids = [];
  discord_ids = map (λ r. r.discord_id) rows;
  channel_id = some channel;
  payload = starting_ping event.title event.starts_at event.message_id;
}

abbrev pub dm_notice : Event → AttendingSignup → Notification
dm_notice event row = record {
  discord_guild_id = event.discord_guild_id;
  event_id = event.id;
  kind = NotificationKind.reminder_pre_event;
  target_kind = to_user;
  discord_id = some row.discord_id;
  role_ids = [];
  discord_ids = [];
  channel_id = none;
  payload = starting_dm event.title event.starts_at row.assigned_role;
}

abbrev pub wants_ping : ReminderDelivery → Bool
wants_ping ping = true
wants_ping both = true
wants_ping dm = false

abbrev pub wants_dm : ReminderDelivery → Bool
wants_dm dm = true
wants_dm both = true
wants_dm ping = false

abbrev pub pings : Event → Bool → Option ℕ → List AttendingSignup → List Notification
pings event true (some channel) rows = ping_notice event channel rows ∷ []
pings event wanted channel rows = []

abbrev pub dms : Event → Bool → List AttendingSignup → List Notification
dms event true rows = map (dm_notice event) rows
dms event false rows = []

-- if len(notifications) == 0 { return nil, reason, nil }
abbrev pub or_skip : SkipReason → List Notification → Built
or_skip reason [] = skip reason
or_skip reason (n ∷ notifications) = notify (n ∷ notifications)

unfoldable pub count_statuses : List Signup → List (SignupStatus × ℕ)
unfolding count_by all_statuses
count_statuses signups =
    map (λ status. (status, count_by (λ s. status_eq s.status status) signups)) all_statuses

abbrev pub deadline_notice : Event → ℕ → List ℕ → List Signup → Notification
deadline_notice event channel roles signups = record {
  discord_guild_id = event.discord_guild_id;
  event_id = event.id;
  kind = NotificationKind.signup_deadline_over;
  target_kind = to_role;
  discord_id = none;
  role_ids = roles;
  discord_ids = [];
  channel_id = some channel;
  payload = deadline_counts event.title (count_statuses signups);
}

module _ {S : Type 0} (store : ReminderStore S) where
  unfoldable pub build_reminder_24h : Event → S → Built
  build_reminder_24h event s =
      elim (attempt listing_undecided (store.list_undecided_for_event event.id s)) [
        | err e ↦ unresolved e
        | ok discord_ids ↦ or_skip no_recipients (map (undecided_notice event) discord_ids)
      ]

  abbrev pub pre_event_notices : Event → ReminderDelivery → List AttendingSignup → List Notification
  pre_event_notices event how rows =
      pings event (wants_ping how) event.channel_id rows ++ dms event (wants_dm how) rows

  unfoldable pub build_reminder_pre_event : Event → S → Built
  build_reminder_pre_event event s =
      elim (attempt listing_attending (store.list_attending_for_event event.id s)) [
        | err e ↦ unresolved e
        | ok [] ↦ skip no_recipients
        | ok (row ∷ rows) ↦
            elim (attempt reading_guild_settings (store.guild_settings event.discord_guild_id s)) [
              | err e ↦ unresolved e
              | ok settings ↦
                  or_skip no_channel (pre_event_notices event (delivery settings) (row ∷ rows))
            ]
      ]

  unfoldable pub build_signup_deadline : Event → S → Built
  build_signup_deadline event s = elim event.channel_id [
    | none ↦ skip no_channel
    | some channel ↦ elim (attempt listing_signups (store.list_signups_for_event event.id s)) [
      | err e ↦ unresolved e
      | ok signups ↦
          elim (attempt loading_raid_lead_roles
            (store.raid_lead_role_ids event.discord_guild_id s)) [
              | err e ↦ unresolved e
              | ok roles ↦ notify (deadline_notice event channel roles signups ∷ [])
            ]
    ]
  ]
