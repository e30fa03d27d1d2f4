-- ===== src/Signup/Types.antt =====
-- The data of internal/signup (signup.go, event.go, late.go) and the enums of internal/db/models.go
-- that it uses. A time is a number of nanoseconds, an id or a Discord snowflake a number.
use Prim.Native.String.{String}
use raider_mate_service.Prelude.{ℕ, Option, List}
use raider_mate_service.Prelude.Int.{ℤ}
use raider_mate_service.Comp.Types.{RoleEnum}

pub data SignupStatus : Type 0 where
  confirmed tentative declined late absent no_show : SignupStatus

pub data RequestState : Type 0 where
  pending approved rejected : RequestState

pub data NotificationKind : Type 0 where
  reminder_24h reminder_pre_event signup_deadline_over comp_nag late_request_filed :
      NotificationKind
  roster_updated comp_slot_dropped event_created signup_changed comp_changed : NotificationKind
  event_changed delivery_failed : NotificationKind

pub data NotificationTarget : Type 0 where
  to_user to_role to_message to_channel : NotificationTarget

pub data EventType : Type 0 where
  raid mythic_plus : EventType

pub data RaidDifficulty : Type 0 where
  normal heroic mythic : RaidDifficulty

-- `comp_template` is the JSON text.
pub record Event : Type 0 where
  pub id : ℕ
  pub discord_guild_id : ℕ
  pub event_type : EventType
  pub title : String
  pub starts_at : ℕ
  pub signup_deadline : ℕ
  pub comp_template : String
  pub message_id : Option ℕ
  pub channel_id : Option ℕ
  pub difficulty : Option RaidDifficulty
  pub reminder_lead_minutes : Option ℤ
  pub warcraft_logs_url : Option String

pub record Signup : Type 0 where
  pub id : ℕ
  pub event_id : ℕ
  pub character_id : ℕ
  pub status : SignupStatus
  pub assigned_role : Option RoleEnum
  pub late_until : Option ℕ
  pub note : Option String
  pub created_at : ℕ

pub record SignupWrite : Type 0 where
  pub event_id : ℕ
  pub character_id : ℕ
  pub status : SignupStatus
  pub note : Option String
  pub late_until : Option ℕ

pub record LateRequest : Type 0 where
  pub id : ℕ
  pub event_id : ℕ
  pub character_id : ℕ
  pub status : SignupStatus
  pub note : Option String
  pub late_until : Option ℕ
  pub state : RequestState
  pub created_at : ℕ
  pub decided_at : Option ℕ

pub record LateRequestWrite : Type 0 where
  pub event_id : ℕ
  pub character_id : ℕ
  pub status : SignupStatus
  pub note : Option String
  pub late_until : Option ℕ

-- The JSON document of a notification, as the values that are encoded.
pub data Payload : Type 0 where
  empty_object : Payload
  slots_dropped : String → ℕ → Option SignupStatus → List String → Payload
  request_filed : String → ℕ → SignupStatus → Payload
  asked_again : String → ℕ → ℕ → Payload
  starting_ping : String → ℕ → Option ℕ → Payload
  starting_dm : String → ℕ → Option RoleEnum → Payload
  deadline_counts : String → List (SignupStatus × ℕ) → Payload
  not_delivered : String → NotificationKind → String → Payload

pub record Notification : Type 0 where
  pub discord_guild_id : ℕ
  pub event_id : ℕ
  pub kind : NotificationKind
  pub target_kind : NotificationTarget
  pub discord_id : Option ℕ
  pub role_ids : List ℕ
  pub discord_ids : List ℕ
  pub channel_id : Option ℕ
  pub payload : Payload

-- What a failed call was wrapped with: one constructor for each fmt.Errorf text.
pub data Step : Type 0 where
  beginning_tx committing_tx loading_event writing_signup withdrawing_signup : Step
  writing_signup_changed loading_raid_lead_roles writing_comp_slot_dropped : Step
  filing_late_request writing_late_request : Step
  loading_late_request writing_approved_signup marking_approved marking_rejected : Step
  reading_guild_settings reading_reminder_job : Step
  claiming_due_jobs marking_job_failed marking_job_skipped marking_job_sent : Step
  inserting_notification listing_undecided listing_attending listing_signups : Step

-- An error of the database, which is not looked into.
abbrev pub Failure : Type 0
Failure = ℕ

pub data Error : Type 0 where
  signups_closed event_started status_requires_raid_lead signup_not_yours : Error
  request_decided : Error
  failed : Step → Failure → Error

pub data Outcome (A : Type 0) : Type 0 where
  ok : A → Outcome A
  err : Error → Outcome A

-- What a call of the store answers.
pub data Reply (A : Type 0) : Type 0 where
  done : A → Reply A
  lost : Failure → Reply A

-- if err != nil { return fmt.Errorf(step, err) }
abbrev pub attempt : {A : Type 0} → Step → Reply A → Outcome A
attempt step (done a) = ok a
attempt step (lost f) = err (failed step f)
