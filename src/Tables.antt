-- ===== src/Tables.antt =====
-- The tables of the database that the modelled queries read and write (internal/db/models.go, with the
-- constraints of migrations), as lists of rows in the order of their insertion.
pub mod Notifications
pub mod Signups
pub mod Comps
pub mod Sample
use raider_mate_service.Prelude.{ℕ, Bool, Option, List, ◌==◌, ◌&&◌}
use raider_mate_service.Prelude.Text.{String, str_eq}
use raider_mate_service.Prelude.Filter.{any_by}
use raider_mate_service.Comp.Types.{RoleChoice, CompMode, Assignment}
use raider_mate_service.Signup.Types.{Event, Signup, LateRequest, Notification, Failure}

-- `ilvl` and `mplus_score` are numeric columns that may be NULL.
pub record CharacterRow : Type 0 where
  pub id : ℕ
  pub name : String
  pub is_main : Bool
  pub ilvl : Option ℕ
  pub mplus_score : Option ℕ

pub record CharacterRole : Type 0 where
  pub character_id : ℕ
  pub choice : RoleChoice

-- The ids of comps and of their slots are written and never read, so they are left out.
pub record CompRow : Type 0 where
  pub event_id : ℕ
  pub name : String
  pub mode : CompMode

pub record CompSlot : Type 0 where
  pub event_id : ℕ
  pub comp_name : String
  pub slot : Assignment

pub record NotificationRow : Type 0 where
  pub id : ℕ
  pub notification : Notification
  pub created_at : ℕ
  pub delivered_at : Option ℕ
  pub claimed_at : Option ℕ

pub record RaidLeadRole : Type 0 where
  pub discord_guild_id : ℕ
  pub discord_role_id : ℕ

-- `next_id` is what db.NewID hands out next, and `now` what now() answers.
pub record Db : Type 0 where
  pub events : List Event
  pub characters : List CharacterRow
  pub character_roles : List CharacterRole
  pub signups : List Signup
  pub comps : List CompRow
  pub comp_slots : List CompSlot
  pub late_requests : List LateRequest
  pub notifications : List NotificationRow
  pub raid_lead_roles : List RaidLeadRole
  pub next_id : ℕ
  pub now : ℕ

-- pgx.ErrNoRows, and the SQLSTATEs of the violated constraints.
abbrev pub no_rows : Failure
no_rows = 0

abbrev pub unique_violation : Failure
unique_violation = 23505

abbrev pub foreign_key_violation : Failure
foreign_key_violation = 23503

abbrev pub check_violation : Failure
check_violation = 23514

-- REFERENCES events (id) and REFERENCES characters (id)
unfoldable pub has_event : ℕ → Db → Bool
has_event id db = any_by (λ e. e.id == id) db.events

unfoldable pub has_character : ℕ → Db → Bool
has_character id db = any_by (λ c. c.id == id) db.characters

abbrev pub of_signup : ℕ → ℕ → Signup → Bool
of_signup event_id character_id s = s.event_id == event_id && s.character_id == character_id

abbrev pub of_comp : ℕ → String → CompRow → Bool
of_comp event_id name c = c.event_id == event_id && str_eq c.name name

abbrev pub in_comp : ℕ → String → CompSlot → Bool
in_comp event_id name r = r.event_id == event_id && str_eq r.comp_name name

abbrev pub holds_seat : ℕ → ℕ → CompSlot → Bool
holds_seat event_id character_id r = r.event_id == event_id && r.slot.character_id == character_id
