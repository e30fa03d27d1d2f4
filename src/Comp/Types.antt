-- ===== src/Comp/Types.antt =====
-- The data of internal/comp/comp.go, with the enums of internal/db that it uses.
-- A character id is a number, ordered as its canonical text is; a score is a number on a scaled
-- grid (the program only compares scores); a time is a number of nanoseconds.
use Prim.Native.String.{String}
use raider_mate_service.Prelude.{ℕ, Bool, Option, List}
use raider_mate_service.Prelude.Int.{ℤ}

pub data RoleEnum : Type 0 where
  tank healer mdps rdps : RoleEnum

pub data CompMode : Type 0 where
  auto manual : CompMode

pub data Mode : Type 0 where
  raid_flex raid_mythic mythic_plus : Mode

pub record RoleChoice : Type 0 where
  pub role : RoleEnum
  pub priority : ℕ

pub record Raider : Type 0 where
  pub character_id : ℕ
  pub name : String
  pub roles : List RoleChoice
  pub is_main : Bool
  pub score : ℕ
  pub signed_up_at : ℕ

-- Each field is a pointer to an int; `none` is nil.
pub record Template : Type 0 where
  pub tanks : Option ℤ
  pub healers : Option ℤ
  pub max_melee : Option ℤ
  pub max_ranged : Option ℤ

pub record Needs : Type 0 where
  pub tanks : ℤ
  pub healers : ℤ
  pub dps : ℤ
  pub max_melee : Option ℤ
  pub max_ranged : Option ℤ

-- The role groups that the needs are counted in, the strings "TANK", "HEALER" and "DPS".
pub data Group : Type 0 where
  tank healer dps : Group

-- The subject of a cap's advisory, the strings "max_melee" and "max_ranged".
pub data Side : Type 0 where
  max_melee max_ranged : Side

-- An advisory's sentence: one constructor for each format string, carrying its arguments.
pub data Message : Type 0 where
  -- %s: %d, suggestion for %d raiders is %d
  departs : Group → ℤ → ℕ → ℕ → Message
  -- %s: %d is negative, clamped to 0
  count_negative : Group → ℤ → Message
  cap_negative : Side → ℤ → Message
  -- TANK: %d exceeds the %d-raider size, trimmed to %d
  tanks_trimmed : ℤ → ℕ → Message
  -- HEALER: %d leaves the %d-raider size short of TANK (%d), trimmed to %d
  healers_trimmed : ℤ → ℕ → ℤ → ℤ → Message
  -- DPS: 0, TANK+HEALER (%d) fills the %d-raider size
  no_dps : ℤ → ℕ → Message
  -- DPS: caps allow at most %d, need is %d
  caps_below_need : ℤ → ℤ → Message
  -- %s: skipped, the character has no roles set
  no_roles : String → Message
  -- %s: %d of %d, not enough signups
  not_enough : Group → ℕ → ℤ → Message
  -- %s: %d seated, the comp asks for %d
  seats_missing : Group → ℕ → ℤ → Message

-- `role` is `none` where the source leaves the zero value "".
pub record Advisory : Type 0 where
  pub role : Option RoleEnum
  pub message : Message

-- Why a raider holds a slot: one constructor for each format string.
pub data Reason : Type 0 where
  -- %s: priority %d, main or alt, first signup or signup #%d
  placed : Group → ℕ → Bool → ℕ → Reason
  -- BENCH: no open role, first signup or signup #%d
  benched : ℕ → Reason
  -- MANUAL: placed by a raid lead
  by_raid_lead : Reason

-- `slot_index` is an int16.
pub record Assignment : Type 0 where
  pub character_id : ℕ
  pub role : RoleEnum
  pub slot_index : ℤ
  pub is_bench : Bool
  pub reason : Reason

pub record Result : Type 0 where
  pub assignments : List Assignment
  pub advisories : List Advisory
