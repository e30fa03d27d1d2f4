-- ===== src/Tables/Comps.antt =====
-- The queries of internal/db/comp.sql.go.
use raider_mate_service.Prelude.{
  ℕ, Bool, ◌&&◌, ◌||◌, not, Option, none, some, List, [], ◌∷◌, ◌++◌, map, ltb, ◌==◌, if◌then◌else◌,
}
use raider_mate_service.Prelude.Int.{ltb_ℤ, eqb_ℤ}
use raider_mate_service.Prelude.Text.{String, str_eq}
use raider_mate_service.Prelude.Filter.{filter_by, any_by, find_by, update_by}
use raider_mate_service.Prelude.Sort.{sort_by}
use raider_mate_service.Comp.Types.{
  RoleEnum, tank, healer, mdps, rdps, RoleChoice, CompMode, Assignment,
}
use raider_mate_service.Comp.Rank.{bool_eq}
use raider_mate_service.Signup.Types.{Signup, SignupStatus, Reply, done, lost}
use raider_mate_service.Tables.{
  Db, CharacterRow, CompRow, CompSlot, has_event, has_character, of_signup, of_comp, in_comp,
  unique_violation, foreign_key_violation,
}
use raider_mate_service.Tables.Signups.{in_pool}

unfoldable pub get_comp : ℕ → String → Db → Option CompMode
get_comp event_id name db = elim (find_by (of_comp event_id name) db.comps) [
  | none ↦ none
  | some c ↦ some c.mode
]

abbrev pub with_comp_row : ℕ → String → CompMode → Db → Db
with_comp_row event_id name mode db = record db {
  comps = db.comps ++ record { event_id = event_id; name = name; mode = mode } ∷ [];
}

-- ON CONFLICT (event_id, name) leaves the row as it is.
unfoldable pub upsert_comp : ℕ → String → CompMode → Db → Reply Db
unfolding has_event
upsert_comp event_id name mode db =
    if not (has_event event_id db)
    then lost foreign_key_violation
    else if any_by (of_comp event_id name) db.comps
    then done db
    else done (with_comp_row event_id name mode db)

-- ORDER BY name, in the collation of the database
unfoldable pub list_comps_of : (String → String → Bool) → ℕ → Db → List CompRow
list_comps_of before event_id db =
    sort_by (λ a b. before a.name b.name) (filter_by (λ c. c.event_id == event_id) db.comps)

unfoldable pub set_comp_mode_row : ℕ → String → CompMode → Db → Db
set_comp_mode_row event_id name mode db = record db {
  comps = update_by (of_comp event_id name) (λ c. record c { mode = mode }) db.comps;
}

-- UNIQUE (event_id, name), and ON UPDATE CASCADE to the slots.
unfoldable pub rename_comp_row : ℕ → String → String → Db → Reply Db
rename_comp_row event_id from to db =
    if any_by (of_comp event_id from) db.comps
      && any_by (of_comp event_id to) db.comps
      && not (str_eq from to)
    then lost unique_violation
    else done (record db {
      comps = update_by (of_comp event_id from) (λ c. record c { name = to }) db.comps;
      comp_slots =
          update_by (in_comp event_id from) (λ r. record r { comp_name = to }) db.comp_slots;
    })

unfoldable pub delete_comp_slots : ℕ → String → Db → Db
delete_comp_slots event_id name db = record db {
  comp_slots = filter_by (λ r. not (in_comp event_id name r)) db.comp_slots;
}

-- Two slots that no comp may hold at once: UNIQUE (…, character_id) and
-- UNIQUE (…, is_bench, slot_index).
abbrev pub clashes : Assignment → Assignment → Bool
clashes a b =
    a.character_id == b.character_id
    || (bool_eq a.is_bench b.is_bench && eqb_ℤ a.slot_index b.slot_index)

abbrev pub clashes_in : ℕ → String → Assignment → CompSlot → Bool
clashes_in event_id name a r = in_comp event_id name r && clashes r.slot a

abbrev pub slot_row : ℕ → String → Assignment → CompSlot
slot_row event_id name a = record { event_id = event_id; comp_name = name; slot = a }

unfoldable pub insert_comp_slot : ℕ → String → Assignment → Db → Reply Db
unfolding has_character
insert_comp_slot event_id name a db =
    if any_by (clashes_in event_id name a) db.comp_slots
    then lost unique_violation
    else if not (any_by (of_comp event_id name) db.comps && has_character a.character_id db)
    then lost foreign_key_violation
    else done (record db { comp_slots = db.comp_slots ++ slot_row event_id name a ∷ [] })

-- ORDER BY is_bench, slot_index
abbrev pub slot_before : Assignment → Assignment → Bool
slot_before a b =
    if not (bool_eq a.is_bench b.is_bench) then b.is_bench else ltb_ℤ a.slot_index b.slot_index

unfoldable pub list_comp_slots : ℕ → String → Db → List Assignment
list_comp_slots event_id name db =
    sort_by slot_before (map (λ r. r.slot) (filter_by (in_comp event_id name) db.comp_slots))

unfoldable pub clear_assigned_roles : ℕ → Db → Db
clear_assigned_roles event_id db = record db {
  signups =
      update_by (λ s. s.event_id == event_id) (λ s. record s { assigned_role = none }) db.signups;
}

unfoldable pub set_signup_assigned_role : ℕ → ℕ → RoleEnum → Db → Db
set_signup_assigned_role event_id character_id role db = record db {
  signups =
      update_by (of_signup event_id character_id) (λ s. record s { assigned_role = some role })
        db.signups;
}

-- ORDER BY s.created_at, s.id
abbrev signed_up_first : Signup → Signup → Bool
signed_up_first a b =
    if not (a.created_at == b.created_at) then ltb a.created_at b.created_at else ltb a.id b.id

unfoldable pub pool_signups : ℕ → Db → List Signup
pool_signups event_id db =
    sort_by signed_up_first (filter_by (λ s. s.event_id == event_id && in_pool s.status) db.signups)

-- A row of ListAssignmentPoolForEvent: a signup joined with its character.
pub record PoolRow : Type 0 where
  pub character : CharacterRow
  pub signed_up_at : ℕ

abbrev with_character : Signup → Option CharacterRow → List PoolRow → List PoolRow
with_character s none rest = rest
with_character s (some c) rest = record { character = c; signed_up_at = s.created_at } ∷ rest

join_characters : List Signup → Db → List PoolRow
join_characters [] db = []
join_characters (s ∷ signups) db =
    with_character s (find_by (λ c. c.id == s.character_id) db.characters)
      (join_characters signups db)

unfoldable pub list_assignment_pool_for_event : ℕ → Db → List PoolRow
unfolding pool_signups join_characters
list_assignment_pool_for_event event_id db = join_characters (pool_signups event_id db) db

-- The order of the enum role_enum.
abbrev role_order : RoleEnum → ℕ
role_order tank = 0
role_order healer = 1
role_order mdps = 2
role_order rdps = 3

-- ORDER BY priority, role
abbrev choice_before : RoleChoice → RoleChoice → Bool
choice_before a b =
    if not (a.priority == b.priority)
    then ltb a.priority b.priority
    else ltb (role_order a.role) (role_order b.role)

-- The rows of ListRolesForCharacters for one character, as AssignmentPool groups them.
unfoldable pub roles_of_character : ℕ → Db → List RoleChoice
roles_of_character id db =
    sort_by choice_before
      (map (λ r. r.choice) (filter_by (λ r. r.character_id == id) db.character_roles))

-- A row of ListUnseatedForComp.
pub record UnseatedRow : Type 0 where
  pub character_id : ℕ
  pub status : SignupStatus
  pub signed_up_at : ℕ
  pub has_roles : Bool

abbrev unseated_row : Db → Signup → UnseatedRow
unseated_row db s = record {
  character_id = s.character_id;
  status = s.status;
  signed_up_at = s.created_at;
  has_roles = any_by (λ r. r.character_id == s.character_id) db.character_roles;
}

abbrev pub is_unseated : ℕ → String → Db → Signup → Bool
is_unseated event_id name db s =
    s.event_id == event_id
    && in_pool s.status
    && not (
        any_by (λ r. in_comp event_id name r && r.slot.character_id == s.character_id)
          db.comp_slots)

-- ORDER BY s.created_at DESC, s.id DESC
unfoldable pub list_unseated_for_comp : ℕ → String → Db → List UnseatedRow
list_unseated_for_comp event_id name db =
    map (unseated_row db)
      (sort_by (λ a b. signed_up_first b a) (filter_by (is_unseated event_id name db) db.signups))
