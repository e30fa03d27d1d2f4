-- ===== src/Comp/Store/Postgres.antt =====
-- Store of internal/comp/store.go, over the tables. `parse_template` is json.Unmarshal into a
-- Template, `before` the order of the database's texts, and `connection` what Begin and Commit answer.
use raider_mate_service.Prelude.{
  ℕ, Bool, false, Option, none, some, List, [], ◌∷◌, map, ◌==◌, if◌then◌else◌,
}
use raider_mate_service.Prelude.Text.{String}
use raider_mate_service.Comp.Types.{
  Raider, Template, Mode, raid_flex, raid_mythic, mythic_plus as size_mythic_plus, CompMode,
  Assignment,
}
use raider_mate_service.Signup.Types.{
  Event, EventType, mythic_plus, raid, RaidDifficulty, mythic, Failure,
}
use raider_mate_service.Tables.{Db, CharacterRow, unique_violation}
use raider_mate_service.Tables.Signups.{get_event}
use raider_mate_service.Tables.Comps.{
  get_comp, upsert_comp, set_comp_mode_row, rename_comp_row, delete_comp_slots, insert_comp_slot,
  list_comps_of, list_comp_slots, clear_assigned_roles, set_signup_assigned_role, PoolRow,
  list_assignment_pool_for_event, roles_of_character, UnseatedRow, list_unseated_for_comp,
}
use raider_mate_service.Comp.Store.{
  CompStore, ReplaceComp, Unseated, unseated_no_roles, unseated_late, Answer, ok, err, and_then,
  wrap, of_reply, pg_error, comp_name_taken, wrapped, renaming_comp, loading_event,
  parsing_comp_template, upserting_comp, inserting_comp_slot,
}
use raider_mate_service.Comp.Store.Tx.{Connection, in_tx}

abbrev of_type : EventType → Option RaidDifficulty → Mode
of_type mythic_plus difficulty = size_mythic_plus
of_type raid (some mythic) = raid_mythic
of_type raid difficulty = raid_flex

unfoldable pub mode_for : Event → Mode
mode_for event = of_type event.event_type event.difficulty

-- numericToFloat64: NULL is 0.
abbrev numeric_to_score : Option ℕ → ℕ
numeric_to_score none = 0
numeric_to_score (some n) = n

-- Which column ranks the candidates.
abbrev score_of : EventType → CharacterRow → ℕ
score_of mythic_plus c = numeric_to_score c.mplus_score
score_of raid c = numeric_to_score c.ilvl

abbrev raider_of : EventType → Db → PoolRow → Raider
raider_of type db r = record {
  character_id = r.character.id;
  name = r.character.name;
  roles = roles_of_character r.character.id db;
  is_main = r.character.is_main;
  score = score_of type r.character;
  signed_up_at = r.signed_up_at;
}

abbrev pub unseated_of : UnseatedRow → Unseated
unseated_of r = record {
  character_id = r.character_id;
  status = r.status;
  signed_up_at = r.signed_up_at;
  reason = if r.has_roles then unseated_late else unseated_no_roles;
}

module _ (parse_template : String → Answer Template) where
  unfoldable pub assignment_pool : ℕ → Db → Answer (List Raider × Template × Mode)
  unfolding mode_for
  assignment_pool event_id db =
      and_then (wrap loading_event (of_reply (get_event event_id db))) (λ event.
        and_then (wrap parsing_comp_template (parse_template event.comp_template)) (λ template. ok (
          map (raider_of event.event_type db) (list_assignment_pool_for_event event_id db),
          template,
          mode_for event,
        )))

  unfoldable pub comp_shape : ℕ → Db → Answer (Template × Mode)
  unfolding mode_for
  comp_shape event_id db =
      and_then (wrap loading_event (of_reply (get_event event_id db))) (λ event.
        and_then (wrap parsing_comp_template (parse_template event.comp_template))
          (λ template. ok (template, mode_for event)))

-- The loop over InsertCompSlot.
unfoldable pub insert_slots : ℕ → String → List Assignment → Db → Answer Db
unfolding insert_comp_slot
insert_slots event_id name [] db = ok db
insert_slots event_id name (a ∷ slots) db =
    elim (wrap (inserting_comp_slot a.character_id)
      (of_reply (insert_comp_slot event_id name a db))) [
        | err e ↦ err e
        | ok db' ↦ insert_slots event_id name slots db'
      ]

-- The loop over SetSignupAssignedRole.
unfoldable pub set_assigned_roles : ℕ → List Assignment → Db → Db
unfolding set_signup_assigned_role
set_assigned_roles event_id [] db = db
set_assigned_roles event_id (a ∷ slots) db =
    set_assigned_roles event_id slots
      (if a.is_bench then db else set_signup_assigned_role event_id a.character_id a.role db)

-- The writes of ReplaceComp before the redraw.
unfoldable pub write_comp : ReplaceComp → Db → Answer Db
unfolding insert_slots set_assigned_roles upsert_comp delete_comp_slots clear_assigned_roles
write_comp arg db =
    and_then (wrap upserting_comp (of_reply (upsert_comp arg.event_id arg.comp_name arg.mode db)))
      (λ with_comp.
        and_then
          (insert_slots arg.event_id arg.comp_name arg.result.assignments
            (delete_comp_slots arg.event_id arg.comp_name with_comp))
          (λ with_slots. ok (
            set_assigned_roles arg.event_id arg.result.assignments
              (clear_assigned_roles arg.event_id with_slots))))

unfoldable pub replace_comp : Connection → ReplaceComp → Db → Answer Db
unfolding in_tx write_comp
replace_comp connection arg db = in_tx connection arg.event_id (write_comp arg) db

unfoldable pub set_comp_mode : Connection → ℕ → String → CompMode → Db → Answer Db
unfolding in_tx set_comp_mode_row
set_comp_mode connection event_id name mode db =
    in_tx connection event_id (λ d. ok (set_comp_mode_row event_id name mode d)) db

abbrev is_unique_violation : Option Failure → Bool
is_unique_violation (some f) = f == unique_violation
is_unique_violation none = false

abbrev pub name_taken : Answer Db → Answer Db
name_taken (ok db) = ok db
name_taken (err e) =
    if is_unique_violation (pg_error e) then err (wrapped renaming_comp comp_name_taken) else err e

unfoldable pub rename_comp : Connection → ℕ → String → String → Db → Answer Db
unfolding in_tx rename_comp_row pg_error
rename_comp connection event_id from to db =
    name_taken (in_tx connection event_id (λ d. of_reply (rename_comp_row event_id from to d)) db)

unfoldable pub postgres :
    (String → Answer Template) → (String → String → Bool) → Connection → CompStore Db
unfolding assignment_pool set_comp_mode replace_comp rename_comp comp_shape
postgres parse_template before connection = record {
  assignment_pool = assignment_pool parse_template;
  comp_mode = λ event_id name db. ok (get_comp event_id name db);
  set_comp_mode = set_comp_mode connection;
  replace_comp = replace_comp connection;
  rename_comp = rename_comp connection;
  list_comps = λ event_id db.
      ok (map (λ c. record { name = c.name; mode = c.mode }) (list_comps_of before event_id db));
  list_comp_slots = λ event_id name db. ok (list_comp_slots event_id name db);
  list_unseated =
      λ event_id name db. ok (map unseated_of (list_unseated_for_comp event_id name db));
  comp_shape = comp_shape parse_template;
}
