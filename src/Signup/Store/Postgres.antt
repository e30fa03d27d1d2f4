-- ===== src/Signup/Store/Postgres.antt =====
-- The methods of Store in internal/signup/store.go that the signup sheet and the late requests use, over
-- the tables. `connection` is what Begin and Commit answer.
pub mod Laws
pub mod Decisions
use raider_mate_service.Prelude.{ℕ, List}
use raider_mate_service.Prelude.Text.{String}
use raider_mate_service.Signup.Types.{
  Signup, SignupWrite, LateRequest, LateRequestWrite, RequestState, Notification, Reply, done, lost,
}
use raider_mate_service.Signup.Store.{SignupStore}
use raider_mate_service.Tables.{Db}
use raider_mate_service.Tables.Signups.{
  get_event, upsert_signup_row, delete_signup_row, drop_comp_slots_for_character,
  upsert_late_request_row, get_late_request_row, decide_late_request_row,
}
use raider_mate_service.Tables.Notifications.{insert_notification, list_raid_lead_roles}
use raider_mate_service.Comp.Store.Tx.{Connection}

-- The names of the comps that the character is taken out of are the second component.
unfoldable pub upsert_signup : SignupWrite → Db → Reply ((Signup × List String) × Db)
upsert_signup w db = elim (upsert_signup_row w db) [
  | lost f ↦ lost f
  | done (row, written) ↦
      let (dropped_from, dropped) =
        drop_comp_slots_for_character w.event_id w.character_id written in
      done ((row, dropped_from), dropped)
]

unfoldable pub delete_signup : ℕ → ℕ → Db → Reply (List String × Db)
unfolding delete_signup_row
delete_signup event_id character_id db = done (
    drop_comp_slots_for_character event_id character_id
      (delete_signup_row event_id character_id db))

unfoldable pub upsert_late_request : LateRequestWrite → Db → Reply (LateRequest × Db)
upsert_late_request = upsert_late_request_row

unfoldable pub get_late_request : ℕ → Db → Reply LateRequest
get_late_request = get_late_request_row

unfoldable pub decide_late_request : ℕ → RequestState → Db → Reply Db
unfolding decide_late_request_row
decide_late_request id state db = done (decide_late_request_row id state db)

unfoldable pub raid_lead_role_ids : ℕ → Db → Reply (List ℕ)
raid_lead_role_ids guild db = done (list_raid_lead_roles guild db)

unfoldable pub signup_store : Connection → SignupStore Db
unfolding upsert_signup delete_signup decide_late_request raid_lead_role_ids
signup_store connection = record {
  get_event = get_event;
  upsert_signup = upsert_signup;
  delete_signup = delete_signup;
  upsert_late_request = upsert_late_request;
  get_late_request = get_late_request;
  decide_late_request = decide_late_request;
  raid_lead_role_ids = raid_lead_role_ids;
  insert_notification = insert_notification;
  begin = connection.begin;
  commit = connection.commit;
}
