-- ===== src/Tables/Signups.antt =====
-- The queries of internal/db/signup.sql.go on signups and late requests, and
-- DropCompSlotsForCharacter of internal/db/comp.sql.go.
use raider_mate_service.Prelude.{
  ℕ, suc, Bool, true, false, ◌&&◌, not, none, some, List, [], ◌∷◌, ◌++◌, map, ◌==◌, if◌then◌else◌,
}
use raider_mate_service.Prelude.Text.{String}
use raider_mate_service.Prelude.Filter.{filter_by, any_by, find_by, update_by}
use raider_mate_service.Signup.Types.{
  SignupStatus, confirmed, late, RequestState, pending, Event, Signup, SignupWrite, LateRequest,
  LateRequestWrite, Reply, done, lost,
}
use raider_mate_service.Signup.Policy.{status_eq}
use raider_mate_service.Tables.{
  Db, has_event, has_character, of_signup, holds_seat, no_rows, foreign_key_violation,
}

unfoldable pub get_event : ℕ → Db → Reply Event
get_event id db = elim (find_by (λ e. e.id == id) db.events) [
  | none ↦ lost no_rows
  | some e ↦ done e
]

-- ON CONFLICT (event_id, character_id) DO UPDATE
abbrev pub rewritten : SignupWrite → Signup → Signup
rewritten w s = record s {
  status = w.status;
  note = w.note;
  late_until = w.late_until;
  assigned_role = if status_eq s.status w.status then s.assigned_role else none;
}

abbrev pub first_signup : SignupWrite → Db → Signup
first_signup w db = record {
  id = db.next_id;
  event_id = w.event_id;
  character_id = w.character_id;
  status = w.status;
  assigned_role = none;
  late_until = w.late_until;
  note = w.note;
  created_at = db.now;
}

unfoldable pub upsert_signup_row : SignupWrite → Db → Reply (Signup × Db)
unfolding has_event has_character
upsert_signup_row w db =
    if not (has_event w.event_id db && has_character w.character_id db)
    then lost foreign_key_violation
    else elim (find_by (of_signup w.event_id w.character_id) db.signups) [
      | some s ↦ done (
        rewritten w s,
        record db {
          signups = update_by (of_signup w.event_id w.character_id) (rewritten w) db.signups;
        },
      )
      | none ↦ done (
        first_signup w db,
        record db { signups = db.signups ++ first_signup w db ∷ []; next_id = suc db.next_id },
      )
    ]

unfoldable pub delete_signup_row : ℕ → ℕ → Db → Db
delete_signup_row event_id character_id db = record db {
  signups = filter_by (λ s. not (of_signup event_id character_id s)) db.signups;
}

-- s.status IN ('CONFIRMED', 'LATE')
abbrev pub in_pool : SignupStatus → Bool
in_pool confirmed = true
in_pool late = true
in_pool _ = false

abbrev pub is_pool_signup : ℕ → ℕ → Signup → Bool
is_pool_signup event_id character_id s = of_signup event_id character_id s && in_pool s.status

unfoldable pub is_in_pool : ℕ → ℕ → Db → Bool
is_in_pool event_id character_id db = any_by (is_pool_signup event_id character_id) db.signups

-- The names that are returned, and what is left.
unfoldable pub drop_comp_slots_for_character : ℕ → ℕ → Db → List String × Db
unfolding is_in_pool
drop_comp_slots_for_character event_id character_id db =
    if is_in_pool event_id character_id db then ([], db) else (
      map (λ r. r.comp_name) (filter_by (holds_seat event_id character_id) db.comp_slots),
      record db {
        comp_slots = filter_by (λ r. not (holds_seat event_id character_id r)) db.comp_slots;
      },
    )

abbrev of_request : ℕ → ℕ → LateRequest → Bool
of_request event_id character_id r = r.event_id == event_id && r.character_id == character_id

abbrev requested_again : LateRequestWrite → LateRequest → LateRequest
requested_again w r = record r {
  status = w.status;
  note = w.note;
  late_until = w.late_until;
  state = pending;
  decided_at = none;
}

abbrev first_request : LateRequestWrite → Db → LateRequest
first_request w db = record {
  id = db.next_id;
  event_id = w.event_id;
  character_id = w.character_id;
  status = w.status;
  note = w.note;
  late_until = w.late_until;
  state = pending;
  created_at = db.now;
  decided_at = none;
}

unfoldable pub upsert_late_request_row : LateRequestWrite → Db → Reply (LateRequest × Db)
unfolding has_event has_character
upsert_late_request_row w db =
    if not (has_event w.event_id db && has_character w.character_id db)
    then lost foreign_key_violation
    else elim (find_by (of_request w.event_id w.character_id) db.late_requests) [
      | some r ↦ done (
        requested_again w r,
        record db {
          late_requests =
              update_by (of_request w.event_id w.character_id) (requested_again w) db.late_requests;
        },
      )
      | none ↦ done (
        first_request w db,
        record db {
          late_requests = db.late_requests ++ first_request w db ∷ [];
          next_id = suc db.next_id;
        },
      )
    ]

unfoldable pub get_late_request_row : ℕ → Db → Reply LateRequest
get_late_request_row id db = elim (find_by (λ r. r.id == id) db.late_requests) [
  | none ↦ lost no_rows
  | some r ↦ done r
]

abbrev pub decided : RequestState → ℕ → LateRequest → LateRequest
decided state now r = record r { state = state; decided_at = some now }

unfoldable pub decide_late_request_row : ℕ → RequestState → Db → Db
decide_late_request_row id state db = record db {
  late_requests = update_by (λ r. r.id == id) (decided state db.now) db.late_requests;
}
