-- ===== src/Signup/Store/Postgres/Decisions.antt =====
-- The tables keep decisions on late requests.
use raider_mate_service.Prelude.{
  ℕ, ◌≤◌, ◌≡◌, refl, ap, sym, ◌∙◌, inl, inr, List, arith, Option-cases, ◌==◌,
}
use raider_mate_service.Prelude.Text.{String}
use raider_mate_service.Prelude.Filter.{find_by, update_by, find_by-update_by}
use raider_mate_service.Signup.Types.{
  Signup, SignupWrite, LateRequest, RequestState, Notification, done,
}
use raider_mate_service.Signup.Late.Laws.Clicks.{KeepsDecisions, Decision, accepted, accepted_once}
use raider_mate_service.Tables.{Db}
use raider_mate_service.Tables.Signups.{
  upsert_signup_row, decided, drop_comp_slots_for_character, get_late_request_row,
  decide_late_request_row,
}
use raider_mate_service.Tables.Notifications.{insert_notification}
use raider_mate_service.Comp.Store.Tx.{Connection}
use raider_mate_service.Signup.Store.Postgres.{
  upsert_signup, decide_late_request, get_late_request, signup_store,
}
use raider_mate_service.Signup.Store.Postgres.Laws.{Reply-cases}

insert_notification-late_requests :
    (n : Notification) (db db' : Db)
    → insert_notification n db ≡ done db'
    → db'.late_requests ≡ db.late_requests
unfolding insert_notification
insert_notification-late_requests n db db' h = ground (arith, h)

drop_comp_slots-late_requests :
    (event_id character_id : ℕ) (db : Db)
    → (drop_comp_slots_for_character event_id character_id db).1.late_requests ≡ db.late_requests
unfolding drop_comp_slots_for_character
drop_comp_slots-late_requests event_id character_id db = ground arith

upsert_signup_row-late_requests :
    (w : SignupWrite) (db db' : Db) (row : Signup)
    → upsert_signup_row w db ≡ done (row, db')
    → db'.late_requests ≡ db.late_requests
unfolding upsert_signup_row
upsert_signup_row-late_requests w db db' row h = ground (arith, h)

upsert_signup-late_requests :
    (w : SignupWrite) (db db' : Db) (row : Signup × List String)
    → upsert_signup w db ≡ done (row, db')
    → db'.late_requests ≡ db.late_requests
unfolding upsert_signup
upsert_signup-late_requests w db db' row h = elim (Reply-cases (upsert_signup_row w db)) [
  | inr (f, e) ↦ absurd (ground (arith, e, h))
  | inl ((row', written), e) ↦
      let left : (drop_comp_slots_for_character w.event_id w.character_id written).1 ≡ db' =
        ground (arith, e, h) in
      ap (λ d. d.late_requests) (sym left)
      ∙ drop_comp_slots-late_requests w.event_id w.character_id written
      ∙ upsert_signup_row-late_requests w db written row' e
]

get_late_request-late_requests :
    (id : ℕ) (db db' : Db)
    → db'.late_requests ≡ db.late_requests
    → get_late_request id db' ≡ get_late_request id db
unfolding get_late_request get_late_request_row
get_late_request-late_requests id db db' h = rw (get_late_request, get_late_request_row, h) refl

decide_late_request-state :
    (id : ℕ) (state : RequestState) (filed : LateRequest) (db db' : Db)
    → get_late_request id db ≡ done filed
    → decide_late_request id state db ≡ done db'
    → (r : LateRequest) × (get_late_request id db' ≡ done r) × (r.state ≡ state)
unfolding get_late_request get_late_request_row decide_late_request decide_late_request_row
decide_late_request-state id state filed db db' g h =
    elim (Option-cases (find_by (λ r. r.id == id) db.late_requests)) [
      | inl n ↦ absurd (ground (arith, n, g))
      | inr (r, e) ↦
          let change = decided state db.now in
          let found = find_by-update_by (λ q. q.id == id) change db.late_requests r (λ q k. k) e in
          let rows : update_by (λ q. q.id == id) change db.late_requests ≡ db'.late_requests =
            ground (arith, h) in
          (change r, rw (get_late_request, get_late_request_row, sym rows, found) refl, refl)
    ]

-- The tables keep decisions.
pub signup_store-KeepsDecisions :
    (connection : Connection) → KeepsDecisions (signup_store connection)
unfolding signup_store
signup_store-KeepsDecisions connection = record {
  decided = decide_late_request-state;
  kept = λ n id db db' h.
      get_late_request-late_requests id db db' (insert_notification-late_requests n db db' h);
  written = λ w id row db db' h.
      get_late_request-late_requests id db db' (upsert_signup-late_requests w db db' row h);
}

-- Over the tables, at most one of any sequence of approvals and rejections of a late request, each run
-- to its end before the next begins, is accepted.
pub signup_store-accepted :
    (connection : Connection) (id : ℕ) (decisions : List Decision) (db : Db)
    → accepted (signup_store connection) id decisions db ≤ 1
signup_store-accepted connection id decisions db =
    accepted_once (signup_store connection) (signup_store-KeepsDecisions connection) id decisions db
