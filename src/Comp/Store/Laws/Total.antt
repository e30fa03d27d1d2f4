-- ===== src/Comp/Store/Laws/Total.antt =====
-- When a whole-board write succeeds: no constraint of the tables stands in its way.
use raider_mate_service.Prelude.{
  ℕ, ◌≡◌, refl, ◌∙◌, inl, inr, true, false, not, none, some, List, [], ◌∷◌, ◌++◌, arith, All,
  Bool-cases, Option, ◌==◌, ==_refl,
}
use raider_mate_service.Prelude.Text.{String, str_eq_refl}
use raider_mate_service.Prelude.Filter.{
  any_by, filter_by, find_by-some, any_by-append, any_by-filter_by-not,
}
use raider_mate_service.Comp.Types.{CompMode, Assignment}
use raider_mate_service.Signup.Types.{Event, done}
use raider_mate_service.Tables.{Db, CompSlot, has_event, has_character, in_comp, of_comp}
use raider_mate_service.Tables.Signups.{get_event}
use raider_mate_service.Tables.Notifications.{insert_notification, with_notification}
use raider_mate_service.Tables.Comps.{
  clashes, clashes_in, insert_comp_slot, slot_row, with_comp_row, upsert_comp, delete_comp_slots,
  clear_assigned_roles, set_signup_assigned_role,
}
use raider_mate_service.Comp.Store.{Answer, ok, ReplaceComp}
use raider_mate_service.Comp.Store.Tx.{Connection, in_tx, queue_redraw, insert_redraw, redraw_of}
use raider_mate_service.Comp.Store.Postgres.{
  insert_slots, set_assigned_roles, write_comp, replace_comp,
}
use raider_mate_service.Comp.Store.Laws.Clash.{NoClash}

insert_comp_slot_total :
    (event_id : ℕ) (name : String) (a : Assignment) (db : Db)
    → any_by (of_comp event_id name) db.comps ≡ true
    → has_character a.character_id db ≡ true
    → any_by (clashes_in event_id name a) db.comp_slots ≡ false
    → insert_comp_slot event_id name a db
      ≡ done (record db { comp_slots = db.comp_slots ++ slot_row event_id name a ∷ [] })
unfolding insert_comp_slot
insert_comp_slot_total event_id name a db c h f = rw (insert_comp_slot, f, c, h) refl

Free : ℕ → String → List Assignment → List CompSlot → Type 0
unfolding any_by
Free event_id name slots rows = All (λ a. any_by (clashes_in event_id name a) rows ≡ false) slots

Free-snoc :
    (event_id : ℕ) (name : String) (a : Assignment) (slots : List Assignment) (rows : List CompSlot)
    → All (λ b. clashes a b ≡ false) slots
    → Free event_id name slots rows
    → Free event_id name slots (rows ++ slot_row event_id name a ∷ [])
unfolding Free any_by
Free-snoc event_id name a [] rows apart free = tt
Free-snoc event_id name a (b ∷ slots) rows apart free = (
  rw
      (
        any_by-append (clashes_in event_id name b) rows (slot_row event_id name a ∷ []),
        free.0,
        any_by,
        apart.0,
      )
      (rw (==_refl event_id, str_eq_refl name) refl),
  Free-snoc event_id name a slots rows apart.1 free.1,
)

insert_slots_total :
    (event_id : ℕ) (name : String) (slots : List Assignment) (db : Db)
    → any_by (of_comp event_id name) db.comps ≡ true
    → All (λ a. has_character a.character_id db ≡ true) slots
    → NoClash slots
    → Free event_id name slots db.comp_slots
    → (db' : Db) × (insert_slots event_id name slots db ≡ ok db') × (db'.events ≡ db.events)
unfolding insert_slots Free has_character
insert_slots_total event_id name [] db c h n f = (db, refl, refl)
insert_slots_total event_id name (a ∷ slots) db c h n f =
    let (db', e, v) =
      insert_slots_total event_id name slots
        (record db { comp_slots = db.comp_slots ++ slot_row event_id name a ∷ [] }) c h.1 n.1
        (Free-snoc event_id name a slots db.comp_slots n.0 f.1) in
    (db', rw (insert_slots, insert_comp_slot_total event_id name a db c h.0 f.0) e, v)

set_assigned_roles-events :
    (event_id : ℕ) (slots : List Assignment) (db : Db)
    → (set_assigned_roles event_id slots db).events ≡ db.events
unfolding set_assigned_roles set_signup_assigned_role
set_assigned_roles-events event_id [] db = refl
set_assigned_roles-events event_id (a ∷ slots) db = elim (Bool-cases a.is_bench) [
  | inl e ↦ rw (set_assigned_roles, e) (set_assigned_roles-events event_id slots db)
  | inr e ↦
      rw (set_assigned_roles, e)
        (set_assigned_roles-events event_id slots
          (set_signup_assigned_role event_id a.character_id a.role db))
]

insert_redraw_total :
    (event_id : ℕ) (event : Event) (channel message : Option ℕ) (db : Db)
    → has_event event_id db ≡ true
    → (db' : Db) × (insert_redraw event_id event channel message db ≡ ok db')
unfolding insert_notification
insert_redraw_total event_id event none message db h = (db, refl)
insert_redraw_total event_id event (some channel) none db h = (db, refl)
insert_redraw_total event_id event (some channel) (some message) db h =
    (with_notification (redraw_of event_id event channel) db, rw (insert_notification, h) refl)

queue_redraw_total :
    (event_id : ℕ) (db : Db)
    → has_event event_id db ≡ true
    → (db' : Db) × (queue_redraw event_id db ≡ ok db')
unfolding queue_redraw get_event has_event
queue_redraw_total event_id db h =
    let (event, e, _) = find_by-some (λ v. v.id == event_id) db.events h in
    let (db', k) = insert_redraw_total event_id event event.channel_id event.message_id db h in
    (db', rw (queue_redraw, get_event, e) k)

-- The connection begins and commits every transaction.
pub record IsUp (connection : Connection) : Type 0 where
  pub begin : (db : Db) → connection.begin db ≡ done tt
  pub commit : (db : Db) → connection.commit db ≡ done tt

pub in_tx_total :
    (connection : Connection) (event_id : ℕ) (write : Db → Answer Db) (db written : Db)
    → IsUp connection
    → write db ≡ ok written
    → has_event event_id written ≡ true
    → (db' : Db) × (in_tx connection event_id write db ≡ ok db')
unfolding in_tx
in_tx_total connection event_id write db written up w h =
    let (db', q) = queue_redraw_total event_id written h in
    (db', rw (in_tx, up.begin db, w, q, up.commit db') refl)

upsert_comp_total :
    (event_id : ℕ) (name : String) (mode : CompMode) (db : Db)
    → has_event event_id db ≡ true
    → (db' : Db) × (upsert_comp event_id name mode db ≡ done db')
      × (any_by (of_comp event_id name) db'.comps ≡ true)
      × (db'.events ≡ db.events)
      × (db'.characters ≡ db.characters)
unfolding upsert_comp any_by
upsert_comp_total event_id name mode db h =
    elim (Bool-cases (any_by (of_comp event_id name) db.comps)) [
      | inl e ↦ (db, rw (upsert_comp, h, e) refl, e, refl, refl)
      | inr e ↦ (
        with_comp_row event_id name mode db,
        rw (upsert_comp, h, e) refl,
        rw
            (
              any_by-append (of_comp event_id name) db.comps
                  (record { event_id = event_id; name = name; mode = mode } ∷ []),
              e,
              any_by,
              ==_refl event_id,
              str_eq_refl name,
            )
            refl,
        refl,
        refl,
      )
    ]

clear_slots-Free :
    (event_id : ℕ) (name : String) (slots : List Assignment) (rows : List CompSlot)
    → Free event_id name slots (filter_by (λ r. not (in_comp event_id name r)) rows)
unfolding Free
clear_slots-Free event_id name [] rows = tt
clear_slots-Free event_id name (a ∷ slots) rows = (
  any_by-filter_by-not (clashes_in event_id name a) (in_comp event_id name) rows
      (λ r h. ground (arith, h)),
  clear_slots-Free event_id name slots rows,
)

-- A write whose slots do not clash, for characters and an event that exist, is committed.
pub replace_comp_total :
    (connection : Connection) (arg : ReplaceComp) (db : Db)
    → IsUp connection
    → has_event arg.event_id db ≡ true
    → All (λ a. has_character a.character_id db ≡ true) arg.result.assignments
    → NoClash arg.result.assignments
    → (db' : Db) × (replace_comp connection arg db ≡ ok db')
unfolding replace_comp write_comp delete_comp_slots clear_assigned_roles has_event has_character
replace_comp_total connection arg db up h c n =
    let slots = arg.result.assignments in
    let (with_comp, u, there, events, characters) =
      upsert_comp_total arg.event_id arg.comp_name arg.mode db h in
    let (with_slots, i, events') =
      insert_slots_total arg.event_id arg.comp_name slots
        (delete_comp_slots arg.event_id arg.comp_name with_comp) there (rw characters c) n
        (clear_slots-Free arg.event_id arg.comp_name slots with_comp.comp_slots) in
    let written =
      set_assigned_roles arg.event_id slots (clear_assigned_roles arg.event_id with_slots) in
    let events'' : written.events ≡ db.events =
      set_assigned_roles-events arg.event_id slots (clear_assigned_roles arg.event_id with_slots)
      ∙ events'
      ∙ events in
    in_tx_total connection arg.event_id (write_comp arg) db written up (rw (write_comp, u, i) refl)
      (rw events'' h)
