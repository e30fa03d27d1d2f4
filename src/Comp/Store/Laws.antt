-- ===== src/Comp/Store/Laws.antt =====
-- Answers, and what a comp write leaves of the tables once it has committed.
pub mod Boards
pub mod Total
pub mod Clash
pub mod Rename
use raider_mate_service.Prelude.{
  ℕ, ◌≡◌, refl, ap, sym, ◌∙◌, not, ◌⊎◌, inl, inr, Bool, true, false, Option, some, none, List, [],
  ◌∷◌, ◌++◌, map, arith, Bool-cases, Option-cases,
}
use mathlib.Core.List.{append-nil, append_assoc}
use raider_mate_service.Prelude.Filter.{filter_by}
use raider_mate_service.Prelude.Text.{String}
use raider_mate_service.Comp.Types.{Assignment}
use raider_mate_service.Signup.Types.{Event, Notification, Reply, done, lost}
use raider_mate_service.Tables.{Db, CompSlot, in_comp}
use raider_mate_service.Tables.Notifications.{insert_notification}
use raider_mate_service.Tables.Signups.{get_event}
use raider_mate_service.Tables.Comps.{
  insert_comp_slot, slot_row, upsert_comp, delete_comp_slots, clear_assigned_roles,
  set_signup_assigned_role,
}
use raider_mate_service.Comp.Store.{
  Answer, ok, err, ReplaceComp, upserting_comp, Error, Step, wrap, of_reply, and_then,
  inserting_comp_slot, loading_event_to_redraw, queueing_comp_redraw, beginning_tx, committing_tx,
}
use raider_mate_service.Comp.Store.Tx.{Connection, queue_redraw, in_tx, redraw_of, insert_redraw}
use raider_mate_service.Comp.Store.Postgres.{
  insert_slots, write_comp, replace_comp, set_assigned_roles,
}

pub Answer-cases :
    {A : Type 0} (o : Answer A) → ((a : A) × (o ≡ ok a)) ⊎ ((e : Error) × (o ≡ err e))
Answer-cases (ok a) = inl (a, refl)
Answer-cases (err e) = inr (e, refl)

pub wrap-ok : {A : Type 0} (step : Step) (x : Answer A) (a : A) → wrap step x ≡ ok a → x ≡ ok a
wrap-ok step (ok b) a h = ground (arith, h)
wrap-ok step (err e) a h = absurd (ground (arith, h))

pub of_reply-ok : {A : Type 0} (r : Reply A) (a : A) → of_reply r ≡ ok a → r ≡ done a
of_reply-ok (done b) a h = ground (arith, h)
of_reply-ok (lost f) a h = absurd (ground (arith, h))

pub and_then-ok :
    {A B : Type 0} (x : Answer A) (next : A → Answer B) (b : B)
    → and_then x next ≡ ok b
    → (a : A) × (x ≡ ok a) × (next a ≡ ok b)
and_then-ok (ok a) next b h = (a, refl, h)
and_then-ok (err e) next b h = absurd (ground (arith, h))

-- The tables of the comps are the same.
pub record IsSameComps (db db' : Db) : Type 0 where
  pub comps : db'.comps ≡ db.comps
  pub comp_slots : db'.comp_slots ≡ db.comp_slots

pub insert_notification-IsSameComps :
    (n : Notification) (db db' : Db) → insert_notification n db ≡ done db' → IsSameComps db db'
unfolding insert_notification
insert_notification-IsSameComps n db db' h = record {
  comps = ground (arith, h);
  comp_slots = ground (arith, h);
}

insert_redraw-IsSameComps :
    (event_id : ℕ) (event : Event) (channel message : Option ℕ) (db db' : Db)
    → insert_redraw event_id event channel message db ≡ ok db'
    → IsSameComps db db'
insert_redraw-IsSameComps event_id event (some channel) (some message) db db' h =
    insert_notification-IsSameComps (redraw_of event_id event channel) db db'
      (of_reply-ok _ db' (wrap-ok queueing_comp_redraw _ db' h))
insert_redraw-IsSameComps event_id event none message db db' h = record {
  comps = ground (arith, h);
  comp_slots = ground (arith, h);
}
insert_redraw-IsSameComps event_id event (some channel) none db db' h = record {
  comps = ground (arith, h);
  comp_slots = ground (arith, h);
}

queue_redraw-IsSameComps :
    (event_id : ℕ) (db db' : Db) → queue_redraw event_id db ≡ ok db' → IsSameComps db db'
unfolding queue_redraw
queue_redraw-IsSameComps event_id db db' h =
    let (event, e, k) =
      and_then-ok (wrap loading_event_to_redraw (of_reply (get_event event_id db)))
        (λ event. insert_redraw event_id event event.channel_id event.message_id db) db' h in
    insert_redraw-IsSameComps event_id event event.channel_id event.message_id db db' k

-- A transaction that succeeds has run its write, and the comps are what the write made them.
pub in_tx-ok :
    (connection : Connection) (event_id : ℕ) (write : Db → Answer Db) (db db' : Db)
    → in_tx connection event_id write db ≡ ok db'
    → (written : Db) × (write db ≡ ok written) × IsSameComps written db'
unfolding in_tx
in_tx-ok connection event_id write db db' h =
    let (begun, b, h1) = and_then-ok (wrap beginning_tx (of_reply (connection.begin db))) _ db' h in
    let (written, w, h2) = and_then-ok (write db) _ db' h1 in
    let (queued, q, h3) = and_then-ok (queue_redraw event_id written) _ db' h2 in
    let (committed, c, h4) =
      and_then-ok (wrap committing_tx (of_reply (connection.commit queued))) _ db' h3 in
    (written, w, queue_redraw-IsSameComps event_id written db' (rw q h4))

set_assigned_roles-IsSameComps :
    (event_id : ℕ) (slots : List Assignment) (db : Db)
    → IsSameComps db (set_assigned_roles event_id slots db)
unfolding set_assigned_roles set_signup_assigned_role
set_assigned_roles-IsSameComps event_id [] db = record { comps = refl; comp_slots = refl }
set_assigned_roles-IsSameComps event_id (a ∷ slots) db = elim (Bool-cases a.is_bench) [
  | inl e ↦ rw (set_assigned_roles, e) (set_assigned_roles-IsSameComps event_id slots db)
  | inr e ↦
      let rest =
        set_assigned_roles-IsSameComps event_id slots
          (set_signup_assigned_role event_id a.character_id a.role db) in
      rw (set_assigned_roles, e) (record { comps = rest.comps; comp_slots = rest.comp_slots })
]

insert_comp_slot-ok :
    (event_id : ℕ) (name : String) (a : Assignment) (db db' : Db)
    → insert_comp_slot event_id name a db ≡ done db'
    → (db'.comps ≡ db.comps) × (db'.comp_slots ≡ db.comp_slots ++ slot_row event_id name a ∷ [])
unfolding insert_comp_slot
insert_comp_slot-ok event_id name a db db' h = (ground (arith, h), ground (arith, h))

-- The loop that succeeds has appended every slot, in its order.
pub insert_slots-ok :
    (event_id : ℕ) (name : String) (slots : List Assignment) (db db' : Db)
    → insert_slots event_id name slots db ≡ ok db'
    → (db'.comps ≡ db.comps)
      × (db'.comp_slots ≡ db.comp_slots ++ map (slot_row event_id name) slots)
unfolding insert_slots
insert_slots-ok event_id name [] db db' h =
    (ground (arith, h), ground (arith, h) ∙ sym (append-nil db.comp_slots))
insert_slots-ok event_id name (a ∷ slots) db db' h =
    elim (Answer-cases (
      wrap (inserting_comp_slot a.character_id) (of_reply (insert_comp_slot event_id name a db)))) [
        | inr (e, k) ↦ absurd (ground (arith, k, h))
        | inl (d, k) ↦
            let (c1, s1) =
              insert_comp_slot-ok event_id name a db d (of_reply-ok _ d (wrap-ok _ _ d k)) in
            let rest : insert_slots event_id name slots d ≡ ok db' = ground (arith, k, h) in
            let (c2, s2) = insert_slots-ok event_id name slots d db' rest in
            (
              c2 ∙ c1,
              s2
                  ∙ ap (λ xs. xs ++ map (slot_row event_id name) slots) s1
                  ∙ append_assoc db.comp_slots _ _,
            )
      ]

-- What ReplaceComp writes, once it has committed.
pub record IsReplaced (arg : ReplaceComp) (db db' : Db) : Type 0 where
  pub with_comp : Db
  pub upserted : upsert_comp arg.event_id arg.comp_name arg.mode db ≡ done with_comp
  pub comps : db'.comps ≡ with_comp.comps
  pub comp_slots :
      db'.comp_slots
      ≡ filter_by (λ r. not (in_comp arg.event_id arg.comp_name r)) with_comp.comp_slots
        ++ map (slot_row arg.event_id arg.comp_name) arg.result.assignments

pub replace_comp-IsReplaced :
    (connection : Connection) (arg : ReplaceComp) (db db' : Db)
    → replace_comp connection arg db ≡ ok db'
    → IsReplaced arg db db'
unfolding replace_comp write_comp delete_comp_slots clear_assigned_roles
replace_comp-IsReplaced connection arg db db' h =
    let (written, w, same) = in_tx-ok connection arg.event_id (write_comp arg) db db' h in
    let (with_comp, u, h1) =
      and_then-ok
        (wrap upserting_comp (of_reply (upsert_comp arg.event_id arg.comp_name arg.mode db))) _
        written w in
    let (with_slots, i, h2) =
      and_then-ok
        (insert_slots arg.event_id arg.comp_name arg.result.assignments
          (delete_comp_slots arg.event_id arg.comp_name with_comp))
        _ written h1 in
    let (c, s) = insert_slots-ok arg.event_id arg.comp_name arg.result.assignments _ with_slots i in
    let roles =
      set_assigned_roles-IsSameComps arg.event_id arg.result.assignments
        (clear_assigned_roles arg.event_id with_slots) in
    let e : set_assigned_roles arg.event_id arg.result.assignments
          (clear_assigned_roles arg.event_id with_slots)
        ≡ written =
      ground (arith, h2) in
    record {
      with_comp = with_comp;
      upserted = of_reply-ok _ with_comp (wrap-ok upserting_comp _ with_comp u);
      comps = same.comps ∙ ap (λ d. d.comps) (sym e) ∙ roles.comps ∙ c;
      comp_slots = same.comp_slots ∙ ap (λ d. d.comp_slots) (sym e) ∙ roles.comp_slots ∙ s;
    }
