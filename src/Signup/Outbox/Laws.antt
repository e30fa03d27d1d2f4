-- ===== src/Signup/Outbox/Laws.antt =====
-- Two claims within a lease take different notifications, and a failed delivery is reported once at most.
use raider_mate_service.Prelude.{
  ℕ, zero, suc, ◌-◌, ◌≤◌, ◌≡◌, refl, ap, sym, ◌∙◌, inl, inr, Bool, true, false, Option, none, some,
  List, [], ◌∷◌, ◌++◌, arith, All, length, ltb, ◌==◌, Bool-cases, Option-cases, if◌then◌else◌,
}
use mathlib.Core.List.{append-nil}
use raider_mate_service.Prelude.Text.{String}
use raider_mate_service.Prelude.Filter.{filter_by, any_by, update_by, All-filter_by-cons}
use raider_mate_service.Prelude.Sort.{All-sort_by}
use raider_mate_service.Signup.Types.{Event, done}
use raider_mate_service.Signup.Store.Postgres.Laws.{Reply-cases}
use raider_mate_service.Tables.{Db, NotificationRow}
use raider_mate_service.Tables.Signups.{get_event}
use raider_mate_service.Tables.Notifications.{
  claim_notifications, claimed_rows, take, is_claimable, stamp, get_notification,
  mark_notification_delivered, is_ack_of, insert_notification, list_raid_lead_roles,
}
use raider_mate_service.Signup.Outbox.{
  claim, claim_lease, mark_failed, mark_delivered, report, report_of, is_report, ok,
}

-- Whether a row is one of a batch.
abbrev pub in_batch : List NotificationRow → NotificationRow → Bool
in_batch rows r = any_by (λ c. c.id == r.id) rows

abbrev pub NotTaken : List NotificationRow → NotificationRow → Type 0
NotTaken rows r = in_batch rows r ≡ false

take-All {κ} :
    (P : NotificationRow → Type κ) (n : ℕ) (xs : List NotificationRow)
    → All P xs
    → All P (take n xs)
unfolding take
take-All P zero xs h = tt
take-All P (suc n) [] h = tt
take-All P (suc n) (x ∷ xs) h = (h.0, take-All P n xs h.1)

stamped_unclaimable :
    (guild : Option ℕ) (claimed_before now : ℕ) (x : NotificationRow)
    → claimed_before ≤ now
    → is_claimable guild claimed_before (stamp now x) ≡ false
stamped_unclaimable guild claimed_before now x l = ground (arith, l)

unstamped :
    (rows : List NotificationRow) (now : ℕ) (x : NotificationRow)
    → in_batch rows x ≡ false
    → (if in_batch rows x then stamp now x else x) ≡ x
unstamped rows now x e = rw e refl

-- What can be claimed of the rows that a claim has stamped was not in it.
stamped_apart :
    (rows : List NotificationRow) (now : ℕ) (guild : Option ℕ) (claimed_before : ℕ)
    (xs : List NotificationRow)
    → claimed_before ≤ now
    → All
        (NotTaken rows)
        (filter_by (is_claimable guild claimed_before) (update_by (in_batch rows) (stamp now) xs))
unfolding filter_by update_by
stamped_apart rows now guild claimed_before [] l = tt
stamped_apart rows now guild claimed_before (x ∷ xs) l =
    let rest = stamped_apart rows now guild claimed_before xs l in
    All-filter_by-cons (NotTaken rows) (is_claimable guild claimed_before)
      (if in_batch rows x then stamp now x else x) (update_by (in_batch rows) (stamp now) xs)
      (λ k. elim (Bool-cases (in_batch rows x)) [
        | inl e ↦
            absurd (ground (arith, stamped_unclaimable guild claimed_before now x l, rw e at k))
        | inr e ↦ ap (in_batch rows) (unstamped rows now x e) ∙ e
      ])
      rest

-- A claim takes nothing that a claim before it has taken, unless the lease of that claim is over.
pub claim-apart :
    (clock clock' limit limit' : ℕ) (guild guild' : Option ℕ) (db : Db)
    → clock' - claim_lease ≤ db.now
    → All
        (NotTaken (claimed_rows guild (clock - claim_lease) limit db))
        (claimed_rows guild' (clock' - claim_lease) limit' (claim clock guild limit db).1)
unfolding claim claim_notifications claimed_rows
claim-apart clock clock' limit limit' guild guild' db l =
    let rows = claimed_rows guild (clock - claim_lease) limit db in
    take-All (NotTaken rows) limit' _ (
      All-sort_by (λ a b. ltb a.created_at b.created_at) (NotTaken rows) _
        (stamped_apart rows db.now guild' (clock' - claim_lease) db.notifications l))

abbrev pub acked : ℕ → NotificationRow → NotificationRow
acked now r = record r { delivered_at = some now }

-- What a failed delivery leaves in the outbox: the row is acked, and at most one row is added, which is a
-- report. None is added where the row was a report itself.
pub record IsReported (id : ℕ) (db db' : Db) : Type 0 where
  pub row : NotificationRow
  pub found : get_notification id db ≡ done row
  pub added : List NotificationRow
  pub rows :
      db'.notifications ≡ update_by (is_ack_of id none) (acked db.now) db.notifications ++ added
  pub few : length added ≤ (if is_report row.notification.kind then 0 else 1)
  pub reports : All (λ r. is_report r.notification.kind ≡ true) added

-- The notifications that a write adds.
record IsFiled (few : ℕ) (db db' : Db) : Type 0 where
  added : List NotificationRow
  rows : db'.notifications ≡ db.notifications ++ added
  count : length added ≤ few
  reports : All (λ r. is_report r.notification.kind ≡ true) added

nothing-IsFiled : (few : ℕ) (db : Db) → IsFiled few db db
nothing-IsFiled few db = record {
  added = [];
  rows = sym (append-nil db.notifications);
  count = omega arith;
  reports = tt;
}

insert_report-IsFiled :
    (event : Event) (channel : ℕ) (roles : List ℕ) (failed : NotificationRow) (reason : String)
    (db db' : Db)
    → insert_notification (report_of event channel roles failed reason) db ≡ done db'
    → IsFiled 1 db db'
unfolding insert_notification
insert_report-IsFiled event channel roles failed reason db db' h =
    let n = report_of event channel roles failed reason in
    record {
      added =
          record {
            id = db.next_id;
            notification = n;
            created_at = db.now;
            delivered_at = none;
            claimed_at = none;
          }
          ∷ [];
      rows = ground (arith, h);
      count = omega arith;
      reports = (refl, tt);
    }

report-IsFiled :
    (failed : NotificationRow) (reason : String) (db : Db)
    → IsFiled (if is_report failed.notification.kind then 0 else 1) db (report failed reason db).1
unfolding report
report-IsFiled failed reason db = elim (Bool-cases (is_report failed.notification.kind)) [
  | inl k ↦ rw (report, k) (nothing-IsFiled 0 db)
  | inr k ↦ elim (Reply-cases (get_event failed.notification.event_id db)) [
    | inr (f, e) ↦ rw (report, k, e) (nothing-IsFiled 1 db)
    | inl (event, e) ↦ elim (Option-cases event.channel_id) [
      | inl c ↦ rw (report, k, e, c) (nothing-IsFiled 1 db)
      | inr (channel, c) ↦
          let roles = list_raid_lead_roles failed.notification.discord_guild_id db in
          elim (Reply-cases
            (insert_notification (report_of event channel roles failed reason) db)) [
              | inr (f, i) ↦ rw (report, k, e, c, i) (nothing-IsFiled 1 db)
              | inl (db', i) ↦
                  rw (report, k, e, c, i)
                    (insert_report-IsFiled event channel roles failed reason db db' i)
            ]
    ]
  ]
]

-- A failure that is accepted acks the notification, and files one report about it at most: none about a
-- report.
pub mark_failed-IsReported :
    (id : ℕ) (reason : String) (db : Db)
    → (mark_failed id reason db).0 ≡ ok tt
    → IsReported id db (mark_failed id reason db).1
unfolding mark_failed mark_delivered mark_notification_delivered
mark_failed-IsReported id reason db h = elim (Reply-cases (get_notification id db)) [
  | inr (f, g) ↦ absurd (ground (arith, g, h))
  | inl (failed, g) ↦ elim (Bool-cases (any_by (is_ack_of id none) db.notifications)) [
    | inr a ↦ absurd (ground (arith, g, a, h))
    | inl a ↦
        let filed = report-IsFiled failed reason (record db {
          notifications = update_by (is_ack_of id none) (acked db.now) db.notifications;
        }) in
        rw (mark_failed, g, mark_delivered, mark_notification_delivered, a)
          (record {
            row = failed;
            found = g;
            added = filed.added;
            rows = filed.rows;
            few = filed.count;
            reports = filed.reports;
          })
  ]
]
