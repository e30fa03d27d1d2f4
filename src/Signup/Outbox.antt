-- ===== src/Signup/Outbox.antt =====
-- Outbox of internal/signup/outbox.go, over the tables. What `now` and `lease` are measured in is
-- nanoseconds, and a clock that is less than the lease after the epoch claims as if from the epoch.
pub mod Laws
use raider_mate_service.Prelude.{
  ℕ, ◌-◌, ◌*◌, Bool, true, false, Option, none, some, List, [], if◌then◌else◌,
}
use raider_mate_service.Prelude.Text.{String}
use raider_mate_service.Signup.Types.{
  Event, Notification, NotificationKind, delivery_failed, to_role, not_delivered, Reply, done, lost,
  Failure,
}
use raider_mate_service.Signup.Policy.{minute}
use raider_mate_service.Tables.{Db, NotificationRow, no_rows}
use raider_mate_service.Tables.Signups.{get_event}
use raider_mate_service.Tables.Notifications.{
  claim_notifications, get_notification, mark_notification_delivered, insert_notification,
  list_raid_lead_roles,
}

abbrev pub claim_lease : ℕ
claim_lease = 5 * minute

-- `clock` is time.Now().
unfoldable pub claim : ℕ → Option ℕ → ℕ → Db → List NotificationRow × Db
unfolding claim_notifications
claim clock guild limit db = claim_notifications guild (clock - claim_lease) limit db

-- ErrNotificationNotFound, or an error of the database.
pub data OutboxError : Type 0 where
  notification_not_found : OutboxError
  lost_at : Failure → OutboxError

pub data Answer (A : Type 0) : Type 0 where
  ok : A → Answer A
  err : OutboxError → Answer A

-- Store.MarkNotificationDelivered: no row updated is ErrNotificationNotFound.
unfoldable pub mark_delivered : ℕ → Option ℕ → Db → Answer Db
mark_delivered id guild db =
    let (found, acked) = mark_notification_delivered id guild db in
    if found then ok acked else err notification_not_found

abbrev pub is_report : NotificationKind → Bool
is_report delivery_failed = true
is_report _ = false

abbrev pub report_of : Event → ℕ → List ℕ → NotificationRow → String → Notification
report_of event channel roles failed reason = record {
  discord_guild_id = failed.notification.discord_guild_id;
  event_id = failed.notification.event_id;
  kind = delivery_failed;
  target_kind = to_role;
  discord_id = none;
  role_ids = roles;
  discord_ids = [];
  channel_id = some channel;
  payload = not_delivered event.title failed.notification.kind reason;
}

-- What is filed about a row that is acked already; an error leaves the ack in place.
unfoldable pub report : NotificationRow → String → Db → Answer Unit × Db
report failed reason acked = elim (is_report failed.notification.kind) [
  | true ↦ (ok tt, acked)
  | false ↦ elim (get_event failed.notification.event_id acked) [
    | lost f ↦ (err (lost_at f), acked)
    | done event ↦ elim event.channel_id [
      | none ↦ (ok tt, acked)
      | some channel ↦
          let roles = list_raid_lead_roles failed.notification.discord_guild_id acked in
          elim (insert_notification (report_of event channel roles failed reason) acked) [
            | lost f ↦ (err (lost_at f), acked)
            | done filed ↦ (ok tt, filed)
          ]
    ]
  ]
]

-- No transaction: the ack and the report are two writes.
unfoldable pub mark_failed : ℕ → String → Db → Answer Unit × Db
unfolding mark_delivered report
mark_failed id reason db = elim (get_notification id db) [
  | lost f ↦ (err notification_not_found, db)
  | done failed ↦ elim (mark_delivered id none db) [
    | err e ↦ (err e, db)
    | ok acked ↦ report failed reason acked
  ]
]
