-- ===== src/Tables/Notifications.antt =====
-- The queries of internal/db/notification.sql.go and raidlead.sql.go on the outbox.
use raider_mate_service.Prelude.{
  ℕ, zero, suc, Bool, true, false, ◌&&◌, not, Option, none, some, List, [], ◌∷◌, ◌++◌, map, ltb,
  ◌==◌, if◌then◌else◌,
}
use raider_mate_service.Prelude.Filter.{filter_by, any_by, find_by, update_by}
use raider_mate_service.Prelude.Sort.{sort_by}
use raider_mate_service.Comp.Roles.{is_ok}
use raider_mate_service.Signup.Types.{
  Notification, NotificationKind, roster_updated, to_user, Reply, done, lost,
}
use raider_mate_service.Tables.{
  Db, NotificationRow, has_event, check_violation, foreign_key_violation, no_rows,
}

abbrev is_roster_updated : NotificationKind → Bool
is_roster_updated roster_updated = true
is_roster_updated _ = false

-- CHECK notifications_target_shape
abbrev pub has_target_shape : Notification → Bool
has_target_shape n = elim n.target_kind [ to_user ↦ is_ok n.discord_id | _ ↦ is_ok n.channel_id ]

-- The unique index on the pending ROSTER_UPDATED rows of an event.
abbrev is_pending_redraw : ℕ → NotificationRow → Bool
is_pending_redraw event_id r =
    is_roster_updated r.notification.kind
    && r.notification.event_id == event_id
    && not (is_ok r.delivered_at)
    && not (is_ok r.claimed_at)

abbrev pub with_notification : Notification → Db → Db
with_notification n db = record db {
  notifications =
      db.notifications
      ++ record {
        id = db.next_id;
        notification = n;
        created_at = db.now;
        delivered_at = none;
        claimed_at = none;
      }
        ∷ [];
  next_id = suc db.next_id;
}

unfoldable pub insert_notification : Notification → Db → Reply Db
unfolding has_event
insert_notification n db =
    if not (has_target_shape n)
    then lost check_violation
    else if not (has_event n.event_id db)
    then lost foreign_key_violation
    else if is_roster_updated n.kind && any_by (is_pending_redraw n.event_id) db.notifications
    then done db
    else done (with_notification n db)

unfoldable pub get_notification : ℕ → Db → Reply NotificationRow
get_notification id db = elim (find_by (λ r. r.id == id) db.notifications) [
  | none ↦ lost no_rows
  | some r ↦ done r
]

-- sqlc.narg(guild_id) IS NULL OR discord_guild_id = guild_id
abbrev pub of_guild : Option ℕ → NotificationRow → Bool
of_guild none r = true
of_guild (some guild) r = r.notification.discord_guild_id == guild

abbrev pub is_ack_of : ℕ → Option ℕ → NotificationRow → Bool
is_ack_of id guild r = r.id == id && of_guild guild r

-- The Boolean is whether a row was updated.
unfoldable pub mark_notification_delivered : ℕ → Option ℕ → Db → Bool × Db
mark_notification_delivered id guild db = (
  any_by (is_ack_of id guild) db.notifications,
  record db {
    notifications =
        update_by (is_ack_of id guild) (λ r. record r { delivered_at = some db.now })
          db.notifications;
  },
)

-- claimed_at IS NULL OR claimed_at < claimed_before
abbrev pub lease_over : ℕ → Option ℕ → Bool
lease_over claimed_before none = true
lease_over claimed_before (some t) = ltb t claimed_before

abbrev pub is_claimable : Option ℕ → ℕ → NotificationRow → Bool
is_claimable guild claimed_before r =
    not (is_ok r.delivered_at) && lease_over claimed_before r.claimed_at && of_guild guild r

unfoldable pub take {ℓ} : {A : Type ℓ} → ℕ → List A → List A
take zero xs = []
take (suc n) [] = []
take (suc n) (x ∷ xs) = x ∷ take n xs

-- The rows of the inner SELECT, by created_at.
unfoldable pub claimed_rows : Option ℕ → ℕ → ℕ → Db → List NotificationRow
unfolding take
claimed_rows guild claimed_before row_limit db = take row_limit (
    sort_by (λ a b. ltb a.created_at b.created_at)
      (filter_by (is_claimable guild claimed_before) db.notifications))

abbrev pub stamp : ℕ → NotificationRow → NotificationRow
stamp now r = record r { claimed_at = some now }

unfoldable pub claim_notifications : Option ℕ → ℕ → ℕ → Db → List NotificationRow × Db
unfolding claimed_rows
claim_notifications guild claimed_before row_limit db =
    let rows = claimed_rows guild claimed_before row_limit db in
    (
      map (stamp db.now) rows,
      record db {
        notifications =
            update_by (λ r. any_by (λ c. c.id == r.id) rows) (stamp db.now) db.notifications;
      },
    )

unfoldable pub list_raid_lead_roles : ℕ → Db → List ℕ
list_raid_lead_roles guild db =
    sort_by ltb (
      map (λ r. r.discord_role_id)
        (filter_by (λ r. r.discord_guild_id == guild) db.raid_lead_roles))
