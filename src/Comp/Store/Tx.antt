-- ===== src/Comp/Store/Tx.antt =====
-- queueRedraw and inTx of internal/comp/store.go, over the tables.
use raider_mate_service.Prelude.{ℕ, Option, none, some, []}
use raider_mate_service.Signup.Types.{
  Event, Notification, comp_changed, to_message, empty_object, Reply,
}
use raider_mate_service.Tables.{Db}
use raider_mate_service.Tables.Signups.{get_event}
use raider_mate_service.Tables.Notifications.{insert_notification}
use raider_mate_service.Comp.Store.{
  Answer, ok, and_then, wrap, of_reply, loading_event_to_redraw, queueing_comp_redraw, beginning_tx,
  committing_tx,
}

abbrev pub redraw_of : ℕ → Event → ℕ → Notification
redraw_of event_id event channel = record {
  discord_guild_id = event.discord_guild_id;
  event_id = event_id;
  kind = comp_changed;
  target_kind = to_message;
  discord_id = none;
  role_ids = [];
  discord_ids = [];
  channel_id = some channel;
  payload = empty_object;
}

abbrev pub insert_redraw : ℕ → Event → Option ℕ → Option ℕ → Db → Answer Db
insert_redraw event_id event (some channel) (some message) db =
    wrap queueing_comp_redraw (of_reply (insert_notification (redraw_of event_id event channel) db))
insert_redraw event_id event channel message db = ok db

unfoldable pub queue_redraw : ℕ → Db → Answer Db
queue_redraw event_id db =
    and_then (wrap loading_event_to_redraw (of_reply (get_event event_id db)))
      (λ event. insert_redraw event_id event event.channel_id event.message_id db)

-- Whether the connection can begin a transaction, and whether it can commit one.
pub record Connection : Type 0 where
  pub begin : Db → Reply Unit
  pub commit : Db → Reply Unit

-- The transaction of ReplaceComp and of inTx: `write`, then the redraw, then the commit. What an error
-- leaves behind is rolled back.
unfoldable pub in_tx : Connection → ℕ → (Db → Answer Db) → Db → Answer Db
unfolding queue_redraw
in_tx connection event_id write db =
    and_then (wrap beginning_tx (of_reply (connection.begin db))) (λ _.
      and_then (write db) (λ written. and_then (queue_redraw event_id written) (λ queued.
        and_then (wrap committing_tx (of_reply (connection.commit queued))) (λ _. ok queued))))
