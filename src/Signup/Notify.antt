-- ===== src/Signup/Notify.antt =====
-- notifySignupChanged and notifyCompSlotsDropped of internal/signup/signup.go. The warning that is
-- logged where an event has no channel is left out.
pub mod Laws
use Prim.Native.String.{String}
use raider_mate_service.Prelude.{ℕ, Option, none, some, List, [], ◌∷◌}
use raider_mate_service.Signup.Types.{
  SignupStatus, Event, Notification, signup_changed, comp_slot_dropped, to_message, to_role,
  empty_object, slots_dropped, Outcome, ok, err, attempt, writing_signup_changed,
  loading_raid_lead_roles, writing_comp_slot_dropped,
}
use raider_mate_service.Signup.Store.{SignupStore}

abbrev pub changed_notice : Event → ℕ → Notification
changed_notice event channel = record {
  discord_guild_id = event.discord_guild_id;
  event_id = event.id;
  kind = signup_changed;
  target_kind = to_message;
  discord_id = none;
  role_ids = [];
  discord_ids = [];
  channel_id = some channel;
  payload = empty_object;
}

abbrev pub dropped_notice :
    Event → ℕ → List ℕ → ℕ → Option SignupStatus → List String → Notification
dropped_notice event channel roles character_id status comps = record {
  discord_guild_id = event.discord_guild_id;
  event_id = event.id;
  kind = comp_slot_dropped;
  target_kind = to_role;
  discord_id = none;
  role_ids = roles;
  discord_ids = [];
  channel_id = some channel;
  payload = slots_dropped event.title character_id status comps;
}

module _ {S : Type 0} (store : SignupStore S) where
  unfoldable pub notify_signup_changed : Event → S → Outcome S
  notify_signup_changed event s = elim event.channel_id [
    | none ↦ ok s
    | some channel ↦ elim event.message_id [
      | none ↦ ok s
      | some _ ↦
          attempt writing_signup_changed
            (store.insert_notification (changed_notice event channel) s)
    ]
  ]

  unfoldable pub notify_comp_slots_dropped :
      Event → ℕ → Option SignupStatus → List String → S → Outcome S
  notify_comp_slots_dropped event character_id status [] s = ok s
  notify_comp_slots_dropped event character_id status (c ∷ comps) s = elim event.channel_id [
    | none ↦ ok s
    | some channel ↦
        elim (attempt loading_raid_lead_roles (store.raid_lead_role_ids event.discord_guild_id s)) [
          | err e ↦ err e
          | ok roles ↦ attempt writing_comp_slot_dropped (
              store.insert_notification
                (dropped_notice event channel roles character_id status (c ∷ comps)) s)
        ]
  ]
