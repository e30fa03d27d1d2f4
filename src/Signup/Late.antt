-- ===== src/Signup/Late.antt =====
-- LateRequests.File, Approve and Reject of internal/signup/late.go. The warning that is logged where
-- an event has no channel is left out.
pub mod Laws
use raider_mate_service.Prelude.{ℕ, true, false, none, some, List, [], ◌∷◌, Bool}
use raider_mate_service.Signup.Types.{
  Event, SignupWrite, LateRequest, LateRequestWrite, RequestState, pending, approved, rejected,
  Notification, late_request_filed, to_role, request_filed, Outcome, ok, err, event_started,
  request_decided, attempt, loading_event, filing_late_request, loading_raid_lead_roles,
  writing_late_request, loading_late_request, writing_approved_signup, marking_approved,
  marking_rejected,
}
use raider_mate_service.Signup.Policy.{has_started}
use raider_mate_service.Signup.Store.{SignupStore, transact}
use raider_mate_service.Signup.Notify.{notify_signup_changed, notify_comp_slots_dropped}
use raider_mate_service.Signup.Write.{notify_all}

abbrev pub is_pending : RequestState → Bool
is_pending pending = true
is_pending _ = false

abbrev pub filed_notice : Event → ℕ → List ℕ → LateRequestWrite → Notification
filed_notice event channel roles w = record {
  discord_guild_id = event.discord_guild_id;
  event_id = event.id;
  kind = late_request_filed;
  target_kind = to_role;
  discord_id = none;
  role_ids = roles;
  discord_ids = [];
  channel_id = some channel;
  payload = request_filed event.title w.character_id w.status;
}

-- The signup that an approval writes; its late_until is the request's, whatever its status.
abbrev pub approved_write : LateRequest → SignupWrite
approved_write r = record {
  event_id = r.event_id;
  character_id = r.character_id;
  status = r.status;
  note = r.note;
  late_until = r.late_until;
}

module _ {S : Type 0} (store : SignupStore S) where
  unfoldable pub notify_filed : Event → LateRequestWrite → S → Outcome S
  notify_filed event w s = elim event.channel_id [
    | none ↦ ok s
    | some channel ↦
        elim (attempt loading_raid_lead_roles (store.raid_lead_role_ids event.discord_guild_id s)) [
          | err e ↦ err e
          | ok roles ↦
              attempt writing_late_request
                (store.insert_notification (filed_notice event channel roles w) s)
        ]
  ]

  unfoldable pub file_request : ℕ → LateRequestWrite → S → Outcome (LateRequest × S)
  unfolding has_started notify_filed
  file_request now w s = elim (attempt loading_event (store.get_event w.event_id s)) [
    | err e ↦ err e
    | ok event ↦ elim (has_started event now) [
      | true ↦ err event_started
      | false ↦ elim (attempt filing_late_request (store.upsert_late_request w s)) [
        | err e ↦ err e
        | ok (filed, s₁) ↦ elim (notify_filed event w s₁) [ err e ↦ err e | ok s₂ ↦ ok (filed, s₂) ]
      ]
    ]
  ]

  unfoldable pub file : ℕ → LateRequestWrite → S → Outcome LateRequest × S
  unfolding file_request transact
  file now w = transact store (file_request now w)

  -- From the write of the signup on; `notify_all` does nothing more for an empty `dropped`.
  unfoldable pub approve_signup : Event → LateRequest → ℕ → S → Outcome (Unit × S)
  unfolding notify_all
  approve_signup event r id s =
      elim (attempt writing_approved_signup (store.upsert_signup (approved_write r) s)) [
        | err e ↦ err e
        | ok ((_, dropped), s₁) ↦
            elim (attempt marking_approved (store.decide_late_request id approved s₁)) [
              | err e ↦ err e
              | ok s₂ ↦ elim (notify_all store event r.character_id (some r.status) dropped s₂) [
                | err e ↦ err e
                | ok s₃ ↦ ok (tt, s₃)
              ]
            ]
      ]

  unfoldable pub approve_request : ℕ → ℕ → S → Outcome (Unit × S)
  unfolding has_started approve_signup
  approve_request now id s = elim (attempt loading_late_request (store.get_late_request id s)) [
    | err e ↦ err e
    | ok r ↦ elim (is_pending r.state) [
      | false ↦ err request_decided
      | true ↦ elim (attempt loading_event (store.get_event r.event_id s)) [
        | err e ↦ err e
        | ok event ↦ elim (has_started event now) [
          | true ↦ err event_started
          | false ↦ approve_signup event r id s
        ]
      ]
    ]
  ]

  unfoldable pub approve : ℕ → ℕ → S → Outcome Unit × S
  unfolding approve_request transact
  approve now id = transact store (approve_request now id)

  -- No transaction here: the read and the write are two calls.
  unfoldable pub reject : ℕ → S → Outcome Unit × S
  reject id s = elim (attempt loading_late_request (store.get_late_request id s)) [
    | err e ↦ (err e, s)
    | ok r ↦ elim (is_pending r.state) [
      | false ↦ (err request_decided, s)
      | true ↦ elim (attempt marking_rejected (store.decide_late_request id rejected s)) [
        | err e ↦ (err e, s)
        | ok s' ↦ (ok tt, s')
      ]
    ]
  ]
