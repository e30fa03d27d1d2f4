-- ===== src/Signup/Write.antt =====
-- Signups.Write and Signups.Withdraw of internal/signup/signup.go.
pub mod Laws
pub mod Withdraw
pub mod Effect
use Prim.Native.String.{String}
use raider_mate_service.Prelude.{ℕ, Bool, true, false, Option, none, some, List, if◌then◌else◌}
use raider_mate_service.Signup.Types.{
  SignupStatus, late, Event, Signup, SignupWrite, Outcome, ok, err, Error, event_started,
  status_requires_raid_lead, signup_not_yours, attempt, loading_event, writing_signup,
  withdrawing_signup,
}
use raider_mate_service.Signup.Policy.{
  allowed_statuses, contains, status_eq, has_started, check_deadline,
}
use raider_mate_service.Signup.Store.{SignupStore, transact}
use raider_mate_service.Signup.Notify.{notify_signup_changed, notify_comp_slots_dropped}

-- in.LateUntil = nil, but for LATE.
abbrev pub keep_late_until : SignupWrite → SignupWrite
keep_late_until w = record w { late_until = if status_eq w.status late then w.late_until else none }

unfoldable pub refusal : Bool → Bool → Error
refusal owned started =
    if started then event_started else if owned then status_requires_raid_lead else signup_not_yours

module _ {S : Type 0} (store : SignupStore S) where
  -- Both notifications, in the order of the source.
  unfoldable pub notify_all : Event → ℕ → Option SignupStatus → List String → S → Outcome S
  unfolding notify_signup_changed notify_comp_slots_dropped
  notify_all event character_id status dropped s = elim (notify_signup_changed store event s) [
    | err e ↦ err e
    | ok s' ↦ notify_comp_slots_dropped store event character_id status dropped s'
  ]

  -- The transaction of Write.
  unfoldable pub write_signup : Event → SignupWrite → S → Outcome (Signup × S)
  unfolding notify_all
  write_signup event w s = elim (attempt writing_signup (store.upsert_signup w s)) [
    | err e ↦ err e
    | ok ((written, dropped), s₁) ↦
        elim (notify_all event w.character_id (some w.status) dropped s₁) [
          | err e ↦ err e
          | ok s₂ ↦ ok (written, s₂)
        ]
  ]

  -- The clock is read twice: `now` decides whether the raid has begun, `later` the deadline.
  unfoldable pub write : ℕ → ℕ → SignupWrite → Bool → Bool → S → Outcome Signup × S
  unfolding allowed_statuses contains has_started check_deadline refusal write_signup transact
  write now later w owned is_raid_lead s =
      elim (attempt loading_event (store.get_event w.event_id s)) [
        | err e ↦ (err e, s)
        | ok event ↦
            elim (contains (allowed_statuses owned is_raid_lead (has_started event now)) w.status) [
              | false ↦ (err (refusal owned (has_started event now)), s)
              | true ↦ elim (check_deadline event (some w.status) is_raid_lead later) [
                | some e ↦ (err e, s)
                | none ↦ transact store (write_signup event (keep_late_until w)) s
              ]
            ]
      ]

  -- The transaction of Withdraw.
  unfoldable pub withdraw_signup : Event → ℕ → ℕ → S → Outcome (Unit × S)
  unfolding notify_all
  withdraw_signup event event_id character_id s =
      elim (attempt withdrawing_signup (store.delete_signup event_id character_id s)) [
        | err e ↦ err e
        | ok (dropped, s₁) ↦ elim (notify_all event character_id none dropped s₁) [
          | err e ↦ err e
          | ok s₂ ↦ ok (tt, s₂)
        ]
      ]

  unfoldable pub withdraw : ℕ → ℕ → ℕ → ℕ → Bool → S → Outcome Unit × S
  unfolding has_started check_deadline withdraw_signup transact
  withdraw now later event_id character_id is_raid_lead s =
      elim (attempt loading_event (store.get_event event_id s)) [
        | err e ↦ (err e, s)
        | ok event ↦ elim (has_started event now) [
          | true ↦ (err event_started, s)
          | false ↦ elim (check_deadline event none is_raid_lead later) [
            | some e ↦ (err e, s)
            | none ↦ transact store (withdraw_signup event event_id character_id) s
          ]
        ]
      ]
