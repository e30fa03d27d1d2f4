-- ===== src/Signup/Notify/Laws.antt =====
-- How the notifications can fail.
use Prim.Native.String.{String}
use raider_mate_service.Prelude.{ℕ, ◌≡◌, true, Option, List, [], ◌∷◌, arith, Option-cases, inl, inr}
use raider_mate_service.Signup.Types.{
  SignupStatus, Event, Error, err, attempt, writing_signup_changed, loading_raid_lead_roles,
  writing_comp_slot_dropped,
}
use raider_mate_service.Signup.Store.{SignupStore}
use raider_mate_service.Signup.Store.Laws.{Outcome-cases, attempt-err, is_failed}
use raider_mate_service.Signup.Notify.{
  changed_notice, dropped_notice, notify_signup_changed, notify_comp_slots_dropped,
}

module _ {S : Type 0} (store : SignupStore S) (event : Event) where
  pub notify_signup_changed_fails :
      (s : S) (e : Error) → notify_signup_changed store event s ≡ err e → is_failed e ≡ true
  unfolding notify_signup_changed
  notify_signup_changed_fails s e h = elim (Option-cases event.channel_id) [
    | inl c ↦ absurd (ground (arith, c, h))
    | inr (channel, c) ↦ elim (Option-cases event.message_id) [
      | inl m ↦ absurd (ground (arith, c, m, h))
      | inr (message, m) ↦
          attempt-err writing_signup_changed
            (store.insert_notification (changed_notice event channel) s) e (ground (arith, c, m, h))
    ]
  ]

  pub notify_comp_slots_dropped_fails :
      (id : ℕ) (status : Option SignupStatus) (dropped : List String) (s : S) (e : Error)
      → notify_comp_slots_dropped store event id status dropped s ≡ err e
      → is_failed e ≡ true
  unfolding notify_comp_slots_dropped
  notify_comp_slots_dropped_fails id status [] s e h = absurd (ground (arith, h))
  notify_comp_slots_dropped_fails id status (d ∷ dropped) s e h =
      elim (Option-cases event.channel_id) [
        | inl c ↦ absurd (ground (arith, c, h))
        | inr (channel, c) ↦
            elim (Outcome-cases (
              attempt loading_raid_lead_roles
                (store.raid_lead_role_ids event.discord_guild_id s))) [
                  | inr (f, r) ↦
                      attempt-err loading_raid_lead_roles
                        (store.raid_lead_role_ids event.discord_guild_id s) e
                        (ground (arith, c, r, h))
                  | inl (roles, r) ↦
                      attempt-err writing_comp_slot_dropped
                        (store.insert_notification
                          (dropped_notice event channel roles id status (d ∷ dropped)) s)
                        e (ground (arith, c, r, h))
                ]
      ]
