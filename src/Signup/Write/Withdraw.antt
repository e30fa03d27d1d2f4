-- ===== src/Signup/Write/Withdraw.antt =====
-- What Withdraw does, whatever the store.
use raider_mate_service.Prelude.{
  ℕ, ◌≡◌, refl, sym, ◌∙◌, ap, subst, Bool, false, none, arith, Bool-cases, inl, inr,
}
use raider_mate_service.Signup.Types.{Event, done, ok, err, Error, attempt, loading_event}
use raider_mate_service.Signup.Policy.{has_started, check_deadline}
use raider_mate_service.Signup.Policy.Laws.{check_deadline-some}
use raider_mate_service.Signup.Store.{SignupStore, transact}
use raider_mate_service.Signup.Store.Laws.{Outcome-cases, transact-err, transact-ok, attempt-ok}
use raider_mate_service.Signup.Write.{withdraw_signup, withdraw}

module _ {S : Type 0} (store : SignupStore S) (now later event_id character_id : ℕ)
    (is_raid_lead : Bool) (s : S) where
  withdraw_allowed :
      (event : Event)
      → attempt loading_event (store.get_event event_id s) ≡ ok event
      → has_started event now ≡ false
      → check_deadline event none is_raid_lead later ≡ none
      → withdraw store now later event_id character_id is_raid_lead s
        ≡ transact store (withdraw_signup store event event_id character_id) s
  unfolding withdraw
  withdraw_allowed event g t d = rw (withdraw, g, t, d) refl

  -- A withdrawal that fails changes nothing.
  pub withdraw-err :
      (e : Error)
      → (withdraw store now later event_id character_id is_raid_lead s).0 ≡ err e
      → (withdraw store now later event_id character_id is_raid_lead s).1 ≡ s
  unfolding withdraw
  withdraw-err e h = elim (Outcome-cases (attempt loading_event (store.get_event event_id s))) [
    | inr (f, g) ↦ rw (withdraw, g) refl
    | inl (event, g) ↦ elim (Bool-cases (has_started event now)) [
      | inl t ↦ rw (withdraw, g, t) refl
      | inr t ↦ elim (check_deadline-some event none is_raid_lead later) [
        | inr d ↦ rw (withdraw, g, t, d) refl
        | inl d ↦
            let run = withdraw_allowed event g t d in
            ap (λ o. o.1) run
            ∙ transact-err store (withdraw_signup store event event_id character_id) s e
                (sym (ap (λ o. o.0) run) ∙ h)
      ]
    ]
  ]

  -- A withdrawal that succeeds came before the start, raid lead or not, and with the gate open. What
  -- it leaves is what its transaction did.
  pub withdraw-ok :
      (withdraw store now later event_id character_id is_raid_lead s).0 ≡ ok tt
      → (event : Event) × (store.get_event event_id s ≡ done event)
        × (has_started event now ≡ false)
        × (check_deadline event none is_raid_lead later ≡ none)
        × (withdraw_signup store event event_id character_id s
            ≡ ok (tt, (withdraw store now later event_id character_id is_raid_lead s).1))
  unfolding withdraw
  withdraw-ok h = elim (Outcome-cases (attempt loading_event (store.get_event event_id s))) [
    | inr (f, g) ↦ absurd (ground (arith, g, h))
    | inl (event, g) ↦ elim (Bool-cases (has_started event now)) [
      | inl t ↦ absurd (ground (arith, g, t, h))
      | inr t ↦ elim (check_deadline-some event none is_raid_lead later) [
        | inr d ↦ absurd (ground (arith, g, t, d, h))
        | inl d ↦
            let run = withdraw_allowed event g t d in
            (
              event,
              attempt-ok _ _ _ g,
              t,
              d,
              subst (λ o. withdraw_signup store event event_id character_id s ≡ ok (tt, o.1))
                  (sym run)
                  (transact-ok store (withdraw_signup store event event_id character_id) s tt
                    (sym (ap (λ o. o.0) run) ∙ h)),
            )
      ]
    ]
  ]
