-- ===== src/Signup/Write/Laws.antt =====
-- What Write and Withdraw do, whatever the store.
use Prim.Native.String.{String}
use raider_mate_service.Prelude.{
  ℕ, ◌≡◌, refl, sym, ap, subst, ◌∙◌, Bool, true, false, Option, none, some, arith, List, ◌⊎◌,
  Bool-cases, inl, inr,
}
use raider_mate_service.Signup.Types.{
  Event, Signup, SignupWrite, done, ok, err, Error, signups_closed, event_started,
  status_requires_raid_lead, signup_not_yours, SignupStatus, attempt, loading_event, writing_signup,
}
use raider_mate_service.Signup.Policy.{allowed_statuses, contains, has_started, check_deadline}
use raider_mate_service.Signup.Policy.Laws.{check_deadline-some}
use raider_mate_service.Signup.Store.{SignupStore, transact}
use raider_mate_service.Signup.Store.Laws.{
  Outcome-cases, transact-err, transact-ok, attempt-ok, attempt-err, is_failed, transact_fails,
}
use raider_mate_service.Signup.Notify.{notify_signup_changed}
use raider_mate_service.Signup.Notify.Laws.{
  notify_signup_changed_fails, notify_comp_slots_dropped_fails,
}
use raider_mate_service.Signup.Write.{notify_all, refusal, keep_late_until, write_signup, write}

-- What a caller is told: after the start that it has started, and before it whose status it is.
abbrev pub told_refusal : Bool → Bool → Error
told_refusal owned true = event_started
told_refusal true false = status_requires_raid_lead
told_refusal false false = signup_not_yours

module _ {S : Type 0} (store : SignupStore S) (now later : ℕ) where
  write_allowed :
      (w : SignupWrite) (owned is_raid_lead : Bool) (s : S) (event : Event)
      → attempt loading_event (store.get_event w.event_id s) ≡ ok event
      → contains (allowed_statuses owned is_raid_lead (has_started event now)) w.status ≡ true
      → check_deadline event (some w.status) is_raid_lead later ≡ none
      → write store now later w owned is_raid_lead s
        ≡ transact store (write_signup store event (keep_late_until w)) s
  unfolding write
  write_allowed w owned is_raid_lead s event g c d = rw (write, g, c, d) refl

  -- A write that fails, for whatever reason, changes nothing.
  pub write-err :
      (w : SignupWrite) (owned is_raid_lead : Bool) (s : S) (e : Error)
      → (write store now later w owned is_raid_lead s).0 ≡ err e
      → (write store now later w owned is_raid_lead s).1 ≡ s
  unfolding write
  write-err w owned is_raid_lead s e h =
      elim (Outcome-cases (attempt loading_event (store.get_event w.event_id s))) [
        | inr (f, g) ↦ rw (write, g) refl
        | inl (event, g) ↦
            elim (Bool-cases
              (contains (allowed_statuses owned is_raid_lead (has_started event now)) w.status)) [
                | inr c ↦ rw (write, g, c) refl
                | inl c ↦ elim (check_deadline-some event (some w.status) is_raid_lead later) [
                  | inr d ↦ rw (write, g, c, d) refl
                  | inl d ↦
                      let run = write_allowed w owned is_raid_lead s event g c d in
                      ap (λ o. o.1) run
                      ∙ transact-err store (write_signup store event (keep_late_until w)) s e
                          (sym (ap (λ o. o.0) run) ∙ h)
                ]
              ]
      ]

  -- What a write that succeeds has gone through.
  pub write-ok :
      (w : SignupWrite) (owned is_raid_lead : Bool) (s : S) (signup : Signup)
      → (write store now later w owned is_raid_lead s).0 ≡ ok signup
      → (event : Event) × (store.get_event w.event_id s ≡ done event)
        × (contains (allowed_statuses owned is_raid_lead (has_started event now)) w.status ≡ true)
        × (check_deadline event (some w.status) is_raid_lead later ≡ none)
        × (write_signup store event (keep_late_until w) s
            ≡ ok (signup, (write store now later w owned is_raid_lead s).1))
  unfolding write
  write-ok w owned is_raid_lead s signup h =
      elim (Outcome-cases (attempt loading_event (store.get_event w.event_id s))) [
        | inr (f, g) ↦ absurd (ground (arith, g, h))
        | inl (event, g) ↦
            elim (Bool-cases
              (contains (allowed_statuses owned is_raid_lead (has_started event now)) w.status)) [
                | inr c ↦ absurd (ground (arith, g, c, h))
                | inl c ↦ elim (check_deadline-some event (some w.status) is_raid_lead later) [
                  | inr d ↦ absurd (ground (arith, g, c, d, h))
                  | inl d ↦
                      let run = write_allowed w owned is_raid_lead s event g c d in
                      (
                        event,
                        attempt-ok _ _ _ g,
                        c,
                        d,
                        subst
                            (λ o. write_signup store event (keep_late_until w) s ≡ ok (signup, o.1))
                            (sym run)
                            (transact-ok store (write_signup store event (keep_late_until w)) s
                              signup (sym (ap (λ o. o.0) run) ∙ h)),
                      )
                ]
              ]
      ]

  notify_all_fails :
      (event : Event) (id : ℕ) (status : Option SignupStatus) (dropped : List String) (s : S)
      (e : Error)
      → notify_all store event id status dropped s ≡ err e
      → is_failed e ≡ true
  unfolding notify_all
  notify_all_fails event id status dropped s e h =
      elim (Outcome-cases (notify_signup_changed store event s)) [
        | inr (f, n) ↦ notify_signup_changed_fails store event s e (ground (arith, n, h))
        | inl (s', n) ↦
            notify_comp_slots_dropped_fails store event id status dropped s' e
              (ground (arith, n, h))
      ]

  write_signup_fails :
      (event : Event) (w : SignupWrite) (s : S) (e : Error)
      → write_signup store event w s ≡ err e
      → is_failed e ≡ true
  unfolding write_signup
  write_signup_fails event w s e h =
      elim (Outcome-cases (attempt writing_signup (store.upsert_signup w s))) [
        | inr (f, u) ↦ attempt-err writing_signup (store.upsert_signup w s) e (ground (arith, u, h))
        | inl (((written, dropped), s₁), u) ↦
            elim (Outcome-cases
              (notify_all store event w.character_id (some w.status) dropped s₁)) [
                | inr (f, n) ↦
                    notify_all_fails event w.character_id (some w.status) dropped s₁ e
                      (ground (arith, u, n, h))
                | inl (s₂, n) ↦ absurd (ground (arith, u, n, h))
              ]
      ]

  -- A write that is refused, other than by a failing database, is refused for a reason that holds:
  -- the status is not allowed, which is told as the start, as the raid lead's or as the raider's
  -- own; or the status is allowed and the gate is closed.
  pub write-refused :
      (w : SignupWrite) (owned is_raid_lead : Bool) (s : S) (e : Error)
      → (write store now later w owned is_raid_lead s).0 ≡ err e
      → is_failed e ≡ false
      → (event : Event) × (store.get_event w.event_id s ≡ done event)
        × (((contains (allowed_statuses owned is_raid_lead (has_started event now)) w.status
                ≡ false)
              × (e ≡ told_refusal owned (has_started event now)))
            ⊎ ((contains (allowed_statuses owned is_raid_lead (has_started event now)) w.status
                  ≡ true)
                × (check_deadline event (some w.status) is_raid_lead later ≡ some signups_closed)
                × (e ≡ signups_closed)))
  unfolding write refusal
  write-refused w owned is_raid_lead s e h n =
      elim (Outcome-cases (attempt loading_event (store.get_event w.event_id s))) [
        | inr (f, g) ↦
            absurd (
              ground (arith, attempt-err loading_event (store.get_event w.event_id s) f g, g, h, n))
        | inl (event, g) ↦ (
          event,
          attempt-ok _ _ _ g,
          elim (Bool-cases
              (contains (allowed_statuses owned is_raid_lead (has_started event now)) w.status)) [
                | inr c ↦ inl (c, ground (arith, g, c, h))
                | inl c ↦ elim (check_deadline-some event (some w.status) is_raid_lead later) [
                  | inr d ↦ inr (c, d, ground (arith, g, c, d, h))
                  | inl d ↦
                      let run = write_allowed w owned is_raid_lead s event g c d in
                      let fails =
                        transact_fails store (write_signup store event (keep_late_until w)) s
                          (write_signup_fails event (keep_late_until w) s) e
                          (sym (ap (λ o. o.0) run) ∙ h) in
                      absurd (ground (arith, fails, n))
                ]
              ],
        )
      ]
