-- ===== src/Signup/Late/Laws.antt =====
-- What the queue of late requests does: all or nothing, before the start only, and each request
-- decided once.
pub mod Clicks
use raider_mate_service.Prelude.{
  ◌⊎◌, ℕ, ◌≡◌, refl, sym, ◌∙◌, ap, Bool, true, false, none, some, arith, Bool-cases, Option-cases,
  inl, inr,
}
use raider_mate_service.Signup.Types.{
  Event, SignupWrite, LateRequest, LateRequestWrite, done, Outcome, ok, err, Error, signups_closed,
  attempt, loading_event, filing_late_request, loading_late_request, loading_raid_lead_roles,
  writing_late_request, event_started,
}
use raider_mate_service.Signup.Policy.{has_started, allowed_statuses, contains}
use raider_mate_service.Signup.Policy.Laws.{closed_before_start}
use raider_mate_service.Signup.Store.{SignupStore, transact}
use raider_mate_service.Signup.Store.Laws.{
  Outcome-cases, transact-err, transact-ok, transact_fails, attempt-ok, attempt-err, is_failed,
}
use raider_mate_service.Signup.Write.{write, refusal}
use raider_mate_service.Signup.Write.Laws.{write-refused}
use raider_mate_service.Signup.Late.{
  is_pending, filed_notice, notify_filed, file_request, file, approve_signup, approve_request,
  approve,
}

module _ {S : Type 0} (store : SignupStore S) (now : ℕ) where
  -- A filing that fails leaves no request behind, whether or not its notification was the reason.
  pub file-err :
      (w : LateRequestWrite) (s : S) (e : Error)
      → (file store now w s).0 ≡ err e
      → (file store now w s).1 ≡ s
  unfolding file
  file-err w s e h = transact-err store (file_request store now w) s e h

  -- An approval that fails writes no signup and decides nothing.
  pub approve-err :
      (id : ℕ) (s : S) (e : Error)
      → (approve store now id s).0 ≡ err e
      → (approve store now id s).1 ≡ s
  unfolding approve
  approve-err id s e h = transact-err store (approve_request store now id) s e h

  approve_pending :
      (id : ℕ) (s : S) (r : LateRequest) (event : Event)
      → attempt loading_late_request (store.get_late_request id s) ≡ ok r
      → is_pending r.state ≡ true
      → attempt loading_event (store.get_event r.event_id s) ≡ ok event
      → has_started event now ≡ false
      → approve_request store now id s ≡ approve_signup store event r id s
  unfolding approve_request
  approve_pending id s r event g p v t = rw (approve_request, g, p, v, t) refl

  -- An approval that succeeds was of a pending request for an event that had not begun.
  pub approve-ok :
      (id : ℕ) (s : S)
      → (approve store now id s).0 ≡ ok tt
      → (r : LateRequest) × (event : Event) × (store.get_late_request id s ≡ done r)
        × (is_pending r.state ≡ true)
        × (store.get_event r.event_id s ≡ done event)
        × (has_started event now ≡ false)
        × (approve_signup store event r id s ≡ ok (tt, (approve store now id s).1))
  unfolding approve approve_request
  approve-ok id s h =
      let run : approve_request store now id s ≡ ok (tt, (approve store now id s).1) =
        transact-ok store (approve_request store now id) s tt h in
      elim (Outcome-cases (attempt loading_late_request (store.get_late_request id s))) [
        | inr (e, g) ↦ absurd (ground (arith, g, run))
        | inl (r, g) ↦ elim (Bool-cases (is_pending r.state)) [
          | inr p ↦ absurd (ground (arith, g, p, run))
          | inl p ↦ elim (Outcome-cases (attempt loading_event (store.get_event r.event_id s))) [
            | inr (e, v) ↦ absurd (ground (arith, g, p, v, run))
            | inl (event, v) ↦ elim (Bool-cases (has_started event now)) [
              | inl t ↦ absurd (ground (arith, g, p, v, t, run))
              | inr t ↦ (
                r,
                event,
                attempt-ok _ _ _ g,
                p,
                attempt-ok _ _ _ v,
                t,
                sym (approve_pending id s r event g p v t) ∙ run,
              )
            ]
          ]
        ]
      ]

  notify_filed_fails :
      (event : Event) (w : LateRequestWrite) (s : S) (e : Error)
      → notify_filed store event w s ≡ err e
      → is_failed e ≡ true
  unfolding notify_filed
  notify_filed_fails event w s e h = elim (Option-cases event.channel_id) [
    | inl c ↦ absurd (ground (arith, c, h))
    | inr (channel, c) ↦
        elim (Outcome-cases
          (attempt loading_raid_lead_roles (store.raid_lead_role_ids event.discord_guild_id s))) [
            | inr (f, r) ↦
                attempt-err loading_raid_lead_roles
                  (store.raid_lead_role_ids event.discord_guild_id s) e (ground (arith, c, r, h))
            | inl (roles, r) ↦
                attempt-err writing_late_request
                  (store.insert_notification (filed_notice event channel roles w) s) e
                  (ground (arith, c, r, h))
          ]
  ]

  -- Filing fails in the database only, while the event has not begun.
  file_request_fails :
      (w : LateRequestWrite) (s : S) (event : Event)
      → store.get_event w.event_id s ≡ done event
      → has_started event now ≡ false
      → (e : Error) → file_request store now w s ≡ err e
      → is_failed e ≡ true
  unfolding file_request
  file_request_fails w s event v t e h =
      elim (Outcome-cases (attempt filing_late_request (store.upsert_late_request w s))) [
        | inr (f, u) ↦
            attempt-err filing_late_request (store.upsert_late_request w s) e
              (ground (arith, v, t, u, h))
        | inl ((filed, s₁), u) ↦ elim (Outcome-cases (notify_filed store event w s₁)) [
          | inr (f, n) ↦ notify_filed_fails event w s₁ e (ground (arith, v, t, u, n, h))
          | inl (s₂, n) ↦ absurd (ground (arith, v, t, u, n, h))
        ]
      ]

  -- Where Write answers that the signups are closed, filing the same write as a late request at that
  -- time succeeds or fails in the database: it is not refused because the event has started.
  pub file_after_closed :
      (later : ℕ) (w : SignupWrite) (owned is_raid_lead : Bool) (s : S)
      → (write store now later w owned is_raid_lead s).0 ≡ err signups_closed
      → (request : LateRequestWrite) → request.event_id ≡ w.event_id
      → ((r : LateRequest) × ((file store now request s).0 ≡ ok r))
        ⊎ ((e : Error) × ((file store now request s).0 ≡ err e) × (is_failed e ≡ true))
  unfolding file refusal
  file_after_closed later w owned is_raid_lead s h request same =
      let (event, v, why) =
        write-refused store now later w owned is_raid_lead s signups_closed h refl in
      let t : has_started event now ≡ false = elim why [
        | inl (c, told) ↦ absurd (ground (arith, told))
        | inr (c, d, told) ↦
            closed_before_start event owned is_raid_lead (has_started event now) w.status later c d
      ] in
      elim (Outcome-cases (file store now request s).0) [
        | inl (r, f) ↦ inl (r, f)
        | inr (e, f) ↦ inr (
          e,
          f,
          transact_fails store (file_request store now request) s
              (file_request_fails request s event (ap (λ id. store.get_event id s) same ∙ v) t) e f,
        )
      ]
