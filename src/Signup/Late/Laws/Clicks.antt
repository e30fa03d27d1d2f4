-- ===== src/Signup/Late/Laws/Clicks.antt =====
-- A sequence of decisions on one late request: Approve and Reject of internal/signup/late.go, one
-- after the other, in any order.
use Prim.Native.String.{String}
use raider_mate_service.Prelude.{
  ℕ, ◌+◌, ◌⊎◌, ◌≤◌, ◌≡◌, refl, ◌∙◌, ap, ap₂, false, Option, some, List, [], ◌∷◌, arith, Bool-cases,
  Option-cases, inl, inr,
}
use raider_mate_service.Signup.Types.{
  SignupStatus, Signup, SignupWrite, Event, LateRequest, RequestState, approved, rejected,
  Notification, done, Outcome, ok, err, Error, attempt, loading_late_request, marking_rejected,
  marking_approved, writing_approved_signup, request_decided, writing_signup_changed,
  loading_raid_lead_roles, writing_comp_slot_dropped,
}
use raider_mate_service.Signup.Store.{SignupStore}
use raider_mate_service.Signup.Store.Laws.{Outcome-cases, attempt-ok}
use raider_mate_service.Signup.Notify.{
  changed_notice, dropped_notice, notify_signup_changed, notify_comp_slots_dropped,
}
use raider_mate_service.Signup.Write.{notify_all}
use raider_mate_service.Signup.Late.{is_pending, approved_write, approve_signup, approve, reject}
use raider_mate_service.Signup.Late.Laws.{approve-ok, approve-err}

-- What the queue needs of a store: a decision on a request that exists is read back, and neither a
-- notification nor a signup is a decision.
pub record KeepsDecisions {S : Type 0} (store : SignupStore S) : Type 0 where
  pub decided :
      (id : ℕ) (state : RequestState) (filed : LateRequest) (s s' : S)
      → store.get_late_request id s ≡ done filed
      → store.decide_late_request id state s ≡ done s'
      → (r : LateRequest) × (store.get_late_request id s' ≡ done r) × (r.state ≡ state)
  pub kept :
      (n : Notification) (id : ℕ) (s s' : S)
      → store.insert_notification n s ≡ done s'
      → store.get_late_request id s' ≡ store.get_late_request id s
  pub written :
      (w : SignupWrite) (id : ℕ) (row : Signup × List String) (s s' : S)
      → store.upsert_signup w s ≡ done (row, s')
      → store.get_late_request id s' ≡ store.get_late_request id s

pub data Decision : Type 0 where
  approve_at : ℕ → Decision
  reject_now : Decision

abbrev pub decide : {S : Type 0} → SignupStore S → ℕ → Decision → S → Outcome Unit × S
decide store id (approve_at now) s = approve store now id s
decide store id reject_now s = reject store id s

abbrev is_accepted : Outcome Unit → ℕ
is_accepted (ok _) = 1
is_accepted (err _) = 0

-- How many of the decisions are accepted.
unfoldable pub accepted : {S : Type 0} → SignupStore S → ℕ → List Decision → S → ℕ
accepted store id [] s = 0
accepted store id (d ∷ decisions) s =
    is_accepted (decide store id d s).0 + accepted store id decisions (decide store id d s).1

module _ {S : Type 0} (store : SignupStore S) (laws : KeepsDecisions store) (id : ℕ) where
  abbrev IsDecided : S → Type 0
  IsDecided s =
      (r : LateRequest) × (store.get_late_request id s ≡ done r) × (is_pending r.state ≡ false)

  notify_signup_changed-get :
      (event : Event) (s s' : S)
      → notify_signup_changed store event s ≡ ok s'
      → store.get_late_request id s' ≡ store.get_late_request id s
  unfolding notify_signup_changed
  notify_signup_changed-get event s s' h = elim (Option-cases event.channel_id) [
    | inl c ↦ ap (store.get_late_request id) (ground (arith, c, h))
    | inr (channel, c) ↦ elim (Option-cases event.message_id) [
      | inl m ↦ ap (store.get_late_request id) (ground (arith, c, m, h))
      | inr (message, m) ↦
          laws.kept (changed_notice event channel) id s s'
            (attempt-ok writing_signup_changed _ _ (ground (arith, c, m, h)))
    ]
  ]

  notify_comp_slots_dropped-get :
      (event : Event) (c : ℕ) (status : Option SignupStatus) (dropped : List String) (s s' : S)
      → notify_comp_slots_dropped store event c status dropped s ≡ ok s'
      → store.get_late_request id s' ≡ store.get_late_request id s
  unfolding notify_comp_slots_dropped
  notify_comp_slots_dropped-get event k status [] s s' h =
      ap (store.get_late_request id) (ground (arith, h))
  notify_comp_slots_dropped-get event k status (d ∷ dropped) s s' h =
      elim (Option-cases event.channel_id) [
        | inl c ↦ ap (store.get_late_request id) (ground (arith, c, h))
        | inr (channel, c) ↦
            elim (Outcome-cases (
              attempt loading_raid_lead_roles
                (store.raid_lead_role_ids event.discord_guild_id s))) [
                  | inr (f, r) ↦ absurd (ground (arith, c, r, h))
                  | inl (roles, r) ↦
                      laws.kept (dropped_notice event channel roles k status (d ∷ dropped)) id s s'
                        (attempt-ok writing_comp_slot_dropped _ _ (ground (arith, c, r, h)))
                ]
      ]

  notify_all-get :
      (event : Event) (c : ℕ) (status : Option SignupStatus) (dropped : List String) (s s' : S)
      → notify_all store event c status dropped s ≡ ok s'
      → store.get_late_request id s' ≡ store.get_late_request id s
  unfolding notify_all
  notify_all-get event c status dropped s s' h =
      elim (Outcome-cases (notify_signup_changed store event s)) [
        | inr (f, n) ↦ absurd (ground (arith, n, h))
        | inl (s₁, n) ↦
            notify_comp_slots_dropped-get event c status dropped s₁ s' (ground (arith, n, h))
            ∙ notify_signup_changed-get event s s₁ n
      ]

  approve_signup-IsDecided :
      (event : Event) (r : LateRequest) (s s' : S)
      → store.get_late_request id s ≡ done r
      → approve_signup store event r id s ≡ ok (tt, s')
      → IsDecided s'
  unfolding approve_signup
  approve_signup-IsDecided event r s s' there h =
      elim (Outcome-cases
        (attempt writing_approved_signup (store.upsert_signup (approved_write r) s))) [
          | inr (f, u) ↦ absurd (ground (arith, u, h))
          | inl (((signup, dropped), s₁), u) ↦
              elim (Outcome-cases
                (attempt marking_approved (store.decide_late_request id approved s₁))) [
                  | inr (f, d) ↦ absurd (ground (arith, u, d, h))
                  | inl (s₂, d) ↦
                      let still =
                        laws.written (approved_write r) id (signup, dropped) s s₁
                          (attempt-ok writing_approved_signup _ _ u)
                        ∙ there in
                      let (after, got, is) =
                        laws.decided id approved r s₁ s₂ still
                          (attempt-ok marking_approved _ _ d) in
                      let same : store.get_late_request id s' ≡ store.get_late_request id s₂ =
                        elim (Outcome-cases
                          (notify_all store event r.character_id (some r.status) dropped s₂)) [
                            | inr (f, n) ↦ absurd (ground (arith, u, d, n, h))
                            | inl (s₃, n) ↦
                                notify_all-get event r.character_id (some r.status) dropped s₂ s'
                                  (ground (arith, u, d, n, h))
                          ] in
                      (after, same ∙ got, rw is refl)
                ]
        ]

  -- A decision is refused and changes nothing, or it is accepted and the request is decided.
  decide_cases :
      (d : Decision) (s : S)
      → ((e : Error) × (decide store id d s ≡ (err e, s)))
        ⊎ (((decide store id d s).0 ≡ ok tt) × IsDecided (decide store id d s).1)
  unfolding reject
  decide_cases (approve_at now) s = elim (Outcome-cases (approve store now id s).0) [
    | inr (e, h) ↦ inl (e, ap₂ (λ o t. (o, t)) h (approve-err store now id s e h))
    | inl (x, h) ↦
        let (r, event, got, p, v, t, run) = approve-ok store now id s h in
        inr (h, approve_signup-IsDecided event r s _ got run)
  ]
  decide_cases reject_now s =
      elim (Outcome-cases (attempt loading_late_request (store.get_late_request id s))) [
        | inr (e, g) ↦ inl (e, rw (reject, g) refl)
        | inl (r, g) ↦ elim (Bool-cases (is_pending r.state)) [
          | inr p ↦ inl (request_decided, rw (reject, g, p) refl)
          | inl p ↦
              elim (Outcome-cases
                (attempt marking_rejected (store.decide_late_request id rejected s))) [
                  | inr (e, d) ↦ inl (e, rw (reject, g, p, d) refl)
                  | inl (s', d) ↦
                      let (after, got, is) =
                        laws.decided id rejected r s s' (attempt-ok loading_late_request _ _ g)
                          (attempt-ok marking_rejected _ _ d) in
                      inr (rw (reject, g, p, d) refl, rw (reject, g, p, d) (after, got, rw is refl))
                ]
        ]
      ]

  -- Once a request is decided, no decision on it is accepted.
  decide_decided :
      (d : Decision) (s : S) → IsDecided s → (e : Error) × (decide store id d s ≡ (err e, s))
  unfolding reject
  decide_decided (approve_at now) s (r, got, decided) =
      elim (Outcome-cases (approve store now id s).0) [
        | inr (e, h) ↦ (e, ap₂ (λ o t. (o, t)) h (approve-err store now id s e h))
        | inl (x, h) ↦
            let (r', event, got', p, v, t, run) = approve-ok store now id s h in
            absurd (ground (arith, got, got', p, decided))
      ]
  decide_decided reject_now s (r, got, decided) = (request_decided, rw (reject, got, decided) refl)

  accepted_decided :
      (decisions : List Decision) (s : S) → IsDecided s → accepted store id decisions s ≡ 0
  unfolding accepted
  accepted_decided [] s h = refl
  accepted_decided (d ∷ decisions) s h =
      let (e, same) = decide_decided d s h in
      rw (accepted, same) (omega (arith, accepted_decided decisions s h))

  -- Of any sequence of approvals and rejections of a late request, each run to its end before the
  -- next begins, at most one is accepted, if the store keeps decisions.
  pub accepted_once : (decisions : List Decision) (s : S) → accepted store id decisions s ≤ 1
  unfolding accepted
  accepted_once [] s = omega arith
  accepted_once (d ∷ decisions) s = elim (decide_cases d s) [
    | inl (e, same) ↦ rw (accepted, same) (omega (arith, accepted_once decisions s))
    | inr (h, after) ↦ rw (accepted, h, accepted_decided decisions _ after) (omega arith)
  ]
