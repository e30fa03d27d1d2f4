-- ===== src/Signup/Write/Effect.antt =====
-- What a write that succeeds was allowed to do, and what it has stored and told whom, in terms of the
-- times of the event and of the calls of the store.
use Prim.Native.String.{String}
use raider_mate_service.Prelude.{
  ℕ, ◌≡◌, ◌≢◌, ◌⊎◌, refl, ap, ◌∙◌, Bool, Option, none, some, arith, List, [], ◌∷◌, Option-cases,
  inl, inr,
}
use raider_mate_service.Signup.Types.{
  SignupStatus, confirmed, tentative, declined, late, absent, no_show, Event, Signup, SignupWrite,
  done, ok, attempt, writing_signup, writing_signup_changed, loading_raid_lead_roles,
  writing_comp_slot_dropped,
}
use raider_mate_service.Signup.Policy.MayWrite.{MayWrite, MayWrite-iff}
use raider_mate_service.Signup.Store.{SignupStore}
use raider_mate_service.Signup.Store.Laws.{Outcome-cases, attempt-ok}
use raider_mate_service.Signup.Notify.{
  changed_notice, dropped_notice, notify_signup_changed, notify_comp_slots_dropped,
}
use raider_mate_service.Signup.Write.{notify_all, keep_late_until, write_signup, write}
use raider_mate_service.Signup.Write.Laws.{write-ok}

-- What is stored of a request: its time of arrival only where it says LATE.
abbrev pub IsStored : SignupWrite → SignupWrite → Type 0
IsStored w stored =
    ((w.status ≡ late) × (stored ≡ w))
    ⊎ ((w.status ≢ late) × (stored ≡ record w { late_until = none }))

kept :
    (w : SignupWrite) (status : SignupStatus) → w.status ≡ status → IsStored w (keep_late_until w)
kept w late h = inl (h, rw h refl)
kept w confirmed h = inr (λ same. ground (arith, same, h), rw h refl)
kept w tentative h = inr (λ same. ground (arith, same, h), rw h refl)
kept w declined h = inr (λ same. ground (arith, same, h), rw h refl)
kept w absent h = inr (λ same. ground (arith, same, h), rw h refl)
kept w no_show h = inr (λ same. ground (arith, same, h), rw h refl)

module _ {S : Type 0} (store : SignupStore S) (event : Event) where
  -- The redraw of the sheet, of an event that is posted.
  abbrev pub IsRedrawn : S → S → Type 0
  IsRedrawn s s' =
      (((event.channel_id ≡ none) ⊎ (event.message_id ≡ none)) × (s' ≡ s))
      ⊎ ((channel : ℕ) × (event.channel_id ≡ some channel)
          × (event.message_id ≢ none)
          × (store.insert_notification (changed_notice event channel) s ≡ done s'))

  -- The report to the raid leads, where comps have lost a seat and the event has a channel.
  abbrev pub IsReported : ℕ → Option SignupStatus → List String → S → S → Type 0
  IsReported character_id status dropped s s' =
      (((dropped ≡ []) ⊎ (event.channel_id ≡ none)) × (s' ≡ s))
      ⊎ ((channel : ℕ) × (roles : List ℕ) × (dropped ≢ [])
          × (event.channel_id ≡ some channel)
          × (store.raid_lead_role_ids event.discord_guild_id s ≡ done roles)
          × (store.insert_notification
                (dropped_notice event channel roles character_id status dropped) s
              ≡ done s'))

  redrawn : (s s' : S) → notify_signup_changed store event s ≡ ok s' → IsRedrawn s s'
  unfolding notify_signup_changed
  redrawn s s' h = elim (Option-cases event.channel_id) [
    | inl c ↦ inl (inl c, ground (arith, c, h))
    | inr (channel, c) ↦ elim (Option-cases event.message_id) [
      | inl m ↦ inl (inr m, ground (arith, c, m, h))
      | inr (message, m) ↦ inr (
        channel,
        c,
        λ n. ground (arith, m, n),
        attempt-ok writing_signup_changed _ s' (ground (arith, c, m, h)),
      )
    ]
  ]

  reported :
      (character_id : ℕ) (status : Option SignupStatus) (dropped : List String) (s s' : S)
      → notify_comp_slots_dropped store event character_id status dropped s ≡ ok s'
      → IsReported character_id status dropped s s'
  unfolding notify_comp_slots_dropped
  reported character_id status [] s s' h = inl (inl refl, ground (arith, h))
  reported character_id status (x ∷ xs) s s' h = elim (Option-cases event.channel_id) [
    | inl c ↦ inl (inr c, ground (arith, c, h))
    | inr (channel, c) ↦
        elim (Outcome-cases
          (attempt loading_raid_lead_roles (store.raid_lead_role_ids event.discord_guild_id s))) [
            | inr (e, r) ↦ absurd (ground (arith, c, r, h))
            | inl (roles, r) ↦ inr (
              channel,
              roles,
              λ n. ground (arith, n),
              c,
              attempt-ok loading_raid_lead_roles _ roles r,
              attempt-ok writing_comp_slot_dropped _ s' (ground (arith, c, r, h)),
            )
          ]
  ]

  -- The upsert, the redraw and the report, in this order.
  abbrev pub IsWritten : SignupWrite → S → Signup → S → Type 0
  IsWritten w s signup s' =
      (stored : SignupWrite) × (dropped : List String) × (s₁ : S) × (s₂ : S) × IsStored w stored
      × (store.upsert_signup stored s ≡ done ((signup, dropped), s₁))
      × IsRedrawn s₁ s₂
      × IsReported w.character_id (some w.status) dropped s₂ s'

  written :
      (w : SignupWrite) (s s' : S) (signup : Signup)
      → write_signup store event (keep_late_until w) s ≡ ok (signup, s')
      → IsWritten w s signup s'
  unfolding write_signup notify_all
  written w s s' signup h =
      elim (Outcome-cases (attempt writing_signup (store.upsert_signup (keep_late_until w) s))) [
        | inr (e, u) ↦ absurd (ground (arith, u, h))
        | inl (((found, dropped), s₁), u) ↦
            elim (Outcome-cases (notify_signup_changed store event s₁)) [
              | inr (e, n) ↦ absurd (ground (arith, u, n, h))
              | inl (s₂, n) ↦
                  elim (Outcome-cases (
                    notify_comp_slots_dropped store event w.character_id (some w.status) dropped
                      s₂)) [
                        | inr (e, d) ↦ absurd (ground (arith, u, n, d, h))
                        | inl (s₃, d) ↦
                            let same : found ≡ signup = ground (arith, u, n, d, h) in
                            let end : s₃ ≡ s' = ground (arith, u, n, d, h) in
                            (
                              keep_late_until w,
                              dropped,
                              s₁,
                              s₂,
                              kept w w.status refl,
                              attempt-ok writing_signup _ ((found, dropped), s₁) u
                                  ∙ ap (λ a. done ((a, dropped), s₁)) same,
                              redrawn s₁ s₂ n,
                              reported w.character_id (some w.status) dropped s₂ s' (d ∙ ap ok end),
                            )
                      ]
            ]
      ]

-- A write that succeeds was one that may be written: NO_SHOW by a raid lead, on another's signup or once
-- the raid has begun at `now`, or another status by the raider, before the start at `now` and, unless
-- the raider is a raid lead, in time at `later`: by the signup deadline, or with LATE or ABSENT by the
-- start. It has stored the request, with a time of arrival only for LATE, answers the signup that was
-- stored, has queued the redraw of an event that is posted, and has told the raid leads which comps
-- lost a seat, if any did and the event has a channel.
pub write-IsWritten :
    {S : Type 0} (store : SignupStore S) (now later : ℕ) (w : SignupWrite)
    (owned is_raid_lead : Bool) (s : S) (signup : Signup)
    → (write store now later w owned is_raid_lead s).0 ≡ ok signup
    → (event : Event) × (store.get_event w.event_id s ≡ done event)
      × MayWrite event w.status owned is_raid_lead now later
      × IsWritten store event w s signup (write store now later w owned is_raid_lead s).1
write-IsWritten store now later w owned is_raid_lead s signup h =
    let (event, g, c, d, done_by) = write-ok store now later w owned is_raid_lead s signup h in
    (
      event,
      g,
      (MayWrite-iff event w.status owned is_raid_lead now later).0 (c, d),
      written store event w s _ signup done_by,
    )
