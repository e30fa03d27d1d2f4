-- ===== src/Signup/Runner/Build/Laws.antt =====
-- Whom a pre-event reminder reaches, and that the outbox accepts what the worker builds.
use raider_mate_service.Prelude.{
  ℕ, ◌≡◌, refl, sym, subst, ◌∙◌, ◌⊎◌, inl, inr, Bool, true, false, Option, none, some, List, [],
  ◌∷◌, map, arith, All, All-append, Option-cases,
}
use raider_mate_service.Signup.Types.{
  Event, Notification, done, attempt, loading_event, listing_undecided, listing_attending,
  reading_guild_settings, listing_signups, loading_raid_lead_roles,
}
use raider_mate_service.Signup.Store.Laws.{Outcome-cases}
use raider_mate_service.Signup.Policy.{JobEnum}
use raider_mate_service.Signup.Reminder.{GuildSettings, delivery}
use raider_mate_service.Signup.Runner.Build.{
  ReminderStore, AttendingSignup, ScheduledJob, notify, skip, no_channel, no_recipients,
  undecided_notice, wants_ping, wants_dm, pings, dms, or_skip, deadline_notice, pre_event_notices,
  build_reminder_24h, build_reminder_pre_event, build_signup_deadline,
}
use raider_mate_service.Signup.Runner.{build_notifications, build_for}
use raider_mate_service.Tables.Notifications.{has_target_shape}
use raider_mate_service.Signup.Runner.Build.Reach.{Reaches, notices_reach, or_skip-notify}

abbrev pub Shaped : List Notification → Type 0
Shaped notifications = All (λ n. has_target_shape n ≡ true) notifications

undecided-Shaped : (event : Event) (ids : List ℕ) → Shaped (map (undecided_notice event) ids)
undecided-Shaped event [] = tt
undecided-Shaped event (id ∷ ids) = (refl, undecided-Shaped event ids)

dms-Shaped : (event : Event) (b : Bool) (rows : List AttendingSignup) → Shaped (dms event b rows)
dms-Shaped event false rows = tt
dms-Shaped event true [] = tt
dms-Shaped event true (r ∷ rows) = (refl, dms-Shaped event true rows)

pings-Shaped :
    (event : Event) (b : Bool) (channel : Option ℕ) (rows : List AttendingSignup)
    → Shaped (pings event b channel rows)
pings-Shaped event false channel rows = tt
pings-Shaped event true none rows = tt
pings-Shaped event true (some channel) rows = (refl, tt)

module _ {S : Type 0} (store : ReminderStore S) where
  build_reminder_24h-Shaped :
      (event : Event) (s : S) (ns : List Notification)
      → build_reminder_24h store event s ≡ notify ns
      → Shaped ns
  unfolding build_reminder_24h
  build_reminder_24h-Shaped event s ns h =
      elim (Outcome-cases (attempt listing_undecided (store.list_undecided_for_event event.id s))) [
        | inr (e, k) ↦ absurd (ground (arith, k, h))
        | inl (ids, k) ↦
            let built =
              or_skip-notify no_recipients (map (undecided_notice event) ids) ns
                (rw (build_reminder_24h, k) at h) in
            subst Shaped built (undecided-Shaped event ids)
      ]

  -- What a pre-event job becomes: nothing to say to nobody, or the notices of the delivery.
  build_reminder_pre_event_cases :
      (event : Event) (s : S) (rows : List AttendingSignup) (settings : GuildSettings)
      → store.list_attending_for_event event.id s ≡ done rows
      → store.guild_settings event.discord_guild_id s ≡ done settings
      → ((rows ≡ []) × (build_reminder_pre_event store event s ≡ skip no_recipients))
        ⊎ (build_reminder_pre_event store event s
            ≡ or_skip no_channel (pre_event_notices store event (delivery settings) rows))
  unfolding build_reminder_pre_event
  build_reminder_pre_event_cases event s [] settings a g =
      inl (refl, rw (build_reminder_pre_event, a) refl)
  build_reminder_pre_event_cases event s (row ∷ rows) settings a g =
      inr (rw (build_reminder_pre_event, a, g) refl)

  -- Whatever the delivery, a pre-event job that queues notifications names every raider that is attending
  -- in one of them.
  pub build_reminder_pre_event-Reaches :
      (event : Event) (s : S) (rows : List AttendingSignup) (settings : GuildSettings)
      (ns : List Notification)
      → store.list_attending_for_event event.id s ≡ done rows
      → store.guild_settings event.discord_guild_id s ≡ done settings
      → build_reminder_pre_event store event s ≡ notify ns
      → All (Reaches ns) rows
  build_reminder_pre_event-Reaches event s rows settings ns a g h =
      elim (build_reminder_pre_event_cases event s rows settings a g) [
        | inl (empty, k) ↦ absurd (ground (arith, k, h))
        | inr k ↦ notices_reach event (delivery settings) event.channel_id rows ns (sym k ∙ h)
      ]

  build_reminder_pre_event-Shaped :
      (event : Event) (s : S) (ns : List Notification)
      → build_reminder_pre_event store event s ≡ notify ns
      → Shaped ns
  unfolding build_reminder_pre_event
  build_reminder_pre_event-Shaped event s ns h =
      elim (Outcome-cases (attempt listing_attending (store.list_attending_for_event event.id s))) [
        | inr (e, k) ↦ absurd (ground (arith, k, h))
        | inl ([], k) ↦ absurd (ground (arith, k, h))
        | inl (row ∷ rows, k) ↦
            elim (Outcome-cases
              (attempt reading_guild_settings (store.guild_settings event.discord_guild_id s))) [
                | inr (e, g) ↦ absurd (ground (arith, k, g, h))
                | inl (settings, g) ↦
                    let built =
                      or_skip-notify no_channel
                        (pre_event_notices store event (delivery settings) (row ∷ rows)) ns
                        (rw (k, build_reminder_pre_event, g) at h) in
                    subst Shaped built (
                      All-append (λ n. has_target_shape n ≡ true) _ _
                        (pings-Shaped event (wants_ping (delivery settings)) event.channel_id
                          (row ∷ rows))
                        (dms-Shaped event (wants_dm (delivery settings)) (row ∷ rows)))
              ]
      ]

  build_signup_deadline-Shaped :
      (event : Event) (s : S) (ns : List Notification)
      → build_signup_deadline store event s ≡ notify ns
      → Shaped ns
  unfolding build_signup_deadline
  build_signup_deadline-Shaped event s ns h = elim (Option-cases event.channel_id) [
    | inl c ↦ absurd (ground (arith, c, h))
    | inr (channel, c) ↦
        elim (Outcome-cases (attempt listing_signups (store.list_signups_for_event event.id s))) [
          | inr (e, k) ↦ absurd (ground (arith, c, k, h))
          | inl (signups, k) ↦
              elim (Outcome-cases (
                attempt loading_raid_lead_roles
                  (store.raid_lead_role_ids event.discord_guild_id s))) [
                    | inr (e, r) ↦ absurd (ground (arith, c, k, r, h))
                    | inl (roles, r) ↦
                        let built : deadline_notice event channel roles signups ∷ [] ≡ ns =
                          ground (arith, c, k, r, h) in
                        subst Shaped built (refl, tt)
                  ]
        ]
  ]

  build_for-Shaped :
      (kind : JobEnum) (event : Event) (s : S) (ns : List Notification)
      → build_for store kind event s ≡ notify ns
      → Shaped ns
  build_for-Shaped JobEnum.reminder_24h event s ns h = build_reminder_24h-Shaped event s ns h
  build_for-Shaped JobEnum.reminder_pre_event event s ns h =
      build_reminder_pre_event-Shaped event s ns h
  build_for-Shaped JobEnum.signup_deadline event s ns h = build_signup_deadline-Shaped event s ns h
  build_for-Shaped JobEnum.comp_nag event s ns h = absurd (ground (arith, h))

  -- Every notification that the worker builds has the target that its kind of target needs, so that the
  -- check notifications_target_shape accepts it.
  pub build_notifications-Shaped :
      (job : ScheduledJob) (s : S) (ns : List Notification)
      → build_notifications store job s ≡ notify ns
      → Shaped ns
  unfolding build_notifications
  build_notifications-Shaped job s ns h =
      elim (Outcome-cases (attempt loading_event (store.get_event job.event_id s))) [
        | inr (e, k) ↦ absurd (ground (arith, k, h))
        | inl (event, k) ↦
            build_for-Shaped job.job_type event s ns (rw (build_notifications, k) at h)
      ]
