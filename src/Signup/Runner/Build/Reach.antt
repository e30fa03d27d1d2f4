-- ===== src/Signup/Runner/Build/Reach.antt =====
-- Whom the notices of a pre-event reminder name.
use raider_mate_service.Prelude.{
  ℕ, ◌≡◌, refl, subst, ◌∙◌, Bool, true, false, ◌||◌, Option, none, some, List, [], ◌∷◌, ◌++◌, map,
  arith, All, All-mono, ◌==◌, ==_refl,
}
use raider_mate_service.Prelude.Filter.{any_by, any_by-append}
use raider_mate_service.Comp.Manual.{is_seen}
use raider_mate_service.Signup.Types.{Event, Notification}
use raider_mate_service.Signup.Reminder.{ReminderDelivery, ping, dm, both}
use raider_mate_service.Signup.Runner.Build.{
  AttendingSignup, notify, SkipReason, no_channel, ping_notice, dm_notice, wants_ping, wants_dm,
  pings, dms, or_skip,
}

pub or_skip-notify :
    (reason : SkipReason) (built notifications : List Notification)
    → or_skip reason built ≡ notify notifications
    → built ≡ notifications
or_skip-notify reason [] notifications h = absurd (ground (arith, h))
or_skip-notify reason (n ∷ built) notifications h = ground (arith, h)

-- A raider is named by one of the notifications.
abbrev pub names : ℕ → Notification → Bool
names id n = is_seen id n.discord_ids || elim n.discord_id [ none ↦ false | some d ↦ d == id ]

abbrev pub Reaches : List Notification → AttendingSignup → Type 0
Reaches notifications row = any_by (names row.discord_id) notifications ≡ true

rows-is_seen :
    (rows : List AttendingSignup)
    → All (λ r. is_seen r.discord_id (map (λ q. q.discord_id) rows) ≡ true) rows
unfolding is_seen
rows-is_seen [] = tt
rows-is_seen (r ∷ rows) = (
  rw (==_refl r.discord_id) refl,
  All-mono _ _ (λ q h. ground (arith, h)) rows (rows-is_seen rows),
)

ping-Reaches :
    (event : Event) (channel : ℕ) (rows : List AttendingSignup)
    → All (Reaches (ping_notice event channel rows ∷ [])) rows
unfolding any_by
ping-Reaches event channel rows = All-mono _ _ (λ q h. ground (arith, h)) rows (rows-is_seen rows)

dms_reach :
    (event : Event) (rows : List AttendingSignup) → All (Reaches (map (dm_notice event) rows)) rows
unfolding any_by is_seen
dms_reach event [] = tt
dms_reach event (r ∷ rows) = (
  rw (==_refl r.discord_id) refl,
  All-mono _ _ (λ q h. ground (arith, h)) rows (dms_reach event rows),
)

Reaches-left :
    (xs ys : List Notification) (rows : List AttendingSignup)
    → All (Reaches xs) rows
    → All (Reaches (xs ++ ys)) rows
Reaches-left xs ys rows h =
    All-mono _ _ (λ q k. any_by-append (names q.discord_id) xs ys ∙ rw k refl) rows h

Reaches-right :
    (xs ys : List Notification) (rows : List AttendingSignup)
    → All (Reaches ys) rows
    → All (Reaches (xs ++ ys)) rows
Reaches-right xs ys rows h =
    All-mono _ _ (λ q k. any_by-append (names q.discord_id) xs ys ∙ rw k (ground arith)) rows h

-- Only a ping without a channel has no notices, and the notices that there are reach everybody.
pub notices_reach :
    (event : Event) (how : ReminderDelivery) (channel : Option ℕ) (rows : List AttendingSignup)
    (ns : List Notification)
    → or_skip no_channel
        (pings event (wants_ping how) channel rows ++ dms event (wants_dm how) rows)
      ≡ notify ns
    → All (Reaches ns) rows
notices_reach event ping none rows ns h = absurd (ground (arith, h))
notices_reach event ping (some channel) rows ns h =
    subst (λ xs. All (Reaches xs) rows)
      (or_skip-notify no_channel (ping_notice event channel rows ∷ []) ns h)
      (ping-Reaches event channel rows)
notices_reach event dm channel rows ns h =
    subst (λ xs. All (Reaches xs) rows) (or_skip-notify no_channel _ ns h) (dms_reach event rows)
notices_reach event both none rows ns h =
    subst (λ xs. All (Reaches xs) rows) (or_skip-notify no_channel _ ns h) (dms_reach event rows)
notices_reach event both (some channel) rows ns h =
    subst (λ xs. All (Reaches xs) rows)
      (or_skip-notify no_channel (ping_notice event channel rows ∷ map (dm_notice event) rows) ns h)
      (Reaches-left (ping_notice event channel rows ∷ []) (map (dm_notice event) rows) rows
        (ping-Reaches event channel rows))
