-- ===== src/Signup/Policy/MayWrite.antt =====
-- Who may write which status until when, in terms of the two times of an event, and that AllowedStatuses
-- and checkDeadline together let exactly those writes pass.
use raider_mate_service.Prelude.{
  ℕ, ◌≤◌, ◌<◌, ◌≡◌, ◌≢◌, ◌↔◌, ◌⊎◌, inl, inr, refl, Bool, true, false, none, some, arith,
}
use raider_mate_service.Signup.Types.{
  SignupStatus, confirmed, tentative, declined, late, absent, no_show, Event,
}
use raider_mate_service.Signup.Policy.{
  allowed_statuses, contains, has_started, check_deadline, deadline_for,
}

-- The signup deadline, which LATE and ABSENT outlive until the start, and which does not bind a raid lead.
abbrev pub IsTimely : Event → SignupStatus → Bool → ℕ → Type 0
IsTimely event status is_raid_lead later =
    (is_raid_lead ≡ true)
    ⊎ ((later ≤ event.signup_deadline)
        ⊎ (((status ≡ late) ⊎ (status ≡ absent)) × (later ≤ event.starts_at)))

-- NO_SHOW is a raid lead's, on another's signup or after the start; any other status is the raider's own,
-- before the start and in time.
abbrev pub MayWrite : Event → SignupStatus → Bool → Bool → ℕ → ℕ → Type 0
MayWrite event status owned is_raid_lead now later =
    ((status ≡ no_show) × (is_raid_lead ≡ true) × ((event.starts_at ≤ now) ⊎ (owned ≡ false)))
    ⊎ ((status ≢ no_show)
        × (owned ≡ true)
        × (now < event.starts_at)
        × IsTimely event status is_raid_lead later)

passes-MayWrite :
    (event : Event) (status : SignupStatus) (owned is_raid_lead : Bool) (now later : ℕ)
    → contains (allowed_statuses owned is_raid_lead (has_started event now)) status ≡ true
    → check_deadline event (some status) is_raid_lead later ≡ none
    → MayWrite event status owned is_raid_lead now later
unfolding has_started allowed_statuses contains check_deadline deadline_for
passes-MayWrite event confirmed owned is_raid_lead now later c d =
    inr (λ same. ground (arith, same), ground arith, ground arith, ground arith)
passes-MayWrite event tentative owned is_raid_lead now later c d =
    inr (λ same. ground (arith, same), ground arith, ground arith, ground arith)
passes-MayWrite event declined owned is_raid_lead now later c d =
    inr (λ same. ground (arith, same), ground arith, ground arith, ground arith)
passes-MayWrite event late owned is_raid_lead now later c d =
    inr (λ same. ground (arith, same), ground arith, ground arith, ground arith)
passes-MayWrite event absent owned is_raid_lead now later c d =
    inr (λ same. ground (arith, same), ground arith, ground arith, ground arith)
passes-MayWrite event no_show owned is_raid_lead now later c d =
    inl (refl, ground arith, ground arith)

MayWrite-passes :
    (event : Event) (status : SignupStatus) (owned is_raid_lead : Bool) (now later : ℕ)
    → MayWrite event status owned is_raid_lead now later
    → (contains (allowed_statuses owned is_raid_lead (has_started event now)) status ≡ true)
      × (check_deadline event (some status) is_raid_lead later ≡ none)
unfolding has_started allowed_statuses contains check_deadline deadline_for
MayWrite-passes event confirmed owned is_raid_lead now later m = (ground arith, ground arith)
MayWrite-passes event tentative owned is_raid_lead now later m = (ground arith, ground arith)
MayWrite-passes event declined owned is_raid_lead now later m = (ground arith, ground arith)
MayWrite-passes event late owned is_raid_lead now later m = (ground arith, ground arith)
MayWrite-passes event absent owned is_raid_lead now later m = (ground arith, ground arith)
MayWrite-passes event no_show owned is_raid_lead now later m = (ground arith, ground arith)

pub MayWrite-iff :
    (event : Event) (status : SignupStatus) (owned is_raid_lead : Bool) (now later : ℕ)
    → ((contains (allowed_statuses owned is_raid_lead (has_started event now)) status ≡ true)
        × (check_deadline event (some status) is_raid_lead later ≡ none))
      ↔ MayWrite event status owned is_raid_lead now later
MayWrite-iff event status owned is_raid_lead now later = (
  λ (c, d). passes-MayWrite event status owned is_raid_lead now later c d,
  MayWrite-passes event status owned is_raid_lead now later,
)
