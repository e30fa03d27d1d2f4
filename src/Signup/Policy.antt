-- ===== src/Signup/Policy.antt =====
-- Who may write which status, and until when: AllowedStatuses and checkDeadline of
-- internal/signup/signup.go, and jobsFor of internal/signup/schedule.go.
pub mod Laws
pub mod Jobs
pub mod MayWrite
use raider_mate_service.Prelude.{
  ℕ, ◌*◌, Bool, true, false, ◌&&◌, ◌||◌, not, Option, none, some, List, [], ◌∷◌, ◌++◌, ltb,
  if◌then◌else◌,
}
use raider_mate_service.Prelude.Int.{ℤ, pos, pos_part, ◌+ℤ◌, ◌-ℤ◌, to_int, ltb_ℤ}
use raider_mate_service.Signup.Types.{
  SignupStatus, confirmed, tentative, declined, late, absent, no_show, Event, Error, signups_closed,
}

abbrev pub self_reported : List SignupStatus
self_reported = confirmed ∷ tentative ∷ declined ∷ late ∷ absent ∷ []

unfoldable pub allowed_statuses : Bool → Bool → Bool → List SignupStatus
allowed_statuses owned is_raid_lead started =
    if started
    then if is_raid_lead then no_show ∷ [] else []
    else if owned
    then self_reported
    else if is_raid_lead
    then no_show ∷ []
    else []

unfoldable pub all_statuses : List SignupStatus
all_statuses = self_reported ++ no_show ∷ []

abbrev pub status_eq : SignupStatus → SignupStatus → Bool
status_eq confirmed confirmed = true
status_eq tentative tentative = true
status_eq declined declined = true
status_eq late late = true
status_eq absent absent = true
status_eq no_show no_show = true
status_eq _ _ = false

-- slices.Contains
unfoldable pub contains : List SignupStatus → SignupStatus → Bool
contains [] status = false
contains (x ∷ statuses) status = status_eq x status || contains statuses status

-- !time.Now().Before(event.StartsAt)
unfoldable pub has_started : Event → ℕ → Bool
has_started event now = not (ltb now event.starts_at)

-- LATE and ABSENT run until the pull; a withdrawal is `none`.
abbrev pub runs_until_pull : Option SignupStatus → Bool
runs_until_pull none = false
runs_until_pull (some status) = status_eq status late || status_eq status absent

unfoldable pub deadline_for : Event → Option SignupStatus → ℕ
deadline_for event status =
    if runs_until_pull status && ltb event.signup_deadline event.starts_at
    then event.starts_at
    else event.signup_deadline

unfoldable pub check_deadline : Event → Option SignupStatus → Bool → ℕ → Option Error
unfolding deadline_for
check_deadline event status is_raid_lead now =
    if is_raid_lead
    then none
    else if ltb (deadline_for event status) now
    then some signups_closed
    else none

pub data JobEnum : Type 0 where
  signup_deadline reminder_24h reminder_pre_event comp_nag : JobEnum

pub record Job : Type 0 where
  pub kind : JobEnum
  pub run_at : ℤ

-- time.Minute and 24 * time.Hour, in nanoseconds.
abbrev pub minute : ℕ
minute = 60000000000

abbrev pub day : ℕ
day = 86400000000000

-- -time.Duration(leadMinutes) * time.Minute, an int64, for a lead above 0.
unfoldable pub lead_before : ℕ → ℤ
lead_before lead = to_int (pos 0 -ℤ pos (lead * minute))

unfoldable pub candidate_jobs : ℕ → ℕ → ℤ → List Job
unfolding lead_before
candidate_jobs starts_at deadline lead =
    record { kind = signup_deadline; run_at = pos deadline }
    ∷ record { kind = reminder_24h; run_at = pos starts_at -ℤ pos day }
    ∷ (if ltb_ℤ (pos 0) lead
        then record {
          kind = reminder_pre_event;
          run_at = pos starts_at +ℤ lead_before (pos_part lead);
        }
          ∷ []
        else [])

unfoldable pub future_jobs : List Job → ℕ → List Job
future_jobs [] now = []
future_jobs (c ∷ candidates) now =
    let rest = future_jobs candidates now in if ltb_ℤ (pos now) c.run_at then c ∷ rest else rest

unfoldable pub jobs_for : ℕ → ℕ → ℤ → ℕ → List Job
unfolding candidate_jobs future_jobs
jobs_for starts_at deadline lead now = future_jobs (candidate_jobs starts_at deadline lead) now
