-- ===== src/Signup/Policy/Laws.antt =====
-- What the policy allows: the table of statuses and the two deadlines.
use raider_mate_service.Prelude.{
  ℕ, ◌≤◌, ◌≡◌, ◌↔◌, ◌⊎◌, Bool, true, false, ◌&&◌, ◌||◌, not, Option, none, some, arith,
  if◌then◌else◌,
}
use raider_mate_service.Signup.Types.{SignupStatus, no_show, Event, signups_closed}
use raider_mate_service.Signup.Policy.{
  allowed_statuses, contains, status_eq, runs_until_pull, deadline_for, check_deadline,
}

-- A status is allowed exactly when it is NO_SHOW, written by a raid lead on a signup that is not
-- their own or after the start, or another status, written by the raider before the start.
pub allowed_statuses_lem :
    (owned is_raid_lead started : Bool) (status : SignupStatus)
    → contains (allowed_statuses owned is_raid_lead started) status ≡ (
        if status_eq status no_show
        then is_raid_lead && (started || not owned)
        else owned && not started)
unfolding allowed_statuses contains
allowed_statuses_lem owned is_raid_lead started status = ground arith

-- The gate lets a write pass exactly when a raid lead makes it, or the signup deadline is not over,
-- or it says LATE or ABSENT and the start is not over.
pub check_deadline-none_iff :
    (event : Event) (status : Option SignupStatus) (is_raid_lead : Bool) (now : ℕ)
    → (check_deadline event status is_raid_lead now ≡ none) ↔ (
        (is_raid_lead ≡ true)
        ⊎ ((now ≤ event.signup_deadline)
            ⊎ ((runs_until_pull status ≡ true) × (now ≤ event.starts_at))))
unfolding check_deadline deadline_for
check_deadline-none_iff event status is_raid_lead now = (λ h. ground arith, λ h. ground arith)

-- A write that the gate refuses, before the raid begins, is one that the queue takes.
pub check_deadline-some :
    (event : Event) (status : Option SignupStatus) (is_raid_lead : Bool) (now : ℕ)
    → (check_deadline event status is_raid_lead now ≡ none)
      ⊎ (check_deadline event status is_raid_lead now ≡ some signups_closed)
unfolding check_deadline
check_deadline-some event status is_raid_lead now = ground arith

-- The gate only stops those who were allowed to write before the start.
pub closed_before_start :
    (event : Event) (owned is_raid_lead started : Bool) (status : SignupStatus) (later : ℕ)
    → contains (allowed_statuses owned is_raid_lead started) status ≡ true
    → check_deadline event (some status) is_raid_lead later ≡ some signups_closed
    → started ≡ false
unfolding check_deadline
closed_before_start event owned is_raid_lead started status later c d =
    ground (arith, allowed_statuses_lem owned is_raid_lead started status, c, d)
