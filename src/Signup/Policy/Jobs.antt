-- ===== src/Signup/Policy/Jobs.antt =====
-- The schedule of jobsFor, job kind by job kind.
use mathlib.Core.List.{append-nil}
use raider_mate_service.Prelude.{
  ℕ, ◌*◌, ◌≤◌, ◌≡◌, refl, ap, ◌∙◌, Bool, true, false, Option, none, some, List, [], ◌∷◌, ◌++◌,
  Bool-cases, inl, inr, arith, if◌then◌else◌,
}
use raider_mate_service.Prelude.Int.{ℤ, pos, ◌+ℤ◌, ◌-ℤ◌, wrap, ltb_ℤ}
use raider_mate_service.Signup.Policy.{
  JobEnum, signup_deadline, reminder_24h, reminder_pre_event, comp_nag, Job, minute, day,
  lead_before, candidate_jobs, future_jobs, jobs_for,
}

abbrev is_kind : JobEnum → JobEnum → Bool
is_kind signup_deadline signup_deadline = true
is_kind reminder_24h reminder_24h = true
is_kind reminder_pre_event reminder_pre_event = true
is_kind comp_nag comp_nag = true
is_kind _ _ = false

-- The times at which a schedule runs a kind of job.
unfoldable pub runs_of : JobEnum → List Job → List ℤ
runs_of kind [] = []
runs_of kind (j ∷ jobs) =
    let rest = runs_of kind jobs in if is_kind j.kind kind then j.run_at ∷ rest else rest

-- When a kind of job is due for an event, by design.
abbrev pub due : ℕ → ℕ → ℕ → JobEnum → Option ℤ
due starts_at deadline lead signup_deadline = some (pos deadline)
due starts_at deadline lead reminder_24h = some (pos starts_at -ℤ pos day)
due starts_at deadline lead reminder_pre_event =
    if ltb_ℤ (pos 0) (pos lead) then some (pos starts_at -ℤ pos (lead * minute)) else none
due starts_at deadline lead comp_nag = none

abbrev pub if_future : ℕ → Option ℤ → List ℤ
if_future now none = []
if_future now (some t) = if ltb_ℤ (pos now) t then t ∷ [] else []

-- Below 292 years, the lead time does not overflow a time.Duration.
lead_before_exact :
    (starts_at lead : ℕ)
    → lead ≤ 153722867
    → pos starts_at +ℤ lead_before lead ≡ pos starts_at -ℤ pos (lead * minute)
unfolding lead_before wrap ◌+ℤ◌ ◌-ℤ◌
lead_before_exact starts_at lead h = ground arith

runs_of-future_jobs :
    (kind : JobEnum) (j : Job) (jobs : List Job) (now : ℕ)
    → runs_of kind (future_jobs (j ∷ jobs) now)
      ≡ (if is_kind j.kind kind then if_future now (some j.run_at) else [])
        ++ runs_of kind (future_jobs jobs now)
unfolding future_jobs runs_of
runs_of-future_jobs kind j jobs now = elim (Bool-cases (ltb_ℤ (pos now) j.run_at)) [
  | inr f ↦
      rw (future_jobs, f)
        (elim (Bool-cases (is_kind j.kind kind)) [
          | inl k ↦ rw (runs_of, k) refl
          | inr k ↦ rw (runs_of, k) refl
        ])
  | inl f ↦
      rw (future_jobs, f)
        (elim (Bool-cases (is_kind j.kind kind)) [
          | inl k ↦ rw (runs_of, k) refl
          | inr k ↦ rw (runs_of, k) refl
        ])
]

abbrev pre_event_jobs : ℕ → ℕ → List Job
pre_event_jobs starts_at lead =
    if ltb_ℤ (pos 0) (pos lead)
    then record { kind = reminder_pre_event; run_at = pos starts_at +ℤ lead_before lead } ∷ []
    else []

runs_of-pre_event :
    (starts_at lead now : ℕ) (kind : JobEnum)
    → lead ≤ 153722867
    → runs_of kind (future_jobs (pre_event_jobs starts_at lead) now) ≡ (
        if is_kind reminder_pre_event kind
        then if_future now (due starts_at 0 lead reminder_pre_event)
        else [])
unfolding future_jobs runs_of
runs_of-pre_event starts_at lead now kind h = elim (Bool-cases (ltb_ℤ (pos 0) (pos lead))) [
  | inr l ↦ rw l (elim (Bool-cases (is_kind reminder_pre_event kind)) [
    | inl k ↦ rw k refl
    | inr k ↦ rw k refl
  ])
  | inl l ↦
      rw (l, lead_before_exact starts_at lead h)
        (runs_of-future_jobs kind
            (record { kind = reminder_pre_event; run_at = pos starts_at -ℤ pos (lead * minute) }) []
            now
          ∙ append-nil _)
]

-- For a lead time of at most 153722867 minutes, jobsFor schedules each kind of job once, at the time
-- when it is due, if it is due at all and that is after now; and not otherwise.
pub jobs_for-due :
    (starts_at deadline lead now : ℕ) (kind : JobEnum)
    → lead ≤ 153722867
    → runs_of kind (jobs_for starts_at deadline (pos lead) now)
      ≡ if_future now (due starts_at deadline lead kind)
unfolding jobs_for candidate_jobs
jobs_for-due starts_at deadline lead now kind h =
    let first : Job = record { kind = signup_deadline; run_at = pos deadline } in
    let second : Job = record { kind = reminder_24h; run_at = pos starts_at -ℤ pos day } in
    let third = pre_event_jobs starts_at lead in
    runs_of-future_jobs kind first (second ∷ third) now
    ∙ ap
        (λ xs.
          (if is_kind signup_deadline kind then if_future now (some (pos deadline)) else []) ++ xs)
        (runs_of-future_jobs kind second third now
          ∙ ap
              (λ xs.
                (if is_kind reminder_24h kind
                  then if_future now (some (pos starts_at -ℤ pos day))
                  else [])
                ++ xs)
              (runs_of-pre_event starts_at lead now kind h))
    ∙ one_kind kind
  where
    one_kind :
        (kind : JobEnum)
        → (if is_kind signup_deadline kind then if_future now (some (pos deadline)) else [])
            ++ ((if is_kind reminder_24h kind
                  then if_future now (some (pos starts_at -ℤ pos day))
                  else [])
                ++ (if is_kind reminder_pre_event kind
                    then if_future now (due starts_at 0 lead reminder_pre_event)
                    else []))
          ≡ if_future now (due starts_at deadline lead kind)
    one_kind signup_deadline = append-nil _
    one_kind reminder_24h = append-nil _
    one_kind reminder_pre_event = refl
    one_kind comp_nag = refl
