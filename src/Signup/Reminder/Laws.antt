-- ===== src/Signup/Reminder/Laws.antt =====
-- The reports of ReminderState are well formed.
use raider_mate_service.Prelude.{
  ℕ, ◌≡◌, Bool, true, false, arith, refl, ap, subst, ◌⊎◌, Bool-cases, if◌then◌else◌, inl, inr,
}
use raider_mate_service.Prelude.Int.{ℤ, pos, negsuc, eqb_ℤ}
use raider_mate_service.Comp.Roles.{is_ok}
use raider_mate_service.Signup.Types.{Event, Reply, ok, attempt, reading_guild_settings}
use raider_mate_service.Signup.Store.Laws.{Outcome-cases}
use raider_mate_service.Signup.Reminder.{
  GuildSettings, ReminderJob, JobAnswer, job_found, no_reminder_job, job_unreadable, with_word,
  skipped_because, reason_not_scheduled, lead_of, delivery, ReminderWord, ReminderDelivery,
  ReminderState, state_of_job, reminder_state,
}

JobAnswer-cases :
    (a : JobAnswer)
    → ((job : ReminderJob) × (a ≡ job_found job))
      ⊎ ((a ≡ no_reminder_job) ⊎ ((f : ℕ) × (a ≡ job_unreadable f)))
JobAnswer-cases (job_found job) = inl (job, refl)
JobAnswer-cases no_reminder_job = inr (inl refl)
JobAnswer-cases (job_unreadable f) = inr (inr (f, refl))

abbrev pub is_skipped : ReminderWord → Bool
is_skipped ReminderWord.skipped = true
is_skipped _ = false

abbrev pub is_scheduled : ReminderWord → Bool
is_scheduled ReminderWord.scheduled = true
is_scheduled _ = false

-- A reason goes with SKIPPED alone, a time with SCHEDULED alone, and OFF with a lead time of 0.
pub record IsReport (st : ReminderState) : Type 0 where
  pub reasoned : is_ok st.reason ≡ is_skipped st.state
  pub timed : is_ok st.runs_at ≡ is_scheduled st.state
  pub off_lead : st.state ≡ ReminderWord.off → st.lead_minutes ≡ pos 0

state_of_job-IsReport :
    (lead : ℤ) (how : ReminderDelivery) (job : ReminderJob) → IsReport (state_of_job lead how job)
unfolding state_of_job
state_of_job-IsReport lead how job = record {
  reasoned = ground arith;
  timed = ground arith;
  off_lead = λ h. ground (arith, h);
}

is_zero : (lead : ℤ) → eqb_ℤ lead (pos 0) ≡ true → lead ≡ pos 0
is_zero (pos n) h = ap pos (ground (arith, h))
is_zero (negsuc n) h = absurd (ground (arith, h))

no_job-IsReport :
    (lead : ℤ) (how : ReminderDelivery)
    → IsReport (
        if eqb_ℤ lead (pos 0)
        then with_word lead how ReminderWord.off
        else skipped_because lead how reason_not_scheduled)
no_job-IsReport lead how = elim (Bool-cases (eqb_ℤ lead (pos 0))) [
  | inl e ↦ rw e (record { reasoned = refl; timed = refl; off_lead = λ h. is_zero lead e })
  | inr e ↦
      rw e (record { reasoned = refl; timed = refl; off_lead = λ h. absurd (ground (arith, h)) })
]

-- What ReminderState reports gives a reason with SKIPPED alone, a time with SCHEDULED alone, and OFF
-- only for a lead time of 0.
pub reminder_state-IsReport :
    (guild_settings : ℕ → Reply GuildSettings) (pre_event_job : ℕ → JobAnswer) (event : Event)
    (st : ReminderState)
    → reminder_state guild_settings pre_event_job event ≡ ok st
    → IsReport st
unfolding reminder_state
reminder_state-IsReport guild_settings pre_event_job event st h =
    elim (Outcome-cases (attempt reading_guild_settings (guild_settings event.discord_guild_id))) [
      | inr (e, g) ↦ absurd (ground (arith, g, h))
      | inl (settings, g) ↦
          let lead = lead_of event settings in
          let how = delivery settings in
          elim (JobAnswer-cases (pre_event_job event.id)) [
            | inr (inl j) ↦ subst IsReport (ground (arith, g, j, h)) (no_job-IsReport lead how)
            | inr (inr (f, j)) ↦ absurd (ground (arith, g, j, h))
            | inl (job, j) ↦
                subst IsReport (ground (arith, g, j, h)) (state_of_job-IsReport lead how job)
          ]
    ]
