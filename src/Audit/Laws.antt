-- ===== src/Audit/Laws.antt =====
-- The rates of the panels are rates, and who may read the premium panels.
use raider_mate_service.Prelude.{
  ℕ, ◌≤◌, ◌≡◌, refl, subst, Bool, true, false, Option, none, some, List, [], ◌∷◌, map, arith, All,
}
use raider_mate_service.Prelude.Int.{ℤ}
use raider_mate_service.Signup.Types.{Reply, done, lost}
use raider_mate_service.Billing.{Answer, Refusal, Subscription, found, premium, require}
use raider_mate_service.Billing.Laws.{Grants, require-none_iff}
use raider_mate_service.Audit.{
  Ratio, ratio, Counts, raider_attendance, Attendance, AnalysisStore, Outcome, ok, read, gated,
  Step, counting_events, reading_attendance, attendance, comp_balance, roster_health, throughput,
  period_ending_at,
}

-- Between 0 and 1.
abbrev pub IsRate : Ratio → Type 0
IsRate r = (r.part ≤ r.whole) × (1 ≤ r.whole)

pub ratio-IsRate : (part whole : ℤ) → IsRate (ratio part whole)
unfolding ratio
ratio-IsRate part whole = (ground arith, ground arith)

read-ok :
    {A B : Type 0} (step : Step) (r : Reply A) (next : A → Outcome B) (b : B)
    → read step r next ≡ ok b
    → (a : A) × (r ≡ done a) × (next a ≡ ok b)
read-ok step (done a) next b h = (a, refl, h)
read-ok step (lost f) next b h = absurd (ground (arith, h))

attendance_rates :
    (events : ℤ) (cs : List Counts)
    → All (λ r. IsRate r.rate × IsRate r.silence) (map (raider_attendance events) cs)
attendance_rates events [] = tt
attendance_rates events (c ∷ cs) =
    ((ratio-IsRate _ events, ratio-IsRate _ events), attendance_rates events cs)

abbrev is_shown : {A : Type 0} → Outcome A → Bool
is_shown (ok a) = true
is_shown _ = false

gated-none :
    {A : Type 0} (gate : Option Refusal) (panel : Outcome A)
    → is_shown (gated gate panel) ≡ true
    → gate ≡ none
gated-none none panel h = refl
gated-none (some e) panel h = absurd (ground (arith, h))

pub data Panel : Type 0 where
  balance health weeks : Panel

module _ (store : AnalysisStore) (subscription : ℕ → Answer) where
  -- In an attendance panel that is shown, each raider's turnout and silence lie between 0 and 1, whatever
  -- the counts are.
  pub attendance-IsRate :
      (guild now : ℕ) (panel : Attendance)
      → attendance store subscription guild now ≡ ok panel
      → All (λ r. IsRate r.rate × IsRate r.silence) panel.raiders
  unfolding attendance
  attendance-IsRate guild now panel h =
      let (events, c, h1) =
        read-ok counting_events (store.count_events guild (period_ending_at now)) _ panel h in
      let (cs, a, h2) =
        read-ok reading_attendance (store.attendance guild (period_ending_at now)) _ panel h1 in
      let rows : map (raider_attendance events) cs ≡ panel.raiders = ground (arith, h2) in
      subst (All (λ r. IsRate r.rate × IsRate r.silence)) rows (attendance_rates events cs)

  -- Whether a premium panel is shown.
  abbrev pub shows : Panel → ℕ → ℕ → ℕ → Bool
  shows balance guild gate_now now = is_shown (comp_balance store subscription guild gate_now now)
  shows health guild gate_now now = is_shown (roster_health store subscription guild gate_now now)
  shows weeks guild gate_now now = is_shown (throughput store subscription guild gate_now now)

  shows-require :
      (panel : Panel) (guild gate_now now : ℕ)
      → shows panel guild gate_now now ≡ true
      → require subscription guild premium gate_now ≡ none
  unfolding comp_balance roster_health throughput
  shows-require balance guild gate_now now h = gated-none _ _ h
  shows-require health guild gate_now now h = gated-none _ _ h
  shows-require weeks guild gate_now now h = gated-none _ _ h

  -- A premium panel that is shown is shown to a guild whose subscription grants premium at the time of the
  -- gate.
  pub shows-Grants :
      (panel : Panel) (guild gate_now now : ℕ)
      → shows panel guild gate_now now ≡ true
      → (s : Subscription) × (subscription guild ≡ found s) × Grants s gate_now
  shows-Grants panel guild gate_now now h =
      (require-none_iff subscription guild gate_now).0 (shows-require panel guild gate_now now h)
