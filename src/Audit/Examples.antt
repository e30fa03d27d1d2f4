-- ===== src/Audit/Examples.antt =====
-- The panels of a guild with premium, and their theorems there.
use raider_mate_service.Prelude.{◌≡◌, refl, ℕ, true, none, [], ◌∷◌, map, All}
use raider_mate_service.Prelude.Int.{pos}
use raider_mate_service.Signup.Types.{done}
use raider_mate_service.Billing.{
  Answer, Subscription, found, premium, active, effective, tier_for, require,
}
use raider_mate_service.Billing.Laws.{Grants}
use raider_mate_service.Audit.{
  Counts, Attendance, AnalysisStore, ok, ratio, attendance, comp_balance, period_ending_at,
  raider_attendance,
}
use raider_mate_service.Audit.Laws.{IsRate, balance, shows, attendance-IsRate, shows-Grants}

-- Two events, and a raider who answered three.
abbrev counts : Counts
counts = record {
  character = record { id = 7; name = "Flex"; realm = "ae-b"; class = none };
  confirmed = pos 2;
  tentative = pos 0;
  declined = pos 0;
  late = pos 1;
  absent = pos 0;
  no_show = pos 0;
}

abbrev panels : AnalysisStore
panels = record {
  count_events = λ guild period. done (pos 2);
  attendance = λ guild period. done (counts ∷ []);
  role_totals = λ guild period. done [];
  bench_records = λ guild period. done [];
  role_coverage = λ guild. done [];
  roster_activity = λ guild period. done (pos 5, pos 3, pos 4);
  throughput = λ guild period. done [];
}

abbrev paying : Subscription
paying = record { tier = premium; status = active; current_period_end = none }

abbrev subscribed : ℕ → Answer
subscribed guild = found paying

abbrev shown : Attendance
shown = record {
  period = period_ending_at 100;
  events = pos 2;
  raiders = map (raider_attendance (pos 2)) (counts ∷ []);
}

run_attendance : attendance panels subscribed 9 100 ≡ ok shown
unfolding attendance
run_attendance = refl

clamped : ratio (pos 3) (pos 2) ≡ record { part = 1; whole = 1 }
unfolding ratio
clamped = refl

attendance-IsRate_example : All (λ r. IsRate r.rate × IsRate r.silence) shown.raiders
attendance-IsRate_example = attendance-IsRate panels subscribed 9 100 shown run_attendance

run_balance : shows panels subscribed balance 9 100 100 ≡ true
unfolding comp_balance require tier_for effective
run_balance = refl

shows-Grants_example : (s : Subscription) × (subscribed 9 ≡ found s) × Grants s 100
shows-Grants_example = shows-Grants panels subscribed balance 9 100 100 run_balance
