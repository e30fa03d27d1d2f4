-- ===== src/Audit.antt =====
-- Analysis of internal/audit/analysis.go: the panels that are computed from counts. `to_int` is the
-- wrap-around of an int64, and each reading of the clock is an argument.
pub mod Laws
mod Examples
use raider_mate_service.Prelude.{
  ℕ, ◌*◌, Bool, true, false, ◌||◌, Option, none, some, List, [], ◌∷◌, map, if◌then◌else◌,
}
use raider_mate_service.Prelude.Int.{ℤ, pos, pos_part, ◌+ℤ◌, ◌-ℤ◌, leb_ℤ, ltb_ℤ, to_int}
use raider_mate_service.Prelude.Text.{String}
use raider_mate_service.Comp.Types.{RoleEnum}
use raider_mate_service.Signup.Types.{Failure, Reply, done, lost}
use raider_mate_service.Signup.Policy.{day}
use raider_mate_service.Billing.{Answer, Refusal, premium, require}

abbrev pub window : ℕ
window = 90 * day

-- An instant may lie before the epoch.
pub record Period : Type 0 where
  pub since : ℤ
  pub until : ℕ

abbrev pub period_ending_at : ℕ → Period
period_ending_at now = record { since = pos now -ℤ pos window; until = now }

pub record CharacterRef : Type 0 where
  pub id : ℕ
  pub name : String
  pub realm : String
  pub class : Option String

-- A float64 between 0 and 1, as the fraction that is divided.
pub record Ratio : Type 0 where
  pub part : ℕ
  pub whole : ℕ

unfoldable pub ratio : ℤ → ℤ → Ratio
ratio part whole =
    if leb_ℤ whole (pos 0) || leb_ℤ part (pos 0)
    then record { part = 0; whole = 1 }
    else if ltb_ℤ whole part
    then record { part = 1; whole = 1 }
    else record { part = pos_part part; whole = pos_part whole }

-- The counts of a raider, and what Attendance makes of them.
pub record Counts : Type 0 where
  pub character : CharacterRef
  pub confirmed : ℤ
  pub tentative : ℤ
  pub declined : ℤ
  pub late : ℤ
  pub absent : ℤ
  pub no_show : ℤ

pub record RaiderAttendance : Type 0 where
  pub counts : Counts
  pub answered : ℤ
  pub rate : Ratio
  pub silence : Ratio

pub record Attendance : Type 0 where
  pub period : Period
  pub events : ℤ
  pub raiders : List RaiderAttendance

abbrev answered_of : Counts → ℤ
answered_of c = to_int (c.confirmed +ℤ c.tentative +ℤ c.declined +ℤ c.late +ℤ c.absent +ℤ c.no_show)

abbrev pub raider_attendance : ℤ → Counts → RaiderAttendance
raider_attendance events c = record {
  counts = c;
  answered = answered_of c;
  rate = ratio (to_int (c.confirmed +ℤ c.late)) events;
  silence = ratio (to_int (events -ℤ answered_of c)) events;
}

pub record RoleTotal : Type 0 where
  pub role : RoleEnum
  pub placed : ℤ
  pub benched : ℤ

pub record RoleBalance : Type 0 where
  pub total : RoleTotal
  pub share : Ratio
  pub bench_rate : Ratio

pub record BenchCount : Type 0 where
  pub character : CharacterRef
  pub boards : ℤ
  pub benched : ℤ

pub record BenchRecord : Type 0 where
  pub count : BenchCount
  pub rate : Ratio

pub record CompBalance : Type 0 where
  pub period : Period
  pub roles : List RoleBalance
  pub bench : List BenchRecord

unfoldable pub sum_by : {A : Type 0} → (A → ℤ) → ℤ → List A → ℤ
sum_by f total [] = total
sum_by f total (x ∷ xs) = sum_by f (to_int (total +ℤ f x)) xs

abbrev pub role_balance : ℤ → RoleTotal → RoleBalance
role_balance placed r = record {
  total = r;
  share = ratio r.placed placed;
  bench_rate = ratio r.benched (to_int (r.placed +ℤ r.benched));
}

abbrev pub bench_record : BenchCount → BenchRecord
bench_record b = record { count = b; rate = ratio b.benched b.boards }

pub record RoleCoverage : Type 0 where
  pub role : RoleEnum
  pub characters : ℤ
  pub first_choice : ℤ

pub record RosterHealth : Type 0 where
  pub period : Period
  pub characters : ℤ
  pub mains : ℤ
  pub active : ℤ
  pub dormant : ℤ
  pub coverage : List RoleCoverage

pub record WeekCount : Type 0 where
  pub week : ℕ
  pub events : ℤ
  pub confirmed : ℤ
  pub declined : ℤ
  pub no_show : ℤ
  pub placed : ℤ
  pub benched : ℤ

pub record ThroughputWeek : Type 0 where
  pub count : WeekCount
  pub bench_rate : Ratio
  pub no_show_rate : Ratio

pub record Throughput : Type 0 where
  pub period : Period
  pub events : ℤ
  pub weeks : List ThroughputWeek

abbrev pub throughput_week : WeekCount → ThroughputWeek
throughput_week w = record {
  count = w;
  bench_rate = ratio w.benched (to_int (w.placed +ℤ w.benched));
  no_show_rate = ratio w.no_show w.confirmed;
}

-- What an fmt.Errorf is about.
pub data Step : Type 0 where
  counting_events reading_attendance reading_role_totals reading_bench_records : Step
  reading_roster_activity reading_role_coverage reading_throughput : Step

pub data Outcome (A : Type 0) : Type 0 where
  ok : A → Outcome A
  refused : Refusal → Outcome A
  failed : Step → Failure → Outcome A

abbrev pub read : {A B : Type 0} → Step → Reply A → (A → Outcome B) → Outcome B
read step (done a) next = next a
read step (lost f) next = failed step f

-- The interface analysisStore, without the ilvl series, which is handed on as it is read.
pub record AnalysisStore : Type 0 where
  pub count_events : ℕ → Period → Reply ℤ
  pub attendance : ℕ → Period → Reply (List Counts)
  pub role_totals : ℕ → Period → Reply (List RoleTotal)
  pub bench_records : ℕ → Period → Reply (List BenchCount)
  pub role_coverage : ℕ → Reply (List RoleCoverage)
  pub roster_activity : ℕ → Period → Reply (ℤ × ℤ × ℤ)
  pub throughput : ℕ → Period → Reply (List WeekCount)

-- if err := a.tiers.Require(…); err != nil { return err }
abbrev pub gated : {A : Type 0} → Option Refusal → Outcome A → Outcome A
gated none panel = panel
gated (some e) panel = refused e

module _ (store : AnalysisStore) (subscription : ℕ → Answer) where
  unfoldable pub attendance : ℕ → ℕ → Outcome Attendance
  unfolding ratio
  attendance guild now =
      let period = period_ending_at now in
      read counting_events (store.count_events guild period) (λ events.
        read reading_attendance (store.attendance guild period) (λ raiders. ok (record {
          period = period;
          events = events;
          raiders = map (raider_attendance events) raiders;
        })))

  -- `gate_now` is the clock of the gate, and `now` that of the period.
  unfoldable pub comp_balance : ℕ → ℕ → ℕ → Outcome CompBalance
  unfolding ratio sum_by
  comp_balance guild gate_now now =
      let period = period_ending_at now in
      gated (require subscription guild premium gate_now) (
        read reading_role_totals (store.role_totals guild period) (λ roles.
          read reading_bench_records (store.bench_records guild period) (λ bench. ok (record {
            period = period;
            roles = map (role_balance (sum_by (λ r. r.placed) (pos 0) roles)) roles;
            bench = map bench_record bench;
          }))))

  unfoldable pub roster_health : ℕ → ℕ → ℕ → Outcome RosterHealth
  roster_health guild gate_now now =
      let period = period_ending_at now in
      gated (require subscription guild premium gate_now) (
        read reading_roster_activity (store.roster_activity guild period)
          (λ (characters, mains, active).
            read reading_role_coverage (store.role_coverage guild) (λ coverage. ok (record {
              period = period;
              characters = characters;
              mains = mains;
              active = active;
              dormant = to_int (characters -ℤ active);
              coverage = coverage;
            }))))

  unfoldable pub throughput : ℕ → ℕ → ℕ → Outcome Throughput
  unfolding ratio sum_by
  throughput guild gate_now now =
      let period = period_ending_at now in
      gated (require subscription guild premium gate_now) (
        read reading_throughput (store.throughput guild period) (λ weeks. ok (record {
          period = period;
          events = sum_by (λ w. w.events) (pos 0) weeks;
          weeks = map throughput_week weeks;
        })))
