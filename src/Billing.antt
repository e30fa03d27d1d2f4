-- ===== src/Billing.antt =====
-- internal/billing/tier.go: what a guild may read. A time is a number of nanoseconds.
pub mod Laws
mod Examples
use raider_mate_service.Prelude.{
  ℕ, Bool, true, false, ◌&&◌, ◌||◌, not, Option, none, some, ltb, if◌then◌else◌,
}

pub data Tier : Type 0 where
  free premium : Tier

pub data Status : Type 0 where
  active past_due canceled trialing : Status

-- `current_period_end` is `none` where the period is open ended.
pub record Subscription : Type 0 where
  pub tier : Tier
  pub status : Status
  pub current_period_end : Option ℕ

abbrev pub is_premium : Tier → Bool
is_premium premium = true
is_premium free = false

abbrev pub is_honoured : Status → Bool
is_honoured active = true
is_honoured trialing = true
is_honoured _ = false

abbrev pub has_run_out : Option ℕ → ℕ → Bool
has_run_out none now = false
has_run_out (some end) now = not (ltb now end)

unfoldable pub effective : Subscription → ℕ → Tier
effective s now =
    if not (is_premium s.tier)
    then free
    else if not (is_honoured s.status)
    then free
    else if has_run_out s.current_period_end now
    then free
    else premium

-- What tierStore answers for a guild: its row, no row, or an error.
pub data Answer : Type 0 where
  found : Subscription → Answer
  not_found : Answer
  unreadable : ℕ → Answer

-- Both results of For: the tier, and the error that was wrapped.
unfoldable pub tier_for : (ℕ → Answer) → ℕ → ℕ → Tier × Option ℕ
unfolding effective
tier_for subscription guild now = elim (subscription guild) [
  | unreadable e ↦ (free, some e)
  | not_found ↦ (free, none)
  | found s ↦ (effective s now, none)
]

pub data Refusal : Type 0 where
  tier_required : Refusal
  reading_subscription : ℕ → Refusal

unfoldable pub require : (ℕ → Answer) → ℕ → Tier → ℕ → Option Refusal
unfolding tier_for
require subscription guild want now = elim (tier_for subscription guild now).1 [
  | some e ↦ some (reading_subscription e)
  | none ↦
      if is_premium want && not (is_premium (tier_for subscription guild now).0)
      then some tier_required
      else none
]
