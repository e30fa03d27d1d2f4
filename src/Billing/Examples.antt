-- ===== src/Billing/Examples.antt =====
-- The tiers of a guild on trial and of one whose period is over.
use raider_mate_service.Prelude.{ℕ, ◌≡◌, ◌↔◌, refl, none, some, ◌==◌, if◌then◌else◌}
use raider_mate_service.Billing.{
  premium, trialing, active, Subscription, Answer, found, not_found, require, tier_required,
}
use raider_mate_service.Billing.Laws.{Grants, require-none_iff}

abbrev trial : Subscription
trial = record { tier = premium; status = trialing; current_period_end = none }

abbrev over : Subscription
over = record { tier = premium; status = active; current_period_end = some 50 }

abbrev guilds : ℕ → Answer
guilds guild = if guild == 1 then found trial else if guild == 2 then found over else not_found

lapsed : require guilds 2 premium 50 ≡ some tier_required
unfolding require
lapsed = refl

require-none_iff_example :
    (require guilds 1 premium 60 ≡ none) ↔ ((s : Subscription) × (guilds 1 ≡ found s) × Grants s 60)
require-none_iff_example = require-none_iff guilds 1 60
