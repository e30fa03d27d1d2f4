-- ===== src/Billing/Laws.antt =====
-- Who reads as premium.
use raider_mate_service.Prelude.{
  ℕ, ◌<◌, ◌≡◌, ◌↔◌, ◌⊎◌, refl, Option, none, some, false, arith, inl, inr,
}
use raider_mate_service.Billing.{
  Tier, free, premium, active, trialing, Subscription, effective, Answer, found, not_found,
  unreadable, has_run_out, tier_for, reading_subscription, require,
}

Answer-cases :
    (a : Answer)
    → ((s : Subscription) × (a ≡ found s)) ⊎ ((a ≡ not_found) ⊎ ((e : ℕ) × (a ≡ unreadable e)))
Answer-cases (found s) = inl (s, refl)
Answer-cases not_found = inr (inl refl)
Answer-cases (unreadable e) = inr (inr (e, refl))

-- The paid period reaches past a time.
abbrev pub Covers : Option ℕ → ℕ → Type 0
Covers none now = Unit
Covers (some end) now = now < end

-- A premium subscription in an honoured state, in its paid period.
pub record Grants (s : Subscription) (now : ℕ) : Type 0 where
  pub bought : s.tier ≡ premium
  pub honoured : (s.status ≡ active) ⊎ (s.status ≡ trialing)
  pub covered : Covers s.current_period_end now

has_run_out_iff : (end : Option ℕ) (now : ℕ) → (has_run_out end now ≡ false) ↔ Covers end now
has_run_out_iff none now = (λ h. tt, λ h. refl)
has_run_out_iff (some end) now = ground arith

effective-Grants : (s : Subscription) (now : ℕ) → effective s now ≡ premium → Grants s now
unfolding effective
effective-Grants s now h = record {
  bought = ground (arith, h);
  honoured = ground (arith, h);
  covered = (has_run_out_iff s.current_period_end now).0 (ground (arith, h));
}

Grants-effective : (s : Subscription) (now : ℕ) → Grants s now → effective s now ≡ premium
unfolding effective
Grants-effective s now g =
    rw (g.bought, (has_run_out_iff s.current_period_end now).1 g.covered)
      (ground (arith, g.honoured))

-- A subscription grants the premium tier exactly while it was bought as premium, is active or on
-- trial, and its paid period, if it has an end, is not over.
pub effective-premium_iff :
    (s : Subscription) (now : ℕ) → (effective s now ≡ premium) ↔ Grants s now
effective-premium_iff s now = (effective-Grants s now, Grants-effective s now)

-- A read that needs the premium tier is let through exactly for a guild whose subscription can be
-- read and grants it.
pub require-none_iff :
    (subscription : ℕ → Answer) (guild now : ℕ)
    → (require subscription guild premium now ≡ none)
      ↔ ((s : Subscription) × (subscription guild ≡ found s) × Grants s now)
unfolding require tier_for
require-none_iff subscription guild now = (
  λ h. elim (Answer-cases (subscription guild)) [
    | inl (s, e) ↦ (s, e, effective-Grants s now (ground (arith, e, h)))
    | inr (inl e) ↦ absurd (ground (arith, e, h))
    | inr (inr (f, e)) ↦ absurd (ground (arith, e, h))
  ],
  λ (s, e, g). rw (require, e) (ground (arith, Grants-effective s now g)),
)

-- A read that is free is let through whenever the subscription can be read, and an error in reading
-- it stops every read.
pub require-free :
    (subscription : ℕ → Answer) (guild now : ℕ)
    → (require subscription guild free now ≡ none)
      ⊎ ((e : ℕ) × (subscription guild ≡ unreadable e)
          × ((want : Tier) → require subscription guild want now ≡ some (reading_subscription e)))
unfolding require tier_for
require-free subscription guild now = elim (Answer-cases (subscription guild)) [
  | inl (s, e) ↦ inl (rw (require, e) refl)
  | inr (inl e) ↦ inl (rw (require, e) refl)
  | inr (inr (f, e)) ↦ inr (f, e, λ want. rw (require, e) refl)
]
