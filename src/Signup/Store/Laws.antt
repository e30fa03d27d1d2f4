-- ===== src/Signup/Store/Laws.antt =====
-- Transactions: all or nothing.
use raider_mate_service.Prelude.{Bool, true, false, ◌≡◌, refl, ◌⊎◌, inl, inr, arith}
use raider_mate_service.Signup.Types.{
  Outcome, ok, err, Error, Reply, done, lost, attempt, beginning_tx, committing_tx, failed, Step,
}
use raider_mate_service.Signup.Store.{SignupStore, transact}

pub Outcome-cases :
    {A : Type 0} (o : Outcome A) → ((a : A) × (o ≡ ok a)) ⊎ ((e : Error) × (o ≡ err e))
Outcome-cases (ok a) = inl (a, refl)
Outcome-cases (err e) = inr (e, refl)

module _ {S : Type 0} (store : SignupStore S) {A : Type 0} (body : S → Outcome (A × S))
    (s : S) where
  -- A transaction that fails leaves the state as it was.
  pub transact-err : (e : Error) → (transact store body s).0 ≡ err e → (transact store body s).1 ≡ s
  unfolding transact
  transact-err e h = elim (Outcome-cases (attempt beginning_tx (store.begin s))) [
    | inr (f, b) ↦ rw (transact, b) refl
    | inl (x, b) ↦ elim (Outcome-cases (body s)) [
      | inr (f, c) ↦ rw (transact, b, c) refl
      | inl ((a, s'), c) ↦ elim (Outcome-cases (attempt committing_tx (store.commit s'))) [
        | inr (f, d) ↦ rw (transact, b, c, d) refl
        | inl (y, d) ↦ absurd (ground (arith, b, c, d, h))
      ]
    ]
  ]

  -- One that succeeds has run its body and keeps what it did.
  pub transact-ok :
      (a : A) → (transact store body s).0 ≡ ok a → body s ≡ ok (a, (transact store body s).1)
  unfolding transact
  transact-ok a h = elim (Outcome-cases (attempt beginning_tx (store.begin s))) [
    | inr (f, b) ↦ absurd (ground (arith, b, h))
    | inl (x, b) ↦ elim (Outcome-cases (body s)) [
      | inr (f, c) ↦ absurd (ground (arith, b, c, h))
      | inl ((a', s'), c) ↦ elim (Outcome-cases (attempt committing_tx (store.commit s'))) [
        | inr (f, d) ↦ absurd (ground (arith, b, c, d, h))
        | inl (y, d) ↦
            let h' : a' ≡ a = ground (arith, b, c, d, h) in rw (transact, b, c, d, h') refl
      ]
    ]
  ]

pub attempt-ok :
    {A : Type 0} (step : Step) (r : Reply A) (a : A) → attempt step r ≡ ok a → r ≡ done a
attempt-ok step (done b) a h = ground (arith, h)
attempt-ok step (lost f) a h = absurd (ground (arith, h))

-- Whether an error comes from the database, and not from a rule of the sheet.
abbrev pub is_failed : Error → Bool
is_failed (failed step f) = true
is_failed _ = false

pub attempt-err :
    {A : Type 0} (step : Step) (r : Reply A) (e : Error)
    → attempt step r ≡ err e
    → is_failed e ≡ true
attempt-err step (done a) e h = absurd (ground (arith, h))
attempt-err step (lost f) e h = ground (arith, h)

-- A transaction whose body only fails in the database does so too.
pub transact_fails :
    {S : Type 0} (store : SignupStore S) {A : Type 0} (body : S → Outcome (A × S)) (s : S)
    → ((e : Error) → body s ≡ err e → is_failed e ≡ true)
    → (e : Error) → (transact store body s).0 ≡ err e
    → is_failed e ≡ true
unfolding transact
transact_fails store body s fails e h =
    elim (Outcome-cases (attempt beginning_tx (store.begin s))) [
      | inr (f, b) ↦ attempt-err beginning_tx (store.begin s) e (ground (arith, b, h))
      | inl (x, b) ↦ elim (Outcome-cases (body s)) [
        | inr (f, c) ↦ fails e (ground (arith, b, c, h))
        | inl ((a, s'), c) ↦ elim (Outcome-cases (attempt committing_tx (store.commit s'))) [
          | inr (f, d) ↦ attempt-err committing_tx (store.commit s') e (ground (arith, b, c, d, h))
          | inl (y, d) ↦ absurd (ground (arith, b, c, d, h))
        ]
      ]
    ]
