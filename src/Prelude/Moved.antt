-- ===== src/Prelude/Moved.antt =====
-- Rows that an update moves from one selection to another.
use mathlib.Core.Path.{◌≡◌, refl, ap, sym, ◌∙◌}
use mathlib.Core.Bool.{Bool, true, false}
use mathlib.Core.List.{List, [], ◌∷◌, map}
use mathlib.Core.Logic.{inl, inr}
use mathlib.Core.Option.{Option, none, some}
use native.Mathlib.Omega.{arith}
use raider_mate_service.Prelude.Tests.{if◌then◌else◌, Bool-cases}
use raider_mate_service.Prelude.Filter.{filter_by, any_by, find_by, update_by, filter_by_skip}

abbrev pub first {ℓ} : {A : Type ℓ} → List A → Option A
first [] = none
first (x ∷ xs) = some x

module _ {ℓ} {A : Type ℓ} where
  pub find_by-filter_by : (f : A → Bool) (xs : List A) → find_by f xs ≡ first (filter_by f xs)
  unfolding find_by filter_by
  find_by-filter_by f [] = refl
  find_by-filter_by f (x ∷ xs) = elim (Bool-cases (f x)) [
    | inl e ↦ rw (find_by, filter_by, e) refl
    | inr e ↦ rw (find_by, filter_by, e) (find_by-filter_by f xs)
  ]

  module _ (f : A → Bool) (change : A → A) where
    -- All of the rows that are moved, where they go to an empty selection.
    pub filter_by_moved :
        (g : A → Bool) (xs : List A)
        → ((x : A) → f x ≡ true → g (change x) ≡ true)
        → any_by g xs ≡ false
        → filter_by g (update_by f change xs) ≡ map change (filter_by f xs)
    unfolding filter_by update_by any_by
    filter_by_moved g [] to empty = refl
    filter_by_moved g (x ∷ xs) to empty =
        let rest = filter_by_moved g xs to (ground (arith, empty)) in
        elim (Bool-cases (f x)) [
          | inl e ↦ rw (update_by, e, filter_by, to x e) (ap (λ ys. change x ∷ ys) rest)
          | inr e ↦
              let away : g x ≡ false = ground (arith, empty) in
              let same : (if f x then change x else x) ≡ x = rw e refl in
              ap (λ y. filter_by g (y ∷ update_by f change xs)) same
              ∙ filter_by_skip g x (update_by f change xs) away
              ∙ rest
              ∙ ap (map change) (sym (filter_by_skip f x xs e))
        ]

    -- Nothing is left of the selection that they leave.
    pub filter_by_left :
        (xs : List A)
        → ((x : A) → f x ≡ true → f (change x) ≡ false)
        → filter_by f (update_by f change xs) ≡ []
    unfolding filter_by update_by
    filter_by_left [] away = refl
    filter_by_left (x ∷ xs) away = elim (Bool-cases (f x)) [
      | inl e ↦ rw (update_by, e, filter_by, away x e) (filter_by_left xs away)
      | inr e ↦ rw (update_by, e, filter_by, e) (filter_by_left xs away)
    ]

    -- A selection that they are neither in before nor after.
    pub filter_by_elsewhere :
        (g : A → Bool) (xs : List A)
        → ((x : A) → f x ≡ true → g x ≡ false)
        → ((x : A) → f x ≡ true → g (change x) ≡ false)
        → filter_by g (update_by f change xs) ≡ filter_by g xs
    unfolding filter_by update_by
    filter_by_elsewhere g [] before after = refl
    filter_by_elsewhere g (x ∷ xs) before after =
        let rest = filter_by_elsewhere g xs before after in
        elim (Bool-cases (f x)) [
          | inl e ↦ rw (update_by, e, filter_by, after x e, before x e) rest
          | inr e ↦ elim (Bool-cases (g x)) [
            | inl k ↦ rw (update_by, e, filter_by, k) (ap (λ ys. x ∷ ys) rest)
            | inr k ↦ rw (update_by, e, filter_by, k) rest
          ]
        ]
