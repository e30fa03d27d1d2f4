-- ===== src/Prelude/Filter.antt =====
-- The where clauses of queries, over lists: selection, existence, the first match, and an update.
use mathlib.Core.Path.{◌≡◌, refl, ap}
use mathlib.Core.Bool.{Bool, true, false, ◌||◌, not}
use mathlib.Core.List.{List, [], ◌∷◌, ◌++◌, map}
use mathlib.Core.Logic.{inl, inr}
use mathlib.Core.Option.{Option, none, some}
use native.Mathlib.Omega.{arith}
use raider_mate_service.Prelude.Tests.{if◌then◌else◌, Bool-cases}
use raider_mate_service.Prelude.Lists.{All}

module _ {ℓ} {A : Type ℓ} where
  unfoldable pub filter_by : (A → Bool) → List A → List A
  filter_by f [] = []
  filter_by f (x ∷ xs) = let rest = filter_by f xs in if f x then x ∷ rest else rest

  unfoldable pub any_by : (A → Bool) → List A → Bool
  any_by f [] = false
  any_by f (x ∷ xs) = f x || any_by f xs

  unfoldable pub find_by : (A → Bool) → List A → Option A
  find_by f [] = none
  find_by f (x ∷ xs) = if f x then some x else find_by f xs

  -- UPDATE … SET … WHERE …
  unfoldable pub update_by : (A → Bool) → (A → A) → List A → List A
  update_by f change [] = []
  update_by f change (x ∷ xs) = (if f x then change x else x) ∷ update_by f change xs

  pub filter_by_keep :
      (f : A → Bool) (x : A) (xs : List A) → f x ≡ true → filter_by f (x ∷ xs) ≡ x ∷ filter_by f xs
  unfolding filter_by
  filter_by_keep f x xs h = rw (filter_by, h) refl

  pub filter_by_skip :
      (f : A → Bool) (x : A) (xs : List A) → f x ≡ false → filter_by f (x ∷ xs) ≡ filter_by f xs
  unfolding filter_by
  filter_by_skip f x xs h = rw (filter_by, h) refl

  pub filter_by-append :
      (f : A → Bool) (xs ys : List A) → filter_by f (xs ++ ys) ≡ filter_by f xs ++ filter_by f ys
  unfolding filter_by
  filter_by-append f [] ys = refl
  filter_by-append f (x ∷ xs) ys = elim (Bool-cases (f x)) [
    | inl e ↦ rw (filter_by, e) (ap (λ zs. x ∷ zs) (filter_by-append f xs ys))
    | inr e ↦ rw (filter_by, e) (filter_by-append f xs ys)
  ]

  pub any_by-append :
      (f : A → Bool) (xs ys : List A) → any_by f (xs ++ ys) ≡ (any_by f xs || any_by f ys)
  unfolding any_by
  any_by-append f [] ys = refl
  any_by-append f (x ∷ xs) ys = ground (arith, any_by-append f xs ys)

  pub filter_by-All : (f : A → Bool) (xs : List A) → All (λ x. f x ≡ true) xs → filter_by f xs ≡ xs
  unfolding filter_by
  filter_by-All f [] h = refl
  filter_by-All f (x ∷ xs) h = rw (h.0, filter_by) (ap (λ ys. x ∷ ys) (filter_by-All f xs h.1))

  pub filter_by-false :
      (f : A → Bool) (xs : List A) → All (λ x. f x ≡ false) xs → filter_by f xs ≡ []
  unfolding filter_by
  filter_by-false f [] h = refl
  filter_by-false f (x ∷ xs) h = rw (filter_by, h.0) (filter_by-false f xs h.1)

  pub filter_by_none : (f : A → Bool) (xs : List A) → any_by f xs ≡ false → filter_by f xs ≡ []
  unfolding filter_by any_by
  filter_by_none f [] h = refl
  filter_by_none f (x ∷ xs) h = ground (arith, filter_by_none f xs)

  -- What a deletion leaves of another selection, when the two are apart.
  pub filter_by-filter_by :
      (f g : A → Bool) (xs : List A)
      → ((x : A) → f x ≡ true → g x ≡ true)
      → filter_by f (filter_by g xs) ≡ filter_by f xs
  unfolding filter_by
  filter_by-filter_by f g [] h = refl
  filter_by-filter_by f g (x ∷ xs) h = elim (Bool-cases (f x)) [
    | inl e ↦ rw (h x e, filter_by, e) (ap (λ ys. x ∷ ys) (filter_by-filter_by f g xs h))
    | inr e ↦ elim (Bool-cases (g x)) [
      | inl k ↦ rw (filter_by, k, e) (filter_by-filter_by f g xs h)
      | inr k ↦ rw (filter_by, k, e) (filter_by-filter_by f g xs h)
    ]
  ]

  pub any_by-filter_by-not :
      (f g : A → Bool) (xs : List A)
      → ((x : A) → f x ≡ true → g x ≡ true)
      → any_by f (filter_by (λ x. not (g x)) xs) ≡ false
  unfolding any_by filter_by
  any_by-filter_by-not f g [] h = refl
  any_by-filter_by-not f g (x ∷ xs) h = elim (Bool-cases (g x)) [
    | inl k ↦ rw (filter_by, k) (any_by-filter_by-not f g xs h)
    | inr k ↦ ground (arith, k, h x, any_by-filter_by-not f g xs h)
  ]

  pub any_by_mono :
      (f g : A → Bool) (xs : List A)
      → ((x : A) → f x ≡ true → g x ≡ true)
      → any_by g xs ≡ false
      → any_by f xs ≡ false
  unfolding any_by
  any_by_mono f g [] h k = refl
  any_by_mono f g (x ∷ xs) h k = ground (arith, h x, any_by_mono f g xs h, k)

  pub find_by-append :
      (f : A → Bool) (xs ys : List A)
      → find_by f (xs ++ ys) ≡ (if any_by f xs then find_by f xs else find_by f ys)
  unfolding find_by any_by
  find_by-append f [] ys = refl
  find_by-append f (x ∷ xs) ys = elim (Bool-cases (f x)) [
    | inl e ↦ rw (find_by, any_by, e) refl
    | inr e ↦ rw (find_by, any_by, e) (find_by-append f xs ys)
  ]

  pub find_by-none : (f : A → Bool) (xs : List A) → any_by f xs ≡ false → find_by f xs ≡ none
  unfolding find_by any_by
  find_by-none f [] h = refl
  find_by-none f (x ∷ xs) h = ground (arith, h, find_by-none f xs)

  pub find_by-some :
      (f : A → Bool) (xs : List A)
      → any_by f xs ≡ true
      → (x : A) × (find_by f xs ≡ some x) × (f x ≡ true)
  unfolding find_by any_by
  find_by-some f [] h = absurd (ground (arith, h))
  find_by-some f (x ∷ xs) h = elim (Bool-cases (f x)) [
    | inl e ↦ (x, rw (find_by, e) refl, e)
    | inr e ↦ let (y, k, m) = find_by-some f xs (ground (arith, e, h)) in (y, rw (find_by, e) k, m)
  ]

  -- The first row that an update touches is still the first.
  pub find_by-update_by :
      (f : A → Bool) (change : A → A) (xs : List A) (found : A)
      → ((x : A) → f x ≡ true → f (change x) ≡ true)
      → find_by f xs ≡ some found
      → find_by f (update_by f change xs) ≡ some (change found)
  unfolding find_by update_by
  find_by-update_by f change [] found g h = absurd (ground (arith, h))
  find_by-update_by f change (x ∷ xs) found g h = elim (Bool-cases (f x)) [
    | inl e ↦
        let same : x ≡ found = ground (arith, e, h) in
        rw (update_by, e, find_by, g x e) (ap (λ y. some (change y)) same)
    | inr e ↦
        rw (update_by, e, find_by, e) (find_by-update_by f change xs found g (ground (arith, e, h)))
  ]

  pub All-filter_by-cons {κ} :
      (P : A → Type κ) (f : A → Bool) (x : A) (xs : List A)
      → (f x ≡ true → P x)
      → All P (filter_by f xs)
      → All P (filter_by f (x ∷ xs))
  unfolding filter_by
  All-filter_by-cons P f x xs h rest = elim (Bool-cases (f x)) [
    | inl e ↦ rw (filter_by, e) (h e, rest)
    | inr e ↦ rw (filter_by, e) rest
  ]

pub any_by-map {ℓ κ} :
    {A : Type ℓ} {B : Type κ} (f : B → Bool) (g : A → B) (xs : List A)
    → any_by f (map g xs) ≡ any_by (λ x. f (g x)) xs
unfolding any_by
any_by-map f g [] = refl
any_by-map f g (x ∷ xs) = ap (λ b. f (g x) || b) (any_by-map f g xs)

pub filter_by-map {ℓ κ} :
    {A : Type ℓ} {B : Type κ} (f : B → Bool) (g : A → B) (xs : List A)
    → filter_by f (map g xs) ≡ map g (filter_by (λ x. f (g x)) xs)
unfolding filter_by
filter_by-map f g [] = refl
filter_by-map f g (x ∷ xs) = elim (Bool-cases (f (g x))) [
  | inl e ↦ rw (filter_by, e) (ap (λ ys. g x ∷ ys) (filter_by-map f g xs))
  | inr e ↦ rw (filter_by, e) (filter_by-map f g xs)
]
