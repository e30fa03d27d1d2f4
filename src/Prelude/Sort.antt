-- ===== src/Prelude/Sort.antt =====
-- sort.Slice and sort.SliceStable: a stable insertion sort by a Boolean "less".
use Prim.Native.Nat.{ℕ, suc, ◌+◌}
use mathlib.Core.Path.{◌≡◌, refl, sym, ap, ◌∙◌}
use mathlib.Core.Logic.{◌≢◌, inl, inr}
use mathlib.Core.Bool.{Bool}
use mathlib.Core.List.{List, [], ◌∷◌, ◌++◌, Perm}
use mathlib.Core.List.Perm
use native.Mathlib.Omega.{arith}
use raider_mate_service.Prelude.Tests.{if◌then◌else◌, Bool-cases}
use raider_mate_service.Prelude.Lists.{All, Unique, length}

-- How many items pass a test.
unfoldable pub count_by {ℓ} : {A : Type ℓ} → (A → Bool) → List A → ℕ
count_by f [] = 0
count_by f (x ∷ xs) = let rest = count_by f xs in if f x then suc rest else rest

count_by-cons {ℓ} :
    {A : Type ℓ} (f : A → Bool) (x : A) (xs ys : List A)
    → count_by f xs ≡ count_by f ys
    → count_by f (x ∷ xs) ≡ count_by f (x ∷ ys)
unfolding count_by
count_by-cons f x xs ys h = rw h

pub count_by-append {ℓ} :
    {A : Type ℓ} (f : A → Bool) (xs ys : List A)
    → count_by f (xs ++ ys) ≡ count_by f xs + count_by f ys
unfolding count_by
count_by-append f [] ys = omega arith
count_by-append f (x ∷ xs) ys = ground (arith, count_by-append f xs ys)

module _ {ℓ} {A : Type ℓ} (less : A → A → Bool) where
  -- Before the first item that is not less than `x`.
  unfoldable pub insert_by : A → List A → List A
  insert_by x [] = x ∷ []
  insert_by x (y ∷ ys) = if less y x then y ∷ insert_by x ys else x ∷ y ∷ ys

  unfoldable pub sort_by : List A → List A
  unfolding insert_by
  sort_by [] = []
  sort_by (x ∷ xs) = insert_by x (sort_by xs)

  insert_by-perm : (x : A) (xs : List A) → Perm (insert_by x xs) (x ∷ xs)
  unfolding insert_by
  insert_by-perm x [] = Perm.refl _
  insert_by-perm x (y ∷ ys) = elim (Bool-cases (less y x)) [
    | inl h ↦ rw h (Perm.trans (Perm.cons y (insert_by-perm x ys)) (Perm.swap x y ys))
    | inr h ↦ rw h (Perm.refl _)
  ]

  pub sort_by-perm : (xs : List A) → Perm (sort_by xs) xs
  unfolding sort_by
  sort_by-perm [] = Perm.refl []
  sort_by-perm (x ∷ xs) = Perm.trans (insert_by-perm x (sort_by xs)) (Perm.cons x (sort_by-perm xs))

  length-insert_by : (x : A) (xs : List A) → length (insert_by x xs) ≡ suc (length xs)
  unfolding insert_by
  length-insert_by x [] = refl
  length-insert_by x (y ∷ ys) = ground (arith, length-insert_by x ys)

  pub length-sort_by : (xs : List A) → length (sort_by xs) ≡ length xs
  unfolding sort_by
  length-sort_by [] = refl
  length-sort_by (x ∷ xs) = length-insert_by x (sort_by xs) ∙ ap suc (length-sort_by xs)

  All-insert_by {κ} :
      (P : A → Type κ) (x : A) (xs : List A) → P x → All P xs → All P (insert_by x xs)
  unfolding insert_by
  All-insert_by P x [] p h = (p, tt)
  All-insert_by P x (y ∷ ys) p h = elim (Bool-cases (less y x)) [
    | inl e ↦ rw e (h.0, All-insert_by P x ys p h.1)
    | inr e ↦ rw e (p, h)
  ]

  pub All-sort_by {κ} : (P : A → Type κ) (xs : List A) → All P xs → All P (sort_by xs)
  unfolding sort_by
  All-sort_by P [] h = tt
  All-sort_by P (x ∷ xs) h = All-insert_by P x (sort_by xs) h.0 (All-sort_by P xs h.1)

  count_by-insert_by :
      (f : A → Bool) (x : A) (xs : List A) → count_by f (insert_by x xs) ≡ count_by f (x ∷ xs)
  unfolding insert_by count_by
  count_by-insert_by f x [] = refl
  count_by-insert_by f x (y ∷ ys) = ground (arith, count_by-insert_by f x ys)

  pub count_by-sort_by : (f : A → Bool) (xs : List A) → count_by f (sort_by xs) ≡ count_by f xs
  unfolding sort_by
  count_by-sort_by f [] = refl
  count_by-sort_by f (x ∷ xs) =
      count_by-insert_by f x (sort_by xs) ∙ count_by-cons f x _ _ (count_by-sort_by f xs)

  insert_by-All {κ} :
      (P : A → Type κ) (x : A) (xs : List A) → All P (insert_by x xs) → P x × All P xs
  unfolding insert_by
  insert_by-All P x [] h = h
  insert_by-All P x (y ∷ ys) h = elim (Bool-cases (less y x)) [
    | inl e ↦
        let h' : P y × All P (insert_by x ys) = rw (e, insert_by) at h in
        let (hx, rest) = insert_by-All P x ys h'.1 in (hx, (h'.0, rest))
    | inr e ↦ rw (e, insert_by) at h
  ]

  -- What holds of every sorted item holds of every item.
  pub sort_by-All {κ} : (P : A → Type κ) (xs : List A) → All P (sort_by xs) → All P xs
  unfolding sort_by
  sort_by-All P [] h = tt
  sort_by-All P (x ∷ xs) h =
      let (hx, rest) = insert_by-All P x (sort_by xs) h in (hx, sort_by-All P xs rest)

  module _ (key : A → ℕ) where
    Unique-insert_by :
        (x : A) (xs : List A)
        → All (λ y. key y ≢ key x) xs
        → Unique key xs
        → Unique key (insert_by x xs)
    unfolding insert_by
    Unique-insert_by x [] n u = (tt, tt)
    Unique-insert_by x (y ∷ ys) n u = elim (Bool-cases (less y x)) [
      | inl e ↦ rw e (
        All-insert_by (λ z. key z ≢ key y) x ys (λ q. n.0 (sym q)) u.0,
        Unique-insert_by x ys n.1 u.1,
      )
      | inr e ↦ rw e (n, u)
    ]

    pub Unique-sort_by : (xs : List A) → Unique key xs → Unique key (sort_by xs)
    unfolding sort_by
    Unique-sort_by [] u = tt
    Unique-sort_by (x ∷ xs) u =
        Unique-insert_by x (sort_by xs) (All-sort_by (λ y. key y ≢ key x) xs u.0)
          (Unique-sort_by xs u.1)
