-- ===== src/Prelude/SortOrder.antt =====
-- Sorting by a strict weak order that separates distinct keys: the result does not depend on the
-- order of the input.
use mathlib.Core.Path.{◌≡◌, refl, subst, ap₂, ◌∙◌}
use mathlib.Core.Logic.{◌≢◌, ∥∥₁_elim}
use mathlib.Core.Bool.{Bool, true, false, not}
use mathlib.Core.List
use mathlib.Core.List.{List, [], ◌∷◌, Perm, Permᴰ}
use native.Mathlib.Omega.{arith}
use Prim.Native.Nat.{ℕ}
use raider_mate_service.Prelude.Lists.{All, Unique}
use raider_mate_service.Prelude.Sort.{insert_by, sort_by}

pub record Separates {ℓ} {A : Type ℓ} (less : A → A → Bool) (key : A → ℕ) : Type ℓ where
  pub total : (x y : A) → key x ≢ key y → less x y ≡ not (less y x)
  pub weak : (x y z : A) → less z x ≡ true → less z y ≡ false → less y x ≡ true

All-permᴰ {ℓ κ} : {A : Type ℓ} (P : A → Type κ) {xs ys : List A} → Permᴰ xs ys → All P xs → All P ys
All-permᴰ P Permᴰ.nil h = h
All-permᴰ P (Permᴰ.cons x p) h = (subst P x h.0, All-permᴰ P p h.1)
All-permᴰ P (Permᴰ.swap x y) h = (subst P y h.1.0, (subst P x h.0, h.1.1))
All-permᴰ P (Permᴰ.trans p q) h = All-permᴰ P q (All-permᴰ P p h)

module _ {ℓ} {A : Type ℓ} (key : A → ℕ) where
  Unique-permᴰ : {xs ys : List A} → Permᴰ xs ys → Unique key xs → Unique key ys
  Unique-permᴰ Permᴰ.nil u = u
  Unique-permᴰ (Permᴰ.cons {l₁ = l} x p) u = (
    All-permᴰ (λ y. key y ≢ key _) p (subst (λ c. All (λ y. key y ≢ key c) l) x u.0),
    Unique-permᴰ p u.1,
  )
  Unique-permᴰ (Permᴰ.swap {l = l} x y) u = (
    ((λ e. u.0.0 (cc)), subst (λ c. All (λ z. key z ≢ key c) l) y u.1.0),
    (subst (λ c. All (λ z. key z ≢ key c) l) x u.0.1, u.1.1),
  )
  Unique-permᴰ (Permᴰ.trans p q) u = Unique-permᴰ q (Unique-permᴰ p u)

module _ {ℓ} {A : Type ℓ} {less : A → A → Bool} {key : A → ℕ} (o : Separates less key) where
  insert_by_comm :
      (x y : A) (l : List A)
      → key x ≢ key y
      → insert_by less x (insert_by less y l) ≡ insert_by less y (insert_by less x l)
  unfolding insert_by
  insert_by_comm x y [] n = ground (arith, o.total x y n)
  insert_by_comm x y (z ∷ zs) n =
      ground (arith, o.total x y n, o.weak x y z, o.weak y x z, insert_by_comm x y zs n)

  sort_by-permᴰ : {xs ys : List A} → Permᴰ xs ys → Unique key xs → sort_by less xs ≡ sort_by less ys
  unfolding sort_by
  sort_by-permᴰ Permᴰ.nil u = refl
  sort_by-permᴰ (Permᴰ.cons x p) u = ap₂ (insert_by less) x (sort_by-permᴰ p u.1)
  sort_by-permᴰ (Permᴰ.swap {l = l} x y) u =
      rw (x, y) (insert_by_comm _ _ (sort_by less l) (λ e. u.0.0 (cc)))
  sort_by-permᴰ (Permᴰ.trans p q) u = sort_by-permᴰ p u ∙ sort_by-permᴰ q (Unique-permᴰ key p u)

  -- Two lists with the same items sort to the same list.
  pub sort_by-perm_eq :
      {xs ys : List A} → IsSet A → Perm xs ys → Unique key xs → sort_by less xs ≡ sort_by less ys
  sort_by-perm_eq s p u = ∥∥₁_elim p (List.is_set s _ _) (λ q. sort_by-permᴰ q u)
