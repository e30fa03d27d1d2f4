-- ===== src/Prelude/Map.antt =====
-- Go maps keyed by an id, as association lists. The program reads them by key, copies them and
-- counts their values, so the order of the entries is not observable.
use Prim.Native.Nat.{ℕ, suc, ◌≤◌}
use mathlib.Core.Path.{◌≡◌, refl, ap, subst}
use mathlib.Core.Logic.{◌≢◌, inl, inr}
use mathlib.Core.Bool.{Bool, true}
use mathlib.Core.List.{List, [], ◌∷◌}
use mathlib.Core.Option.{Option, none, some}
use native.Mathlib.Omega.{arith}
use raider_mate_service.Prelude.Tests.{if◌then◌else◌, ◌==◌, Bool-cases, ==_iff}
use raider_mate_service.Prelude.Lists.{All, Unique, length}

abbrev pub Assoc {ℓ} : Type ℓ → Type ℓ
Assoc V = List (ℕ × V)

abbrev pub entry_key {ℓ} : {V : Type ℓ} → ℕ × V → ℕ
entry_key e = e.0

module _ {ℓ} {V : Type ℓ} where
  -- v, ok := m[k]
  unfoldable pub lookup : ℕ → Assoc V → Option V
  lookup k [] = none
  lookup k ((j, v) ∷ m) = if j == k then some v else lookup k m

  -- delete(m, k)
  unfoldable pub delete : ℕ → Assoc V → Assoc V
  delete k [] = []
  delete k ((j, v) ∷ m) = let rest = delete k m in if j == k then rest else (j, v) ∷ rest

  -- m[k] = v
  unfoldable pub insert : ℕ → V → Assoc V → Assoc V
  unfolding delete
  insert k v m = (k, v) ∷ delete k m

  pub lookup-delete :
      (k j : ℕ) (m : Assoc V) → lookup j (delete k m) ≡ (if k == j then none else lookup j m)
  unfolding lookup delete
  lookup-delete k j [] = ground arith
  lookup-delete k j ((i, v) ∷ m) = ground (arith, lookup-delete k j m)

  pub delete_absent : (k : ℕ) (m : Assoc V) → lookup k m ≡ none → delete k m ≡ m
  unfolding lookup delete
  delete_absent k [] h = refl
  delete_absent k ((i, v) ∷ m) h = ground (arith, delete_absent k m)

  pub lookup-insert :
      (k j : ℕ) (v : V) (m : Assoc V)
      → lookup j (insert k v m) ≡ (if k == j then some v else lookup j m)
  unfolding lookup insert
  lookup-insert k j v m = ground (arith, lookup-delete k j m)

  pub All-delete {κ} : (P : ℕ × V → Type κ) (k : ℕ) (m : Assoc V) → All P m → All P (delete k m)
  unfolding delete
  All-delete P k [] h = tt
  All-delete P k ((i, v) ∷ m) h = elim (Bool-cases (i == k)) [
    | inl e ↦ rw e (All-delete P k m h.1)
    | inr e ↦ rw e (h.0, All-delete P k m h.1)
  ]

  pub All-ne_of_absent : (k : ℕ) (m : Assoc V) → lookup k m ≡ none → All (λ e. entry_key e ≢ k) m
  unfolding lookup
  All-ne_of_absent k [] h = tt
  All-ne_of_absent k ((i, v) ∷ m) h = (ground arith, All-ne_of_absent k m (ground arith))

  absent_of_All : (k : ℕ) (m : Assoc V) → All (λ e. entry_key e ≢ k) m → lookup k m ≡ none
  unfolding lookup
  absent_of_All k [] h = refl
  absent_of_All k ((i, v) ∷ m) h = ground (arith, absent_of_All k m h.1, h.0)

  pub Unique-delete : (k : ℕ) (m : Assoc V) → Unique entry_key m → Unique entry_key (delete k m)
  unfolding delete
  Unique-delete k [] u = tt
  Unique-delete k ((i, v) ∷ m) u = elim (Bool-cases (i == k)) [
    | inl e ↦ rw e (Unique-delete k m u.1)
    | inr e ↦ rw e (All-delete (λ e. entry_key e ≢ i) k m u.0, Unique-delete k m u.1)
  ]

  pub delete_self : (k : ℕ) (m : Assoc V) → lookup k (delete k m) ≡ none
  delete_self k m = ground (arith, lookup-delete k k m)

  -- A write under an absent key.
  pub insert_absent : (k : ℕ) (v : V) (m : Assoc V) → lookup k m ≡ none → insert k v m ≡ (k, v) ∷ m
  unfolding insert
  insert_absent k v m h = rw (delete_absent k m h)

  pub Unique-insert :
      (k : ℕ) (v : V) (m : Assoc V) → Unique entry_key m → Unique entry_key (insert k v m)
  unfolding insert
  Unique-insert k v m u = (All-ne_of_absent k (delete k m) (delete_self k m), Unique-delete k m u)

  -- The first value with a key is the value of an entry.
  pub lookup-All {κ} :
      (P : ℕ × V → Type κ) (k : ℕ) (m : Assoc V) {v : V} → All P m → lookup k m ≡ some v → P (k, v)
  unfolding lookup
  lookup-All P k [] h e = cc
  lookup-All P k ((i, w) ∷ m) {v} h e = elim (Bool-cases (i == k)) [
    | inl q ↦
        let same : ◌≡◌ {A = ℕ × V} (i, w) (k, v) = ground (arith, ==_iff i k) in subst P same h.0
    | inr q ↦ lookup-All P k m h.1 (rw q at e)
  ]

  -- What a deletion takes from a count over the entries.
  unfoldable pub count_if : (ℕ × V → Bool) → Assoc V → ℕ
  count_if f [] = 0
  count_if f (e ∷ m) = let rest = count_if f m in if f e then suc rest else rest

  pub count_if-delete :
      (f : ℕ × V → Bool) (k : ℕ) (m : Assoc V) {v : V}
      → Unique entry_key m
      → lookup k m ≡ some v
      → count_if f m ≡ (if f (k, v) then suc (count_if f (delete k m)) else count_if f (delete k m))
  unfolding count_if delete lookup
  count_if-delete f k [] u e = cc
  count_if-delete f k ((i, w) ∷ m) {v} u e = elim (Bool-cases (i == k)) [
    | inl q ↦
        let same : ◌≡◌ {A = ℕ × V} (i, w) (k, v) = ground (arith, ==_iff i k) in
        let ik : i ≡ k = (==_iff i k).0 q in
        let gone : delete k m ≡ m =
          delete_absent k m
            (absent_of_All k m (subst (λ j. All (λ e. entry_key e ≢ j) m) ik u.0)) in
        rw q (rw (gone, ← same))
    | inr q ↦ let rest = count_if-delete f k m u.1 (rw q at e) in rw q (ground (arith, rest))
  ]

  pub count_if-insert :
      (f : ℕ × V → Bool) (k : ℕ) (v : V) (m : Assoc V)
      → lookup k m ≡ none
      → count_if f (insert k v m) ≡ (if f (k, v) then suc (count_if f m) else count_if f m)
  unfolding count_if
  count_if-insert f k v m h = rw (insert_absent k v m h)

  pub count_if-delete_le :
      (f : ℕ × V → Bool) (k : ℕ) (m : Assoc V) → count_if f (delete k m) ≤ count_if f m
  unfolding count_if delete
  count_if-delete_le f k [] = omega arith
  count_if-delete_le f k ((i, w) ∷ m) = ground (arith, count_if-delete_le f k m)

  pub count_if-true : (m : Assoc V) → count_if (λ e. true) m ≡ length m
  unfolding count_if
  count_if-true [] = refl
  count_if-true (e ∷ m) = ap suc (count_if-true m)
