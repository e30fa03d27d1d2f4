-- ===== src/RaidLog/Index.antt =====
-- An index holds the characters of each key, and the key of a name and a realm determines both.
use raider_mate_service.Prelude.{
  ℕ, ◌≡◌, ◌≢◌, ◌↔◌, refl, ap, ap₂, sym, ◌∙◌, inl, inr, true, ◌||◌, List, [], ◌∷◌, ◌++◌, arith, All,
  All-mono, ◌==◌, ==_iff, ==_refl, Bool-cases,
}
use mathlib.Core.List.{append-nil, append_assoc}
use raider_mate_service.Prelude.Filter.{filter_by}
use raider_mate_service.Roster.{realm_slug, is_plain, hyphen}
use raider_mate_service.Roster.Slug.{realm_slug-is_slug, is_slug-All}
use raider_mate_service.RaidLog.{RosterCharacter, runes_eq, Index, append_at, index_by, key_of}

pub runes_eq_refl : (xs : List ℕ) → runes_eq xs xs ≡ true
unfolding runes_eq
runes_eq_refl [] = refl
runes_eq_refl (x ∷ xs) = rw (==_refl x) (runes_eq_refl xs)

pub runes_eq_same : (xs ys : List ℕ) → xs ≡ ys → runes_eq xs ys ≡ true
runes_eq_same xs ys h = ap (runes_eq xs) (sym h) ∙ runes_eq_refl xs

pub runes_eq_sound : (xs ys : List ℕ) → runes_eq xs ys ≡ true → xs ≡ ys
unfolding runes_eq
runes_eq_sound [] [] h = refl
runes_eq_sound (x ∷ xs) (y ∷ ys) h =
    ap₂ (λ z zs. z ∷ zs) ((==_iff x y).0 (ground (arith, h)))
      (runes_eq_sound xs ys (ground (arith, h)))
runes_eq_sound [] (y ∷ ys) h = absurd (ground (arith, h))
runes_eq_sound (x ∷ xs) [] h = absurd (ground (arith, h))

-- What an index answers to a key, after the loop.
pub index_by_lem :
    (key : RosterCharacter → List ℕ) (characters : List RosterCharacter) (index : Index)
    (k : List ℕ)
    → index_by key characters index k ≡ index k ++ filter_by (λ c. runes_eq (key c) k) characters
unfolding index_by append_at filter_by
index_by_lem key [] index k = sym (append-nil (index k))
index_by_lem key (c ∷ characters) index k =
    let rest = index_by_lem key characters (append_at (key c) c index) k in
    elim (Bool-cases (runes_eq (key c) k)) [
      | inl e ↦ rest ∙ rw (e, filter_by) (append_assoc (index k) (c ∷ []) _)
      | inr e ↦ rest ∙ rw (e, filter_by) refl
    ]

no_zero_tail : (ys s t : List ℕ) → All (λ r. r ≢ 0) s → s ≡ ys ++ 0 ∷ t → ⊥
no_zero_tail [] [] t h e = ground (arith, e)
no_zero_tail [] (x ∷ s) t h e = h.0 (ground (arith, e))
no_zero_tail (y ∷ ys) [] t h e = ground (arith, e)
no_zero_tail (y ∷ ys) (x ∷ s) t h e = no_zero_tail ys s t h.1 (ground (arith, e))

-- The last 0 is where the slug begins.
split_at_zero :
    (xs ys s t : List ℕ)
    → All (λ r. r ≢ 0) s
    → All (λ r. r ≢ 0) t
    → xs ++ 0 ∷ s ≡ ys ++ 0 ∷ t
    → (xs ≡ ys) × (s ≡ t)
split_at_zero [] [] s t h k e = (refl, ground (arith, e))
split_at_zero [] (y ∷ ys) s t h k e = absurd (no_zero_tail ys s t h (ground (arith, e)))
split_at_zero (x ∷ xs) [] s t h k e = absurd (no_zero_tail xs t s k (ground (arith, e)))
split_at_zero (x ∷ xs) (y ∷ ys) s t h k e =
    let head : x ≡ y = ground (arith, e) in
    let (p, q) = split_at_zero xs ys s t h k (ground (arith, e)) in (ap₂ (λ z zs. z ∷ zs) head p, q)

slug_no_zero :
    (to_lower : List ℕ → List ℕ) (realm : List ℕ) → All (λ r. r ≢ 0) (realm_slug to_lower realm)
slug_no_zero to_lower realm =
    All-mono (λ r. (is_plain r || r == hyphen) ≡ true) (λ r. r ≢ 0) (λ r h. ground (arith, h)) _
      (is_slug-All _ (realm_slug-is_slug to_lower realm))

-- No name runs into a realm, whatever the names hold.
key_of_injective :
    (to_lower : List ℕ → List ℕ) (name realm name' realm' : List ℕ)
    → key_of to_lower name realm ≡ key_of to_lower name' realm'
    → (to_lower name ≡ to_lower name') × (realm_slug to_lower realm ≡ realm_slug to_lower realm')
unfolding key_of
key_of_injective to_lower name realm name' realm' h =
    split_at_zero _ _ _ _ (slug_no_zero to_lower realm) (slug_no_zero to_lower realm') h

-- Two keys are the same exactly when the lower-case names are the same and the slugs of the realms are the
-- same, whatever the names and the realms hold.
pub key_of_iff :
    (to_lower : List ℕ → List ℕ) (name realm name' realm' : List ℕ)
    → (key_of to_lower name realm ≡ key_of to_lower name' realm') ↔ (
        (to_lower name ≡ to_lower name') × (realm_slug to_lower realm ≡ realm_slug to_lower realm'))
unfolding key_of
key_of_iff to_lower name realm name' realm' =
    (key_of_injective to_lower name realm name' realm', λ (n, r). ap₂ (λ ns rs. ns ++ 0 ∷ rs) n r)
