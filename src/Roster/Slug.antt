-- ===== src/Roster/Slug.antt =====
-- Slugs are words of plain runes between single hyphens, and a slug is its own slug.
use raider_mate_service.Prelude.{
  ℕ, ◌≡◌, refl, ap, sym, subst, ◌∙◌, Bool, true, false, ◌&&◌, ◌||◌, not, List, [], ◌∷◌, arith, All,
  ◌==◌, Bool-cases, inl, inr,
}
use raider_mate_service.Roster.{
  is_apostrophe, hyphen, hyphen_if, fold, is_plain, slug_runes, realm_slug,
}

-- Words of plain runes with one hyphen between two words; `in_word` is after a word's rune.
unfoldable pub are_words : Bool → List ℕ → Bool
are_words in_word [] = in_word
are_words in_word (r ∷ runes) = elim (is_plain r) [
  | true ↦ are_words true runes
  | false ↦ in_word && r == hyphen && are_words false runes
]

unfoldable pub is_slug : List ℕ → Bool
unfolding are_words
is_slug [] = true
is_slug (r ∷ runes) = are_words false (r ∷ runes)

slug_runes-are_words :
    (pending : Bool) (runes : List ℕ) → are_words true (slug_runes pending true runes) ≡ true
unfolding slug_runes are_words
slug_runes-are_words pending [] = refl
slug_runes-are_words pending (r ∷ runes) = elim (Bool-cases (is_apostrophe r)) [
  | inl a ↦ rw (slug_runes, a) (slug_runes-are_words pending runes)
  | inr a ↦ elim (Bool-cases (is_plain (fold r))) [
    | inr p ↦ rw (slug_runes, a, p) (slug_runes-are_words true runes)
    | inl p ↦ elim (Bool-cases pending) [
      | inl k ↦ rw (slug_runes, a, p, k, are_words, p) (slug_runes-are_words false runes)
      | inr k ↦ rw (slug_runes, a, p, k, are_words, p) (slug_runes-are_words false runes)
    ]
  ]
]

slug_runes-is_slug :
    (pending : Bool) (runes : List ℕ) → is_slug (slug_runes pending false runes) ≡ true
unfolding slug_runes is_slug are_words
slug_runes-is_slug pending [] = refl
slug_runes-is_slug pending (r ∷ runes) = elim (Bool-cases (is_apostrophe r)) [
  | inl a ↦ rw (slug_runes, a) (slug_runes-is_slug pending runes)
  | inr a ↦ elim (Bool-cases (is_plain (fold r))) [
    | inr p ↦ rw (slug_runes, a, p) (slug_runes-is_slug true runes)
    | inl p ↦ elim (Bool-cases pending) [
      | inl k ↦ rw (slug_runes, a, p, k, is_slug, are_words, p) (slug_runes-are_words false runes)
      | inr k ↦ rw (slug_runes, a, p, k, is_slug, are_words, p) (slug_runes-are_words false runes)
    ]
  ]
]

-- Whatever the realm, its slug is empty or made of words of letters a to z and digits, with one hyphen
-- between two words and none at either end.
pub realm_slug-is_slug :
    (to_lower : List ℕ → List ℕ) (realm : List ℕ) → is_slug (realm_slug to_lower realm) ≡ true
unfolding realm_slug
realm_slug-is_slug to_lower realm = slug_runes-is_slug false (to_lower realm)

-- A plain rune is no apostrophe and has no accent.
plain_kept : (r : ℕ) → is_plain r ≡ true → (is_apostrophe r ≡ false) × (fold r ≡ r)
unfolding fold
plain_kept r h = (ground (arith, h), ground (arith, h))

slug_runes_plain :
    (pending written : Bool) (r : ℕ) (runes : List ℕ)
    → is_plain r ≡ true
    → slug_runes pending written (r ∷ runes)
      ≡ hyphen_if (pending && written) (r ∷ slug_runes false true runes)
unfolding slug_runes
slug_runes_plain pending written r runes p =
    let (a, f) = plain_kept r p in
    let p' : is_plain (fold r) ≡ true = subst (λ x. is_plain x ≡ true) (sym f) p in
    rw (slug_runes, a, p')
      (ap (λ x. hyphen_if (pending && written) (x ∷ slug_runes false true runes)) f)

slug_runes-hyphen :
    (pending written : Bool) (runes : List ℕ)
    → slug_runes pending written (hyphen ∷ runes) ≡ slug_runes true written runes
unfolding slug_runes fold
slug_runes-hyphen pending written runes = refl

-- A slug is read without a change, after a word and after a hyphen.
slug_runes_self :
    (in_word : Bool) (runes : List ℕ)
    → are_words in_word runes ≡ true
    → slug_runes (not in_word) true runes ≡ hyphen_if (not in_word) runes
unfolding slug_runes are_words
slug_runes_self true [] h = refl
slug_runes_self false [] h = absurd (ground (arith, h))
slug_runes_self true (r ∷ runes) h = elim (Bool-cases (is_plain r)) [
  | inl p ↦
      slug_runes_plain false true r runes p
      ∙ ap (λ rs. r ∷ rs) (slug_runes_self true runes (rw (are_words, p) at h))
  | inr p ↦
      let e : r ≡ hyphen = ground (arith, p, h) in
      let rest : are_words false runes ≡ true = ground (arith, p, h) in
      ap (λ x. slug_runes false true (x ∷ runes)) e
      ∙ slug_runes-hyphen false true runes
      ∙ slug_runes_self false runes rest
      ∙ ap (λ x. x ∷ runes) (sym e)
]
slug_runes_self false (r ∷ runes) h = elim (Bool-cases (is_plain r)) [
  | inl p ↦
      slug_runes_plain true true r runes p
      ∙ ap (λ rs. hyphen ∷ r ∷ rs) (slug_runes_self true runes (rw (are_words, p) at h))
  | inr p ↦ absurd (ground (arith, p, h))
]

slug_self : (runes : List ℕ) → is_slug runes ≡ true → slug_runes false false runes ≡ runes
unfolding slug_runes is_slug are_words
slug_self [] h = refl
slug_self (r ∷ runes) h = elim (Bool-cases (is_plain r)) [
  | inl p ↦
      slug_runes_plain false false r runes p
      ∙ ap (λ rs. r ∷ rs) (slug_runes_self true runes (rw (is_slug, are_words, p) at h))
  | inr p ↦ absurd (ground (arith, p, h))
]

-- What RealmSlug relies on in strings.ToLower: lower-case ASCII letters, digits and hyphens stay.
abbrev pub KeepsLower : (List ℕ → List ℕ) → Type 0
KeepsLower to_lower =
    (runes : List ℕ) → All (λ r. (is_plain r || r == hyphen) ≡ true) runes → to_lower runes ≡ runes

are_words-All :
    (in_word : Bool) (runes : List ℕ)
    → are_words in_word runes ≡ true
    → All (λ r. (is_plain r || r == hyphen) ≡ true) runes
unfolding are_words
are_words-All in_word [] h = tt
are_words-All in_word (r ∷ runes) h = elim (Bool-cases (is_plain r)) [
  | inl p ↦ (rw p refl, are_words-All true runes (rw (are_words, p) at h))
  | inr p ↦ (ground (arith, p, h), are_words-All false runes (ground (arith, p, h)))
]

pub is_slug-All :
    (runes : List ℕ) → is_slug runes ≡ true → All (λ r. (is_plain r || r == hyphen) ≡ true) runes
unfolding is_slug
is_slug-All [] h = tt
is_slug-All (r ∷ runes) h = are_words-All false (r ∷ runes) h

-- The slug of a slug is the slug, when ToLower leaves lower-case ASCII as it is.
pub realm_slug_idempotent :
    (to_lower : List ℕ → List ℕ) (realm : List ℕ)
    → KeepsLower to_lower
    → realm_slug to_lower (realm_slug to_lower realm) ≡ realm_slug to_lower realm
unfolding realm_slug
realm_slug_idempotent to_lower realm keeps =
    let slug = realm_slug to_lower realm in
    let ok : is_slug slug ≡ true = realm_slug-is_slug to_lower realm in
    ap (slug_runes false false) (keeps slug (is_slug-All slug ok)) ∙ slug_self slug ok
