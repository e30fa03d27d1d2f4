-- ===== src/Roster/Examples.antt =====
-- Slugs of a few realms, with a ToLower for ASCII.
use raider_mate_service.Prelude.{
  ℕ, ◌+◌, ◌≡◌, refl, true, ◌&&◌, List, [], ◌∷◌, arith, leb, if◌then◌else◌,
}
use raider_mate_service.Roster.{fold, slug_runes, realm_slug}
use raider_mate_service.Roster.Slug.{is_slug, KeepsLower, realm_slug-is_slug, realm_slug_idempotent}

abbrev to_lower : List ℕ → List ℕ
to_lower [] = []
to_lower (r ∷ runes) = (if leb 65 r && leb r 90 then r + 32 else r) ∷ to_lower runes

to_lower-KeepsLower : KeepsLower to_lower
to_lower-KeepsLower [] h = refl
to_lower-KeepsLower (r ∷ runes) h =
    let same : (if leb 65 r && leb r 90 then r + 32 else r) ≡ r = ground (arith, h.0) in
    λ i. same i ∷ to_lower-KeepsLower runes h.1 i

-- "Aé 'B!"
abbrev realm : List ℕ
realm = 65 ∷ 233 ∷ 32 ∷ 39 ∷ 66 ∷ 33 ∷ []

-- "ae-b"
run_slug : realm_slug to_lower realm ≡ 97 ∷ 101 ∷ 45 ∷ 98 ∷ []
unfolding realm_slug slug_runes fold
run_slug = refl

realm_slug-is_slug_example : is_slug (realm_slug to_lower realm) ≡ true
realm_slug-is_slug_example = realm_slug-is_slug to_lower realm

realm_slug_idempotent_example :
    realm_slug to_lower (realm_slug to_lower realm) ≡ realm_slug to_lower realm
realm_slug_idempotent_example = realm_slug_idempotent to_lower realm to_lower-KeepsLower
