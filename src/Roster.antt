-- ===== src/Roster.antt =====
-- internal/roster: RealmSlug of slug.go. `to_lower` is strings.ToLower, on the code points.
pub mod Slug
mod Examples
use raider_mate_service.Prelude.{
  ℕ, ◌≡◌, Bool, true, false, ◌&&◌, ◌||◌, Option, none, some, List, [], ◌∷◌, ◌==◌, leb,
  if◌then◌else◌,
}

-- The code points '\'' and '’'
abbrev pub is_apostrophe : ℕ → Bool
is_apostrophe r = r == 39 || r == 8217

abbrev pub hyphen : ℕ
hyphen = 45

abbrev pub is_one_of : List ℕ → ℕ → Bool
is_one_of [] r = false
is_one_of (x ∷ xs) r = r == x || is_one_of xs r

-- The table `deaccent`, by the letter that is left; a rune that is not in it stays.
unfoldable pub fold : ℕ → ℕ
fold r =
    if is_one_of (225 ∷ 224 ∷ 226 ∷ 228 ∷ 227 ∷ 229 ∷ []) r
    then 97
    else if is_one_of (233 ∷ 232 ∷ 234 ∷ 235 ∷ []) r
    then 101
    else if is_one_of (237 ∷ 236 ∷ 238 ∷ 239 ∷ []) r
    then 105
    else if is_one_of (243 ∷ 242 ∷ 244 ∷ 246 ∷ 245 ∷ []) r
    then 111
    else if is_one_of (250 ∷ 249 ∷ 251 ∷ 252 ∷ []) r
    then 117
    else if r == 241
    then 110
    else if r == 231
    then 99
    else if is_one_of (253 ∷ 255 ∷ []) r
    then 121
    else r

-- A letter 'a' to 'z' or a digit.
abbrev pub is_plain : ℕ → Bool
is_plain r = (leb 97 r && leb r 122) || (leb 48 r && leb r 57)

abbrev hyphen_if : Bool → List ℕ → List ℕ
hyphen_if true rest = hyphen ∷ rest
hyphen_if false rest = rest

-- The loop. `written` is b.Len() > 0, and what it writes comes before what the later rounds write.
unfoldable pub slug_runes : Bool → Bool → List ℕ → List ℕ
unfolding fold
slug_runes pending_hyphen written [] = []
slug_runes pending_hyphen written (r ∷ runes) = elim (is_apostrophe r) [
  | true ↦ slug_runes pending_hyphen written runes
  | false ↦ elim (is_plain (fold r)) [
    | true ↦ hyphen_if (pending_hyphen && written) (fold r ∷ slug_runes false true runes)
    | false ↦ slug_runes true written runes
  ]
]

-- A text is the list of its code points.
unfoldable pub realm_slug : (List ℕ → List ℕ) → List ℕ → List ℕ
unfolding slug_runes
realm_slug to_lower realm = slug_runes false false (to_lower realm)
