-- ===== src/RaidLog.antt =====
-- internal/raidlog/match.go: pairing the actors of a log with the roster, and the turnout. `to_lower` is
-- strings.ToLower, on code points.
pub mod Index
pub mod Only
pub mod Match
pub mod Reckon
mod Examples
use raider_mate_service.Prelude.{
  ℕ, suc, ◌-◌, Bool, true, false, ◌&&◌, not, Option, none, some, List, [], ◌∷◌, ◌++◌, map, length,
  ◌==◌, if◌then◌else◌,
}
use raider_mate_service.Prelude.Filter.{filter_by}
use raider_mate_service.Comp.Manual.{is_seen}
use raider_mate_service.Roster.{realm_slug}

pub record RosterCharacter : Type 0 where
  pub id : ℕ
  pub name : List ℕ
  pub realm : List ℕ

-- warcraftlogs.Actor, as far as matching reads it.
pub record Actor : Type 0 where
  pub name : List ℕ
  pub server : List ℕ

pub record Matched : Type 0 where
  pub actor : Actor
  pub character_id : Option ℕ

-- Whether two texts are the same.
unfoldable pub runes_eq : List ℕ → List ℕ → Bool
runes_eq [] [] = true
runes_eq (x ∷ xs) (y ∷ ys) = x == y && runes_eq xs ys
runes_eq _ _ = false

-- map[string][]RosterCharacter
abbrev pub Index : Type 0
Index = List ℕ → List RosterCharacter

unfoldable pub append_at : List ℕ → RosterCharacter → Index → Index
unfolding runes_eq
append_at key c index k = if runes_eq key k then index k ++ c ∷ [] else index k

-- The loop that fills an index.
unfoldable pub index_by : (RosterCharacter → List ℕ) → List RosterCharacter → Index → Index
unfolding append_at
index_by key [] index = index
index_by key (c ∷ characters) index = index_by key characters (append_at (key c) c index)

abbrev pub empty_index : Index
empty_index k = []

unfoldable pub only : List RosterCharacter → Option RosterCharacter
only (c ∷ []) = some c
only _ = none

abbrev pub first_of : Option RosterCharacter → Option RosterCharacter → Option RosterCharacter
first_of (some c) other = some c
first_of none other = other

abbrev pub id_of : Option RosterCharacter → Option ℕ
id_of none = none
id_of (some c) = some c.id

module _ (to_lower : List ℕ → List ℕ) where
  -- name + "\x00" + realm
  unfoldable pub key_of : List ℕ → List ℕ → List ℕ
  key_of name realm = to_lower name ++ 0 ∷ realm_slug to_lower realm

  unfoldable pub match_actor : List RosterCharacter → Actor → Option RosterCharacter
  unfolding index_by only key_of
  match_actor characters actor =
      let by_name_realm = index_by (λ c. key_of c.name c.realm) characters empty_index in
      let by_name = index_by (λ c. to_lower c.name) characters empty_index in
      first_of (only (by_name_realm (key_of actor.name actor.server)))
        (only (by_name (to_lower actor.name)))

  unfoldable pub match_all : List Actor → List RosterCharacter → List Matched
  unfolding match_actor
  match_all actors characters =
      map (λ actor. record { actor = actor; character_id = id_of (match_actor characters actor) })
        actors

-- `overlap` is a fraction: matched actors over actors, and 0 over 0 where there are none.
pub record Turnout : Type 0 where
  pub attended : List ℕ
  pub missing : List ℕ
  pub unknown : ℕ
  pub overlap : ℕ × ℕ

-- The ids that the loop appends to Attended, when `seen` is there already.
unfoldable pub attended_from : List ℕ → List Matched → List ℕ
unfolding is_seen
attended_from seen [] = []
attended_from seen (m ∷ matched) = elim m.character_id [
  | none ↦ attended_from seen matched
  | some id ↦ elim (is_seen id seen) [
    | true ↦ attended_from seen matched
    | false ↦ id ∷ attended_from (id ∷ seen) matched
  ]
]

unfoldable pub count_unknown : List Matched → ℕ
count_unknown [] = 0
count_unknown (m ∷ matched) = elim m.character_id [
  | none ↦ suc (count_unknown matched)
  | some _ ↦ count_unknown matched
]

unfoldable pub reckon : List Matched → List ℕ → Turnout
unfolding attended_from count_unknown is_seen
reckon matched expected =
    let attended = attended_from [] matched in
    record {
      attended = attended;
      missing = filter_by (λ id. not (is_seen id attended)) expected;
      unknown = count_unknown matched;
      overlap = (length matched - count_unknown matched, length matched);
    }
