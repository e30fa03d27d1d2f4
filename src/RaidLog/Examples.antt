-- ===== src/RaidLog/Examples.antt =====
-- A log with a name that two characters share, a name that is unique and a stranger.
use raider_mate_service.Prelude.{◌≡◌, ◌↔◌, refl, ℕ, Option, some, none, List, [], ◌∷◌}
use raider_mate_service.Prelude.Filter.{filter_by}
use raider_mate_service.Comp.Manual.{is_seen}
use raider_mate_service.Roster.{realm_slug, slug_runes, fold}
use raider_mate_service.RaidLog.{
  RosterCharacter, Actor, runes_eq, append_at, index_by, only, key_of, match_actor, match_all,
  Matched, attended_from, count_unknown, reckon,
}
use raider_mate_service.RaidLog.Index.{key_of_iff}
use raider_mate_service.RaidLog.Match.{IsTakenFor, match_actor_iff}

abbrev same : List ℕ → List ℕ
same runes = runes

abbrev someone : ℕ → ℕ → ℕ → RosterCharacter
someone id name realm = record { id = id; name = name ∷ []; realm = realm ∷ [] }

-- Two characters called "t", on the realms "a" and "b", and one called "u".
abbrev roster : List RosterCharacter
roster = someone 1 116 97 ∷ someone 2 116 98 ∷ someone 3 117 97 ∷ []

abbrev seen_as : ℕ → List ℕ → Actor
seen_as name server = record { name = name ∷ []; server = server }

-- "t" on "b", "t" on no realm, "u" on no realm, and "v".
abbrev actors : List Actor
actors = seen_as 116 (98 ∷ []) ∷ seen_as 116 [] ∷ seen_as 117 [] ∷ seen_as 118 [] ∷ []

abbrev entry : Actor → Option ℕ → Matched
entry actor id = record { actor = actor; character_id = id }

abbrev matched : List Matched
matched =
    entry (seen_as 116 (98 ∷ [])) (some 2)
    ∷ entry (seen_as 116 []) none
    ∷ entry (seen_as 117 []) (some 3)
    ∷ entry (seen_as 118 []) none
    ∷ []

run_match : match_all same actors roster ≡ matched
unfolding match_all match_actor index_by append_at runes_eq only key_of realm_slug slug_runes fold
run_match = refl

-- "t" on no realm of the roster is for nobody, and "u" is the only one of that name.
match_actor_iff_example :
    (match_actor same roster (seen_as 117 []) ≡ some (someone 3 117 97))
    ↔ IsTakenFor same roster (seen_as 117 []) (someone 3 117 97)
match_actor_iff_example = match_actor_iff same roster (seen_as 117 []) (someone 3 117 97)

run_reckon :
    reckon matched (2 ∷ 1 ∷ [])
    ≡ record { attended = 2 ∷ 3 ∷ []; missing = 1 ∷ []; unknown = 2; overlap = (2, 4) }
unfolding reckon attended_from count_unknown is_seen filter_by
run_reckon = refl

abbrev upper_a : List ℕ
upper_a = 65 ∷ 97 ∷ []

abbrev lower_a : List ℕ
lower_a = 97 ∷ []

abbrev named : List ℕ
named = 116 ∷ []

one_key : key_of same named lower_a ≡ key_of same named upper_a
unfolding key_of realm_slug slug_runes fold
one_key = refl

key_of_iff_example :
    (key_of same named lower_a ≡ key_of same named upper_a)
    ↔ ((named ≡ named) × (realm_slug same lower_a ≡ realm_slug same upper_a))
key_of_iff_example = key_of_iff same named lower_a named upper_a
