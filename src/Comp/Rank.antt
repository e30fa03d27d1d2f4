-- ===== src/Comp/Rank.antt =====
-- The ranking of candidates and of signups: candidate, rankCandidates, lessCandidate, signupRanks
-- of internal/comp/assign.go.
pub mod Order
use raider_mate_service.Prelude.{
  ℕ, suc, ◌+◌, Bool, true, false, not, Option, none, some, List, [], ◌∷◌, ltb, ◌==◌, if◌then◌else◌,
}
use raider_mate_service.Prelude.Sort.{sort_by}
use raider_mate_service.Prelude.Map.{Assoc, lookup, insert}
use raider_mate_service.Comp.Types.{Raider}

pub record Candidate : Type 0 where
  pub raider : Raider
  pub priority : ℕ

abbrev pub bool_eq : Bool → Bool → Bool
bool_eq true b = b
bool_eq false b = not b

-- ranks[id], 0 where there is none.
unfoldable pub rank_of : Assoc ℕ → ℕ → ℕ
rank_of ranks id = elim (lookup id ranks) [ none ↦ 0 | some rank ↦ rank ]

-- `rank a` and `rank b` are `ranks[a.raider.CharacterID]` and `ranks[b.raider.CharacterID]`.
unfoldable pub less_candidate : Assoc ℕ → Candidate → Candidate → Bool
less_candidate ranks a b =
    let rank_a = rank_of ranks a.raider.character_id in
    let rank_b = rank_of ranks b.raider.character_id in
    if not (a.priority == b.priority)
    then ltb a.priority b.priority
    else if not (bool_eq a.raider.is_main b.raider.is_main)
    then a.raider.is_main
    else if not (a.raider.score == b.raider.score)
    then ltb b.raider.score a.raider.score
    else if not (rank_a == rank_b)
    then ltb rank_a rank_b
    else ltb a.raider.character_id b.raider.character_id

unfoldable pub rank_candidates : Assoc ℕ → List Candidate → List Candidate
unfolding less_candidate
rank_candidates ranks cands = sort_by (less_candidate ranks) cands

-- Earlier signup first, ids break ties.
unfoldable pub signed_up_before : Raider → Raider → Bool
signed_up_before a b =
    if not (a.signed_up_at == b.signed_up_at)
    then ltb a.signed_up_at b.signed_up_at
    else ltb a.character_id b.character_id

-- for i, r := range sorted { ranks[r.CharacterID] = i }
number_from : ℕ → List Raider → Assoc ℕ → Assoc ℕ
number_from i [] ranks = ranks
number_from i (r ∷ rs) ranks = number_from (suc i) rs (insert r.character_id i ranks)

unfoldable pub signup_ranks : List Raider → Assoc ℕ
unfolding signed_up_before number_from
signup_ranks raiders = number_from 0 (sort_by signed_up_before raiders) []
