-- ===== src/Comp/Rank/Order.antt =====
-- The rankings are strict total orders on distinct characters, so a sort by them has one result.
use mathlib.Core.List.{Perm}
use mathlib.Core.HLevel.{prop→set}
use text.Mathlib.TextEquality.{IsScalar-prop}
use raider_mate_service.Prelude.{ℕ, ◌≡◌, List, [], arith, ap}
use raider_mate_service.Prelude.{Unique}
use raider_mate_service.Prelude.SortOrder.{Separates, sort_by-perm_eq}
use raider_mate_service.Prelude.Map.{Assoc}
use raider_mate_service.Comp.Types.{Raider}
use raider_mate_service.Comp.Rank.{
  Candidate, less_candidate, rank_candidates, signed_up_before, number_from, signup_ranks,
}

abbrev pub candidate_id : Candidate → ℕ
candidate_id c = c.raider.character_id

abbrev pub raider_id : Raider → ℕ
raider_id r = r.character_id

pub Raider-set : IsSet Raider
Raider-set = hlevel (λ (n : ℕ). prop→set (IsScalar-prop n))

pub Candidate-set : IsSet Candidate
Candidate-set = hlevel Raider-set

pub less_candidate-Separates : (ranks : Assoc ℕ) → Separates (less_candidate ranks) candidate_id
unfolding less_candidate
less_candidate-Separates ranks = record {
  total = λ x y n. ground arith;
  weak = λ x y z p q. ground arith;
}

pub signed_up_before-Separates : Separates signed_up_before raider_id
unfolding signed_up_before
signed_up_before-Separates = record {
  total = λ x y n. ground arith;
  weak = λ x y z p q. ground arith;
}

-- The ranking of distinct candidates does not depend on the order they were collected in.
pub rank_candidates_order :
    (ranks : Assoc ℕ) {cs ds : List Candidate}
    → Perm cs ds
    → Unique candidate_id cs
    → rank_candidates ranks cs ≡ rank_candidates ranks ds
unfolding rank_candidates
rank_candidates_order ranks p u = sort_by-perm_eq (less_candidate-Separates ranks) Candidate-set p u

pub signup_ranks_order :
    {rs ss : List Raider} → Perm rs ss → Unique raider_id rs → signup_ranks rs ≡ signup_ranks ss
unfolding signup_ranks
signup_ranks_order p u =
    ap (λ (l : List Raider). number_from 0 l [])
      (sort_by-perm_eq signed_up_before-Separates Raider-set p u)
