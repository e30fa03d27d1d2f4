-- ===== src/Comp/Fill/Candidates.antt =====
-- Who the passes consider: the free raiders and the movable ones.
use raider_mate_service.Prelude.{
  ℕ, ◌≡◌, ◌≢◌, false, Option, none, some, List, [], ◌∷◌, arith, All, All-mono, All-and, Unique,
  Bool-cases, Option-cases, inl, inr, ==_refl,
}
use raider_mate_service.Prelude.Map.{Assoc, lookup}
use raider_mate_service.Prelude.Sort.{All-sort_by, Unique-sort_by}
use raider_mate_service.Comp.Types.{Raider, Group}
use raider_mate_service.Comp.Roles.{group_priority, is_ok}
use raider_mate_service.Comp.Rank.{Candidate, less_candidate, rank_candidates}
use raider_mate_service.Comp.Rank.Order.{raider_id, candidate_id}
use raider_mate_service.Comp.Fill.{
  Placement, Assigned, group_eq, free_candidates, movable_candidates,
}
use raider_mate_service.Comp.Fill.Sound.{find_raider}

-- In a pool of distinct characters each raider is found under their id.
pub find_raider_self :
    (raiders : List Raider)
    → Unique raider_id raiders
    → All (λ r. find_raider raiders r.character_id ≡ some r) raiders
unfolding find_raider
find_raider_self [] u = tt
find_raider_self (r ∷ rs) u = (
  ground (arith, ==_refl r.character_id),
  All-mono _ _ (λ x h. ground (arith, h.0, h.1)) rs (All-and _ _ rs u.0 (find_raider_self rs u.1)),
)

-- The seat that a movable raider leaves, in another group than `group`.
abbrev pub LeavesOther : Group → Option Placement → Type 0
LeavesOther group none = ⊥
LeavesOther group (some pl) = group_eq pl.group group ≡ false

module _ {κ} (P : Raider → Type κ) (assigned : Assigned) (group : Group) where
  pub free_candidates-All :
      (raiders : List Raider)
      → All P raiders
      → All
          (λ c.
            P c.raider
            × (lookup c.raider.character_id assigned ≡ none)
            × (group_priority c.raider group ≡ some c.priority))
          (free_candidates raiders assigned group)
  unfolding free_candidates
  free_candidates-All [] h = tt
  free_candidates-All (r ∷ rs) h =
      let rest = free_candidates-All rs h.1 in
      elim (Option-cases (lookup r.character_id assigned)) [
        | inr (pl, e) ↦ rw (e, is_ok) rest
        | inl e ↦ elim (Option-cases (group_priority r group)) [
          | inl f ↦ rw (e, is_ok, f) rest
          | inr (p, f) ↦ rw (e, is_ok, f) ((h.0, e, f), rest)
        ]
      ]

  pub movable_candidates-All :
      (raiders : List Raider)
      → All P raiders
      → All
          (λ c. P c.raider × LeavesOther group (lookup c.raider.character_id assigned))
          (movable_candidates raiders assigned group)
  unfolding movable_candidates
  movable_candidates-All [] h = tt
  movable_candidates-All (r ∷ rs) h =
      let rest = movable_candidates-All rs h.1 in
      elim (Option-cases (lookup r.character_id assigned)) [
        | inl e ↦ rw (e, movable_candidates) rest
        | inr (pl, e) ↦ elim (Bool-cases (group_eq pl.group group)) [
          | inl same ↦ rw (e, movable_candidates, same) rest
          | inr other ↦ elim (Option-cases (group_priority r group)) [
            | inl f ↦ rw (e, movable_candidates, other, f) rest
            | inr (p, f) ↦ rw (e, movable_candidates, other, f) ((h.0, rw e other), rest)
          ]
        ]
      ]

module _ (assigned : Assigned) (group : Group) where
  pub free_candidates-Unique :
      (raiders : List Raider)
      → Unique raider_id raiders
      → Unique candidate_id (free_candidates raiders assigned group)
  unfolding free_candidates
  free_candidates-Unique [] u = tt
  free_candidates-Unique (r ∷ rs) u =
      let rest = free_candidates-Unique rs u.1 in
      let apart =
        All-mono _ (λ c. candidate_id c ≢ r.character_id) (λ c h. h.0) _
          (free_candidates-All (λ y. y.character_id ≢ r.character_id) assigned group rs u.0) in
      elim (Option-cases (lookup r.character_id assigned)) [
        | inr (pl, e) ↦ rw (e, is_ok) rest
        | inl e ↦ elim (Option-cases (group_priority r group)) [
          | inl f ↦ rw (e, is_ok, f) rest
          | inr (p, f) ↦ rw (e, is_ok, f) (apart, rest)
        ]
      ]

pub rank_candidates-All {κ} :
    (P : Candidate → Type κ) (ranks : Assoc ℕ) (cands : List Candidate)
    → All P cands
    → All P (rank_candidates ranks cands)
unfolding rank_candidates
rank_candidates-All P ranks cands h = All-sort_by (less_candidate ranks) P cands h

pub rank_candidates-Unique :
    (ranks : Assoc ℕ) (cands : List Candidate)
    → Unique candidate_id cands
    → Unique candidate_id (rank_candidates ranks cands)
unfolding rank_candidates
rank_candidates-Unique ranks cands u = Unique-sort_by (less_candidate ranks) candidate_id cands u
