-- ===== src/Comp/Fill/Swap.antt =====
-- trySwapInto: a swap fills one seat of the short group and takes none from the others.
use raider_mate_service.Prelude.{
  ℕ, suc, ◌≡◌, subst, Bool, true, false, none, some, List, [], ◌∷◌, arith, if◌then◌else◌, All,
  All-mono, Unique, Option-cases, inl, inr, length,
}
use raider_mate_service.Prelude.Map.{
  Assoc, lookup, delete_self, count_if, count_if-delete, count_if-true,
}
use raider_mate_service.Comp.Types.{Raider, Group, Needs, RoleEnum}
use raider_mate_service.Comp.Roles.{place_in_group}
use raider_mate_service.Comp.Rank.{Candidate, rank_candidates}
use raider_mate_service.Comp.Rank.Order.{raider_id}
use raider_mate_service.Comp.Fill.{
  Placement, Assigned, group_eq, recount, seat, free_candidates, movable_candidates, backfill_first,
  backfill, vacate, try_move, first_move, try_swap_into,
}
use raider_mate_service.Comp.Fill.Count.{group_count, group_eq-true, holds_group, count_if-seat}
use raider_mate_service.Comp.Fill.Sound.{find_raider, IsSound, IsFree, seat-IsSound, delete-IsSound}
use raider_mate_service.Comp.Fill.Candidates.{
  find_raider_self, free_candidates-All, movable_candidates-All, LeavesOther, rank_candidates-All,
}

-- One more seat in `short`, as many as before in every other group, one more raider seated.
pub record Gains (short : Group) (before after : Assigned) : Type 0 where
  pub seats :
      (g : Group)
      → group_count g after
        ≡ (if group_eq short g then suc (group_count g before) else group_count g before)
  pub grown : length after ≡ suc (length before)

module _ (raiders : List Raider) (needs : Needs) (distinct : Unique raider_id raiders) where
  -- What backfill seats: one free raider of the pool, the way placeInGroup says.
  record Backfilled (group : Group) (scratch after : Assigned) : Type 0 where
    candidate : Candidate
    placed : RoleEnum × ℕ
    free : IsFree raiders scratch candidate.raider
    fits :
        place_in_group candidate.raider group needs (recount scratch).0 (recount scratch).1
        ≡ some placed
    result : after ≡ seat candidate group placed scratch

  backfill_first-Backfilled :
      (cands : List Candidate) (group : Group) (scratch : Assigned) {after : Assigned}
      → All (λ c. IsFree raiders scratch c.raider) cands
      → backfill_first cands group needs (recount scratch).0 (recount scratch).1 scratch
        ≡ some after
      → Backfilled group scratch after
  unfolding backfill_first
  backfill_first-Backfilled [] group scratch w h = cc
  backfill_first-Backfilled (c ∷ cands) group scratch w h =
      elim (Option-cases
        (place_in_group c.raider group needs (recount scratch).0 (recount scratch).1)) [
          | inl e ↦ backfill_first-Backfilled cands group scratch w.1 (rw (e, backfill_first) at h)
          | inr (placed, e) ↦ record {
            candidate = c;
            placed = placed;
            free = w.0;
            fits = e;
            result = ground (arith, e, h);
          }
        ]

  backfill-Backfilled :
      (ranks : Assoc ℕ) (group : Group) (scratch : Assigned) {after : Assigned}
      → backfill raiders scratch group needs ranks ≡ some after
      → Backfilled group scratch after
  unfolding backfill
  backfill-Backfilled ranks group scratch h =
      backfill_first-Backfilled (rank_candidates ranks (free_candidates raiders scratch group))
        group scratch
        (rank_candidates-All _ ranks _ (
          All-mono _ _ (λ c k. (k.0, k.1)) _
            (free_candidates-All (λ r. find_raider raiders r.character_id ≡ some r) scratch group
              raiders (find_raider_self raiders distinct))))
        h

  Swaps : Group → Assigned → Assigned → Type 0
  Swaps short before after = IsSound raiders needs after × Gains short before after

  module _ (m b : Candidate) (from : Placement) (short : Group) (placed placed' : RoleEnum × ℕ)
      (before : Assigned) where
    abbrev moved : Assigned
    moved = seat m short placed (vacate m before)

    -- `m` has moved out of the seat `from`, and `b` has taken it.
    swap-Gains :
        IsSound raiders needs before
        → lookup m.raider.character_id before ≡ some from
        → group_eq from.group short ≡ false
        → lookup b.raider.character_id moved ≡ none
        → Gains short before (seat b from.group placed' moved)
    swap-Gains s here other free = record {
      seats = λ g. ground (
        arith,
        left (holds_group g),
        arrived (holds_group g),
        filled (holds_group g),
        other,
        group_eq-true short g,
      );
      grown = omega (
        arith,
        count_if-true before,
        count_if-true (seat b from.group placed' moved),
        left (λ e. true),
        arrived (λ e. true),
        filled (λ e. true),
      );
    }
      where
        id : ℕ
        id = m.raider.character_id

        left :
            (f : ℕ × Placement → Bool)
            → count_if f before ≡ (
                if f (id, from)
                then suc (count_if f (vacate m before))
                else count_if f (vacate m before))
        left f = count_if-delete f id before s.keys here

        arrived :
            (f : ℕ × Placement → Bool)
            → count_if f moved ≡ (
                if f (id, record { role = placed.0; group = short; priority = placed.1 })
                then suc (count_if f (vacate m before))
                else count_if f (vacate m before))
        arrived f =
            count_if-seat m short placed.0 placed.1 (vacate m before) (delete_self id before) f

        filled :
            (f : ℕ × Placement → Bool)
            → count_if f (seat b from.group placed' moved) ≡ (
                if f (
                  b.raider.character_id,
                  record { role = placed'.0; group = from.group; priority = placed'.1 },
                )
                then suc (count_if f moved)
                else count_if f moved)
        filled f = count_if-seat b from.group placed'.0 placed'.1 moved free f

  try_move-Swaps :
      (ranks : Assoc ℕ) (short : Group) (m : Candidate) (before : Assigned) {after : Assigned}
      → IsSound raiders needs before
      → find_raider raiders m.raider.character_id ≡ some m.raider
      → LeavesOther short (lookup m.raider.character_id before)
      → try_move raiders before short needs ranks m ≡ some after
      → Swaps short before after
  unfolding try_move Swaps
  try_move-Swaps ranks short m before {after} s known leaves h =
      elim (Option-cases (lookup m.raider.character_id before)) [
        | inl e ↦ absurd (rw e at leaves)
        | inr (from, e) ↦
            let scratch = vacate m before in
            elim (Option-cases
              (place_in_group m.raider short needs (recount scratch).0 (recount scratch).1)) [
                | inl f ↦ absurd (ground (arith, e, f, h))
                | inr (placed, f) ↦
                    let other : group_eq from.group short ≡ false = rw e at leaves in
                    let sound =
                      seat-IsSound raiders needs m short placed scratch
                        (known, delete_self _ before) f
                        (delete-IsSound raiders needs m.raider.character_id s) in
                    let filled =
                      backfill-Backfilled ranks from.group (seat m short placed scratch)
                        (rw (e, try_move, f) at h) in
                    rw filled.result (
                      seat-IsSound raiders needs filled.candidate from.group filled.placed _
                          filled.free filled.fits sound,
                      swap-Gains m filled.candidate from short placed filled.placed before s e other
                          filled.free.1,
                    )
              ]
      ]

  first_move-Swaps :
      (ranks : Assoc ℕ) (short : Group) (movable : List Candidate) (before : Assigned)
      {after : Assigned}
      → IsSound raiders needs before
      → All
          (λ m.
            (find_raider raiders m.raider.character_id ≡ some m.raider)
            × LeavesOther short (lookup m.raider.character_id before))
          movable
      → first_move raiders before short needs ranks movable ≡ some after
      → Swaps short before after
  unfolding first_move
  first_move-Swaps ranks short [] before s w h = cc
  first_move-Swaps ranks short (m ∷ movable) before {after} s w h =
      elim (Option-cases (try_move raiders before short needs ranks m)) [
        | inl e ↦ first_move-Swaps ranks short movable before s w.1 (rw (e, first_move) at h)
        | inr (scratch, e) ↦
            let same : scratch ≡ after = ground (arith, e, h) in
            subst (Swaps short before) same (try_move-Swaps ranks short m before s w.0.0 w.0.1 e)
      ]

  -- A swap that trySwapInto commits keeps the invariant of the map; the short group gains exactly
  -- one seat, every other group keeps its number of seats, and one more raider is seated.
  pub try_swap_into-Gains :
      (ranks : Assoc ℕ) (short : Group) (before : Assigned) {after : Assigned}
      → IsSound raiders needs before
      → try_swap_into raiders before short needs ranks ≡ some after
      → IsSound raiders needs after × Gains short before after
  unfolding try_swap_into Swaps
  try_swap_into-Gains ranks short before s h =
      first_move-Swaps ranks short (rank_candidates ranks (movable_candidates raiders before short))
        before s
        (rank_candidates-All _ ranks _ (
          movable_candidates-All (λ r. find_raider raiders r.character_id ≡ some r) before short
            raiders (find_raider_self raiders distinct)))
        h
