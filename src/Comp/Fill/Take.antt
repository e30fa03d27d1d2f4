-- ===== src/Comp/Fill/Take.antt =====
-- fillGroup: what it seats, and when it stops short.
use raider_mate_service.Prelude.{
  ℕ, suc, ◌+◌, ◌≤◌, ◌≡◌, ◌≢◌, refl, false, none, some, List, [], ◌∷◌, arith, if◌then◌else◌, All,
  All-mono, All-and, Unique, Bool-cases, Option-cases, inl, inr,
}
use raider_mate_service.Prelude.Int.{ℤ, pos, pos_part, leb_ℤ}
use raider_mate_service.Prelude.Map.{Assoc, lookup}
use raider_mate_service.Comp.Types.{Raider, Group, Needs, RoleEnum}
use raider_mate_service.Comp.Roles.{place_in_group}
use raider_mate_service.Comp.Rank.{Candidate, rank_candidates}
use raider_mate_service.Comp.Rank.Order.{raider_id, candidate_id}
use raider_mate_service.Comp.Fill.{
  Placement, Assigned, group_eq, recount, seat, free_candidates, take_candidates, fill_group,
}
use raider_mate_service.Comp.Fill.Count.{group_count, holds_group, count_if-seat, lookup-seat}
use raider_mate_service.Comp.Fill.Sound.{find_raider, IsSound, IsFree, seat-IsSound}
use raider_mate_service.Comp.Fill.Candidates.{
  find_raider_self, free_candidates-All, free_candidates-Unique, rank_candidates-All,
  rank_candidates-Unique,
}

-- What a run of fillGroup for `group` makes of the map: `took` new seats, all in that group.
pub record Fills (group : Group) (before : Assigned) (started : ℕ) (after : Assigned × ℕ)
    : Type 0 where
  pub seats :
      (g : Group)
      → group_count g after.0 + (if group_eq group g then started else 0)
        ≡ group_count g before + (if group_eq group g then after.1 else 0)

-- The test of the loop, `took >= need`, fails only below the need.
pub room_below : (need : ℤ) (took : ℕ) → leb_ℤ need (pos took) ≡ false → suc took ≤ pos_part need
room_below (pos n) took h = ground arith
room_below (ℤ.negsuc n) took h = ground arith

module _ (raiders : List Raider) (needs : Needs) (group : Group) (need : ℤ) where
  abbrev Waiting : Assigned → List Candidate → Type 0
  Waiting assigned cands = All (λ c. IsFree raiders assigned c.raider) cands

  -- The other candidates stay free when one is seated.
  Waiting-seat :
      (c : Candidate) (placed : RoleEnum × ℕ) (assigned : Assigned) (cands : List Candidate)
      → All (λ d. candidate_id d ≢ candidate_id c) cands
      → Waiting assigned cands
      → Waiting (seat c group placed assigned) cands
  Waiting-seat c (role, p) assigned cands apart w =
      All-mono _ _
        (λ d h. (
          h.1.0,
          ground (arith, lookup-seat c group role p assigned d.raider.character_id, h.0, h.1.1),
        ))
        cands (All-and _ _ cands apart w)

  record Taken (before : Assigned) (started : ℕ) (after : Assigned × ℕ) : Type 0 where
    sound : IsSound raiders needs after.0
    fills : Fills group before started after
    kept : (id : ℕ) (pl : Placement) → lookup id before ≡ some pl → lookup id after.0 ≡ some pl
    bounded : started ≤ pos_part need → after.1 ≤ pos_part need

  Taken-none :
      (assigned : Assigned) (took : ℕ)
      → IsSound raiders needs assigned
      → Taken assigned took (assigned, took)
  Taken-none assigned took s = record {
    sound = s;
    fills = record { seats = λ g. refl };
    kept = λ id pl h. h;
    bounded = λ h. h;
  }

  Taken-seat :
      (c : Candidate) (placed : RoleEnum × ℕ) (assigned : Assigned) (took : ℕ)
      (after : Assigned × ℕ)
      → lookup c.raider.character_id assigned ≡ none
      → leb_ℤ need (pos took) ≡ false
      → Taken (seat c group placed assigned) (suc took) after
      → Taken assigned took after
  Taken-seat c (role, p) assigned took after free room t = record {
    sound = t.sound;
    fills = record { seats = λ g. ground (arith, t.fills.seats g, seated g) };
    kept = λ id pl h. t.kept id pl (ground (arith, lookup-seat c group role p assigned id));
    bounded = λ h. t.bounded (room_below need took room);
  }
    where
      seated :
          (g : Group)
          → group_count g (seat c group (role, p) assigned)
            ≡ (if group_eq group g then suc (group_count g assigned) else group_count g assigned)
      seated g = count_if-seat c group role p assigned free (holds_group g)

  take_candidates-Taken :
      (cands : List Candidate) (took : ℕ) (assigned : Assigned)
      → Unique candidate_id cands
      → Waiting assigned cands
      → IsSound raiders needs assigned
      → Taken assigned took (take_candidates group need needs cands took assigned)
  unfolding take_candidates
  take_candidates-Taken [] took assigned u w s = Taken-none assigned took s
  take_candidates-Taken (c ∷ cands) took assigned u w s =
      elim (Bool-cases (leb_ℤ need (pos took))) [
        | inl full ↦ rw (full, take_candidates) (Taken-none assigned took s)
        | inr room ↦
            elim (Option-cases
              (place_in_group c.raider group needs (recount assigned).0 (recount assigned).1)) [
                | inl e ↦
                    rw (room, e, take_candidates)
                      (take_candidates-Taken cands took assigned u.1 w.1 s)
                | inr (placed, e) ↦
                    rw (room, e, take_candidates)
                      (Taken-seat c placed assigned took _ w.0.1 room (
                        take_candidates-Taken cands (suc took) (seat c group placed assigned) u.1
                          (Waiting-seat c placed assigned cands u.0 w.1)
                          (seat-IsSound raiders needs c group placed assigned w.0 e s)))
              ]
      ]

  fill_group-Taken :
      (ranks : Assoc ℕ) (assigned : Assigned)
      → Unique raider_id raiders
      → IsSound raiders needs assigned
      → Taken assigned 0 (fill_group raiders assigned group need needs ranks)
  unfolding fill_group
  fill_group-Taken ranks assigned u s =
      let cands = free_candidates raiders assigned group in
      take_candidates-Taken (rank_candidates ranks cands) 0 assigned
        (rank_candidates-Unique ranks cands (free_candidates-Unique assigned group raiders u))
        (rank_candidates-All _ ranks cands (
          All-mono _ _ (λ c h. (h.0, h.1)) cands
            (free_candidates-All (λ r. find_raider raiders r.character_id ≡ some r) assigned group
              raiders (find_raider_self raiders u))))
        s

module _ (raiders : List Raider) (assigned : Assigned) (group : Group) (need : ℤ) (needs : Needs)
    (ranks : Assoc ℕ) (distinct : Unique raider_id raiders)
    (sound : IsSound raiders needs assigned) where
  -- fillGroup keeps the invariant of the map: distinct characters of the pool, each in a role of
  -- their menu, and the melee and ranged counts within the caps.
  pub fill_group-IsSound :
      IsSound raiders needs (fill_group raiders assigned group need needs ranks).0
  fill_group-IsSound =
      (fill_group-Taken raiders needs group need ranks assigned distinct sound).sound

  -- fillGroup moves nobody: an entry of the map stays as it is.
  pub fill_group_keeps :
      (id : ℕ) (pl : Placement)
      → lookup id assigned ≡ some pl
      → lookup id (fill_group raiders assigned group need needs ranks).0 ≡ some pl
  fill_group_keeps = (fill_group-Taken raiders needs group need ranks assigned distinct sound).kept

  -- The number that fillGroup returns is the number of new seats in the group, at most the need, and
  -- the other groups have as many seats as before.
  pub fill_group-Fills :
      Fills group assigned 0 (fill_group raiders assigned group need needs ranks)
      × ((fill_group raiders assigned group need needs ranks).1 ≤ pos_part need)
  fill_group-Fills =
      let t = fill_group-Taken raiders needs group need ranks assigned distinct sound in
      (t.fills, t.bounded (omega arith))
