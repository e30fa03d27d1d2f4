-- ===== src/Comp/Fill/Sound.antt =====
-- The invariant of the map `assigned`, and that a seat given to a free raider keeps it.
use raider_mate_service.Prelude.{
  ℕ, suc, ◌≤◌, ◌≡◌, ◌≢◌, true, false, Option, none, some, List, [], ◌∷◌, arith, if◌then◌else◌, ◌==◌,
  All, All-mono, All-and, Unique,
}
use raider_mate_service.Prelude.Int.{ℤ, pos_part}
use raider_mate_service.Prelude.Map.{
  entry_key, lookup, delete, count_if-delete_le, All-delete, Unique-delete, Unique-insert,
  insert_absent, All-ne_of_absent, delete_self,
}
use raider_mate_service.Comp.Types.{RoleEnum, mdps, rdps, Raider, Group, Needs}
use raider_mate_service.Comp.Roles.{role_eq, can_play, group_for_role, is_open, place_in_group}
use raider_mate_service.Comp.Roles.Laws.{place_in_group_sound, side_open}
use raider_mate_service.Comp.Rank.{Candidate}
use raider_mate_service.Comp.Fill.{Placement, Assigned, recount, seat}
use raider_mate_service.Comp.Fill.Count.{recount_lem, count_if-seat, holds_role}

-- The raider of the pool with an id.
unfoldable pub find_raider : List Raider → ℕ → Option Raider
find_raider [] id = none
find_raider (r ∷ rs) id = if r.character_id == id then some r else find_raider rs id

-- The seat is one that the raider's menu offers, in the group of its role, at the menu's priority.
abbrev pub Offers : Option Raider → Placement → Type 0
Offers none pl = ⊥
Offers (some r) pl = (can_play r pl.role ≡ some pl.priority) × (group_for_role pl.role ≡ pl.group)

other_key : (i j : ℕ) → j ≢ i → (i == j) ≡ false
other_key i j n = ground arith

-- Without the entry of the first raider, the seats are offered by the others.
pub offered-delete :
    (r : Raider) (rs : List Raider) (assigned : Assigned)
    → All (λ e. Offers (find_raider (r ∷ rs) (entry_key e)) e.1) assigned
    → All (λ e. Offers (find_raider rs (entry_key e)) e.1) (delete r.character_id assigned)
unfolding find_raider
offered-delete r rs assigned h =
    let id = r.character_id in
    let rest = delete id assigned in
    All-mono _ _ (λ e k. rw (other_key id (entry_key e) k.0) at k.1) rest
      (All-and _ _ rest (All-ne_of_absent id rest (delete_self id assigned))
        (All-delete _ id assigned h))

abbrev pub WithinCap : Option ℤ → ℕ → Type 0
WithinCap none count = Unit
WithinCap (some cap) count = count ≤ pos_part cap

pub record IsSound (raiders : List Raider) (needs : Needs) (assigned : Assigned) : Type 0 where
  pub keys : Unique entry_key assigned
  pub offered : All (λ e. Offers (find_raider raiders (entry_key e)) e.1) assigned
  pub melee : WithinCap needs.max_melee (recount assigned).0
  pub ranged : WithinCap needs.max_ranged (recount assigned).1

pub empty-IsSound : (raiders : List Raider) (needs : Needs) → IsSound raiders needs []
unfolding recount
empty-IsSound raiders needs = record {
  keys = tt;
  offered = tt;
  melee = ground arith;
  ranged = ground arith;
}

WithinCap-le : (cap : Option ℤ) (m n : ℕ) → n ≤ m → WithinCap cap m → WithinCap cap n
WithinCap-le none m n h w = tt
WithinCap-le (some c) m n h w = omega arith

is_open-suc : (cap : Option ℤ) (n : ℕ) → is_open cap n ≡ true → WithinCap cap (suc n)
is_open-suc none n h = tt
is_open-suc (some (ℤ.pos c)) n h = ground arith
is_open-suc (some (ℤ.negsuc c)) n h = ground arith

-- A raider of the pool who is not assigned yet.
abbrev pub IsFree : List Raider → Assigned → Raider → Type 0
IsFree raiders assigned r =
    (find_raider raiders r.character_id ≡ some r) × (lookup r.character_id assigned ≡ none)

module _ (raiders : List Raider) (needs : Needs) where
  pub delete-IsSound :
      (id : ℕ) {assigned : Assigned}
      → IsSound raiders needs assigned
      → IsSound raiders needs (delete id assigned)
  delete-IsSound id {assigned} s = record {
    keys = Unique-delete id assigned s.keys;
    offered = All-delete _ id assigned s.offered;
    melee =
        WithinCap-le needs.max_melee _ _
          (ground (
            arith,
            recount_lem assigned,
            recount_lem (delete id assigned),
            count_if-delete_le (holds_role mdps) id assigned,
          ))
          s.melee;
    ranged =
        WithinCap-le needs.max_ranged _ _
          (ground (
            arith,
            recount_lem assigned,
            recount_lem (delete id assigned),
            count_if-delete_le (holds_role rdps) id assigned,
          ))
          s.ranged;
  }

  sides_after :
      (role : RoleEnum) (melee ranged : ℕ)
      → side_open needs role melee ranged ≡ true
      → WithinCap needs.max_melee melee
      → WithinCap needs.max_ranged ranged
      → WithinCap needs.max_melee (if role_eq role mdps then suc melee else melee)
        × WithinCap needs.max_ranged (if role_eq role rdps then suc ranged else ranged)
  sides_after mdps melee ranged o m r = (is_open-suc needs.max_melee melee o, r)
  sides_after rdps melee ranged o m r = (m, is_open-suc needs.max_ranged ranged o)
  sides_after _ melee ranged o m r = (m, r)

  -- Seating a free raider of the pool the way placeInGroup says keeps the invariant.
  pub seat-IsSound :
      (c : Candidate) (g : Group) (placed : RoleEnum × ℕ) (assigned : Assigned)
      → IsFree raiders assigned c.raider
      → place_in_group c.raider g needs (recount assigned).0 (recount assigned).1 ≡ some placed
      → IsSound raiders needs assigned
      → IsSound raiders needs (seat c g placed assigned)
  seat-IsSound c g (role, p) assigned (known, free) h s =
      let (offers, group, open_side) = place_in_group_sound c.raider g needs _ _ h in
      let counts = recount_lem assigned in
      let sides =
        sides_after role _ _ (rw counts at open_side) (rw counts at s.melee)
          (rw counts at s.ranged) in
      record {
        keys = unfold seat in Unique-insert c.raider.character_id _ assigned s.keys;
        offered =
            unfold seat in
            rw
              (insert_absent c.raider.character_id (record { role = role; group = g; priority = p })
                assigned free)
              (rw known (offers, group), s.offered);
        melee =
            rw (recount_lem (seat c g (role, p) assigned), count_if-seat c g role p assigned free)
              sides.0;
        ranged =
            rw
              (
                recount_lem (seat c g (role, p) assigned),
                count_if-seat c g role p assigned free (holds_role rdps),
              )
              sides.1;
      }
