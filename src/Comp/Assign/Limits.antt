-- ===== src/Comp/Assign/Limits.antt =====
-- The comp that Assign returns: within the needs and the caps, and true about its shortages.
use raider_mate_service.Prelude.{
  ℕ, ◌≤◌, ◌≡◌, ◌≢◌, refl, ◌⊎◌, ◌∙◌, sym, Bool, true, Option, none, some, List, [], ◌∷◌, arith, All,
  Unique, Option-cases, Bool-cases, inl, inr,
}
use raider_mate_service.Prelude.Int.{pos, pos_part, leb_ℤ}
use raider_mate_service.Prelude.Map.{Assoc, count_if, entry_key}
use raider_mate_service.Comp.Types.{
  RoleEnum, mdps, rdps, Raider, Template, Mode, Needs, Assignment, Result, Group,
}
use raider_mate_service.Comp.Roles.{role_eq, group_for_role}
use raider_mate_service.Comp.Rank.{signup_ranks}
use raider_mate_service.Comp.Rank.Order.{raider_id}
use raider_mate_service.Comp.Fill.{
  Placement, Assigned, Seating, group_eq, got_of, need_of, try_swap_into,
}
use raider_mate_service.Comp.Fill.Count.{group_count, recount_lem}
use raider_mate_service.Comp.Fill.Sound.{find_raider, Offers, WithinCap}
use raider_mate_service.Comp.Fill.Repair.{IsSeated, IsSettled}
use raider_mate_service.Comp.Assign.{
  has_no_roles, with_roles, pool_needs, final_seating, build_assignments, assign,
}
use raider_mate_service.Comp.Assign.Seats.{seat_raiders_lem}
use raider_mate_service.Comp.Assign.Counts.{seat_count, seats_role, seat_count-build_assignments}

with_roles-apart : (P : Raider → Type 0) (pool : List Raider) → All P pool → All P (with_roles pool)
unfolding with_roles
with_roles-apart P [] h = tt
with_roles-apart P (r ∷ rs) h = elim (Bool-cases (has_no_roles r)) [
  | inl e ↦ rw e (with_roles-apart P rs h.1)
  | inr e ↦ rw e (h.0, with_roles-apart P rs h.1)
]

with_roles-Unique :
    (pool : List Raider) → Unique raider_id pool → Unique raider_id (with_roles pool)
unfolding with_roles
with_roles-Unique [] u = tt
with_roles-Unique (r ∷ rs) u = elim (Bool-cases (has_no_roles r)) [
  | inl e ↦ rw e (with_roles-Unique rs u.1)
  | inr e ↦
      rw e
        (with_roles-apart (λ s. s.character_id ≢ r.character_id) rs u.0, with_roles-Unique rs u.1)
]

abbrev pub in_group : Group → RoleEnum → Bool
in_group g role = group_eq (group_for_role role) g

Offers-group :
    (o : Option Raider) (pl : Placement) → Offers o pl → group_for_role pl.role ≡ pl.group
Offers-group none pl h = absurd h
Offers-group (some r) pl h = h.1

-- The seats of the roles of a group are the seats of the group.
in_group_count :
    (raiders : List Raider) (g : Group) (assigned : Assigned)
    → All (λ e. Offers (find_raider raiders (entry_key e)) e.1) assigned
    → count_if (seats_role (in_group g)) assigned ≡ group_count g assigned
unfolding count_if
in_group_count raiders g [] h = refl
in_group_count raiders g ((id, pl) ∷ assigned) h =
    rw (Offers-group (find_raider raiders id) pl h.0, in_group_count raiders g assigned h.1)

-- What a comp of the slots respects.
pub record IsWithin (needs : Needs) (slots : List Assignment) : Type 0 where
  pub groups : (g : Group) → seat_count (in_group g) slots ≤ pos_part (need_of needs g)
  pub melee : WithinCap needs.max_melee (seat_count (λ role. role_eq role mdps) slots)
  pub ranged : WithinCap needs.max_ranged (seat_count (λ role. role_eq role rdps) slots)

-- The slots written for a seating show its seats.
shows_seating :
    (raiders : List Raider) (needs : Needs) (s : Seating) (ranks : Assoc ℕ)
    (slots : List Assignment)
    → Unique raider_id raiders
    → IsSeated raiders needs s
    → build_assignments raiders s.assigned ranks ≡ some slots
    → IsWithin needs slots × ((g : Group) → seat_count (in_group g) slots ≡ got_of s.got g)
shows_seating raiders needs s ranks slots u v h = (
  record {
    groups = λ g. omega (arith, by_group g, v.bounded g);
    melee = rw (by_role (λ role. role_eq role mdps)) (rw (recount_lem s.assigned) at v.sound.melee);
    ranged =
        rw (by_role (λ role. role_eq role rdps)) (rw (recount_lem s.assigned) at v.sound.ranged);
  },
  by_group,
)
  where
    by_role : (f : RoleEnum → Bool) → seat_count f slots ≡ count_if (seats_role f) s.assigned
    by_role f =
        seat_count-build_assignments f raiders s.assigned ranks slots u v.sound.keys v.sound.offered
          h

    by_group : (g : Group) → seat_count (in_group g) slots ≡ got_of s.got g
    by_group g =
        by_role (in_group g)
        ∙ in_group_count raiders g s.assigned v.sound.offered
        ∙ sym (v.counted g)

module _ (pool : List Raider) (tmpl : Template) (mode : Mode) (result : Result)
    (distinct : Unique raider_id pool) (returned : assign pool tmpl mode ≡ some result) where
  slots_built :
      build_assignments
        (with_roles pool)
        (final_seating (with_roles pool) tmpl mode).assigned
        (signup_ranks (with_roles pool))
      ≡ some result.assignments
  unfolding assign
  slots_built =
      elim (Option-cases (
        build_assignments (with_roles pool) (final_seating (with_roles pool) tmpl mode).assigned
          (signup_ranks (with_roles pool)))) [
            | inl e ↦ absurd (ground (arith, e, returned))
            | inr (slots, e) ↦ ground (arith, e, returned)
          ]

  final_seating_lem :
      let raiders = with_roles pool in
      let needs = (pool_needs raiders tmpl mode).0 in
      let s = final_seating raiders tmpl mode in
      IsSeated raiders needs s × IsSettled raiders needs (signup_ranks raiders) s
  unfolding final_seating
  final_seating_lem =
      seat_raiders_lem (with_roles pool) (pool_needs (with_roles pool) tmpl mode).0
        (signup_ranks (with_roles pool)) (with_roles-Unique pool distinct)

  -- In the comp that Assign returns for a pool of distinct characters, no group has more seats than
  -- Resolve asks for, and the melee and the ranged seats stay within the caps.
  pub assign-IsWithin : IsWithin (pool_needs (with_roles pool) tmpl mode).0 result.assignments
  assign-IsWithin =
      (shows_seating (with_roles pool) _ (final_seating (with_roles pool) tmpl mode) _ _
        (with_roles-Unique pool distinct) final_seating_lem.0 slots_built).0

  -- The count that Assign reports for a group is the number of its seats in the comp, and that is the
  -- need or more, or no swap of trySwapInto could raise it.
  pub assign-IsSettled :
      let raiders = with_roles pool in
      let needs = (pool_needs raiders tmpl mode).0 in
      let s = final_seating raiders tmpl mode in
      (g : Group)
      → (got_of s.got g ≡ seat_count (in_group g) result.assignments)
        × ((leb_ℤ (need_of needs g) (pos (seat_count (in_group g) result.assignments)) ≡ true)
            ⊎ (try_swap_into raiders s.assigned g needs (signup_ranks raiders) ≡ none))
  assign-IsSettled g =
      let shown =
        (shows_seating (with_roles pool) _ (final_seating (with_roles pool) tmpl mode) _ _
            (with_roles-Unique pool distinct) final_seating_lem.0 slots_built).1
          g in
      (sym shown, rw shown (final_seating_lem.1 g))
