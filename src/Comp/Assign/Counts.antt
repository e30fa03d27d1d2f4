-- ===== src/Comp/Assign/Counts.antt =====
-- The seated slots of a comp, counted: they are the entries of the map `assigned`.
use raider_mate_service.Prelude.{
  subst, ℕ, suc, ◌≡◌, ◌≢◌, refl, Bool, true, not, ◌&&◌, some, List, [], ◌∷◌, ◌++◌, arith, All,
  Unique, Option-cases, inl, inr,
}
use raider_mate_service.Prelude.Sort.{sort_by, count_by, count_by-append, count_by-sort_by}
use raider_mate_service.Prelude.Map.{
  Assoc, lookup, delete, count_if, entry_key, lookup-delete, delete_absent, count_if-delete,
  Unique-delete,
}
use raider_mate_service.Comp.Types.{RoleEnum, Raider, Assignment}
use raider_mate_service.Comp.Rank.Order.{raider_id}
use raider_mate_service.Comp.Fill.{Placement, Assigned}
use raider_mate_service.Comp.Fill.Sound.{offered-delete, find_raider, Offers}
use raider_mate_service.Comp.Assign.{
  Seated, assigned_list, bench_list, seated_before, bench_before, bench_role, bench_slot,
  seat_slots, bench_slots, build_assignments,
}

-- The slots of the raid, the bench left out, whose role passes a test.
abbrev pub is_seat : (RoleEnum → Bool) → Assignment → Bool
is_seat f a = not a.is_bench && f a.role

abbrev pub seat_count : (RoleEnum → Bool) → List Assignment → ℕ
seat_count f slots = count_by (is_seat f) slots

abbrev pub seats_role : (RoleEnum → Bool) → ℕ × Placement → Bool
seats_role f e = f e.1.role

module _ (f : RoleEnum → Bool) where
  seat_count-seat_slots :
      (ranks : Assoc ℕ) (i : ℕ) (seated : List Seated)
      → seat_count f (seat_slots ranks i seated) ≡ count_by (λ s. f s.placement.role) seated
  unfolding seat_slots count_by
  seat_count-seat_slots ranks i [] = refl
  seat_count-seat_slots ranks i (s ∷ seated) = rw (seat_count-seat_slots ranks (suc i) seated)

  seat_count-bench :
      (slots : List Assignment) → All (λ a. a.is_bench ≡ true) slots → seat_count f slots ≡ 0
  unfolding count_by
  seat_count-bench [] h = refl
  seat_count-bench (a ∷ slots) h = rw (h.0) (seat_count-bench slots h.1)

  -- Deleting the entry of a character who is not among the raiders changes nothing for them.
  assigned_list-delete :
      (id : ℕ) (rs : List Raider) (assigned : Assigned)
      → All (λ r. r.character_id ≢ id) rs
      → assigned_list rs (delete id assigned) ≡ assigned_list rs assigned
  unfolding assigned_list
  assigned_list-delete id [] assigned h = refl
  assigned_list-delete id (r ∷ rs) assigned h =
      let same : lookup r.character_id (delete id assigned) ≡ lookup r.character_id assigned =
        ground (arith, lookup-delete id r.character_id assigned, h.0) in
      rw (same, assigned_list-delete id rs assigned h.1)

  -- Over a pool of distinct characters that has every key of the map, the seated raiders are the
  -- entries of the map.
  count_by-assigned_list :
      (raiders : List Raider) (assigned : Assigned)
      → Unique raider_id raiders
      → Unique entry_key assigned
      → All (λ e. Offers (find_raider raiders (entry_key e)) e.1) assigned
      → count_by (λ s. f s.placement.role) (assigned_list raiders assigned)
        ≡ count_if (seats_role f) assigned
  unfolding assigned_list count_by count_if find_raider
  count_by-assigned_list [] [] u k h = refl
  count_by-assigned_list [] (e ∷ assigned) u k h = absurd h.0
  count_by-assigned_list (r ∷ rs) assigned u k h =
      let id = r.character_id in
      let rest = delete id assigned in
      let ih =
        count_by-assigned_list rs rest u.1 (Unique-delete id assigned k)
          (offered-delete r rs assigned h) in
      let same = rw (assigned_list-delete id rs assigned u.0) at ih in
      elim (Option-cases (lookup id assigned)) [
        | inl e ↦ rw (e) (rw (delete_absent id assigned e) at same)
        | inr (pl, e) ↦
            rw (e, same) (ground (arith, count_if-delete (seats_role f) id assigned k e))
      ]

  bench_slots-All :
      (ranks : Assoc ℕ) (i : ℕ) (rs : List Raider) (slots : List Assignment)
      → bench_slots ranks i rs ≡ some slots
      → All (λ a. a.is_bench ≡ true) slots
  unfolding bench_slots
  bench_slots-All ranks i [] slots h =
      let all : [] ≡ slots = cc in subst (All (λ a. a.is_bench ≡ true)) all tt
  bench_slots-All ranks i (r ∷ rs) slots h = elim (Option-cases (bench_role r)) [
    | inl e ↦ absurd (ground (arith, e, h))
    | inr (role, e) ↦ elim (Option-cases (bench_slots ranks (suc i) rs)) [
      | inl n ↦ absurd (ground (arith, e, n, h))
      | inr (rest, s) ↦
          let all : bench_slot ranks i r role ∷ rest ≡ slots = ground (arith, e, s, h) in
          subst (All (λ a. a.is_bench ≡ true)) all (refl, bench_slots-All ranks (suc i) rs rest s)
    ]
  ]

  -- The seated slots that are written are the entries of the map.
  pub seat_count-build_assignments :
      (raiders : List Raider) (assigned : Assigned) (ranks : Assoc ℕ) (slots : List Assignment)
      → Unique raider_id raiders
      → Unique entry_key assigned
      → All (λ e. Offers (find_raider raiders (entry_key e)) e.1) assigned
      → build_assignments raiders assigned ranks ≡ some slots
      → seat_count f slots ≡ count_if (seats_role f) assigned
  unfolding build_assignments
  seat_count-build_assignments raiders assigned ranks slots u k o h =
      let seated = sort_by (seated_before ranks) (assigned_list raiders assigned) in
      let bench = sort_by (bench_before ranks) (bench_list raiders assigned) in
      elim (Option-cases (bench_slots ranks 0 bench)) [
        | inl e ↦ absurd (ground (arith, e, h))
        | inr (rest, e) ↦
            let all : seat_slots ranks 0 seated ++ rest ≡ slots = ground (arith, e, h) in
            rw (← all) (
              omega (
                arith,
                count_by-append (is_seat f) (seat_slots ranks 0 seated) rest,
                seat_count-bench rest (bench_slots-All ranks 0 bench rest e),
                seat_count-seat_slots ranks 0 seated,
                count_by-sort_by (seated_before ranks) (λ s. f s.placement.role)
                    (assigned_list raiders assigned),
                count_by-assigned_list raiders assigned u k o,
              ))
      ]
