-- ===== src/Comp/Assign/Slots.antt =====
-- The slots that Assign writes: every raider with a role has one, numbered within their half.
use mathlib.Core.List.{Perm, perm_middle, map-append}
use mathlib.Core.List.Perm
use raider_mate_service.Prelude.{
  ℕ, suc, ◌≡◌, refl, ap, Bool, true, false, some, List, [], ◌∷◌, ◌++◌, map, arith, All,
  Option-cases, Bool-cases, inl, inr,
}
use raider_mate_service.Prelude.Int.{pos, to_int16}
use raider_mate_service.Prelude.Sort.{sort_by, sort_by-perm, All-sort_by}
use raider_mate_service.Prelude.Map.{Assoc, lookup}
use raider_mate_service.Comp.Types.{Raider, Template, Mode, Assignment, Result}
use raider_mate_service.Comp.Roles.{is_ok}
use raider_mate_service.Comp.Rank.{signup_ranks}
use raider_mate_service.Comp.Rank.Order.{raider_id}
use raider_mate_service.Comp.Fill.{Assigned}
use raider_mate_service.Comp.Assign.{
  has_no_roles, with_roles, Seated, assigned_list, bench_list, seated_before, bench_before,
  bench_role, bench_slot, seat_slots, bench_slots, build_assignments, final_seating,
  assign_advisories, assign,
}

abbrev pub slot_id : Assignment → ℕ
slot_id a = a.character_id

abbrev pub seated_id : Seated → ℕ
seated_id s = s.raider.character_id

-- The slots are numbered from `i` on, as int16.
abbrev pub Numbered : ℕ → List Assignment → Type 0
Numbered i [] = Unit
Numbered i (a ∷ slots) = (a.slot_index ≡ to_int16 (pos i)) × Numbered (suc i) slots

-- One half of a comp: the slots of these characters in this order, numbered from `i` on.
pub record IsHalf (bench : Bool) (i : ℕ) (ids : List ℕ) (slots : List Assignment) : Type 0 where
  pub characters : map slot_id slots ≡ ids
  pub numbered : Numbered i slots
  pub side : All (λ a. a.is_bench ≡ bench) slots

seat_slots-IsHalf :
    (ranks : Assoc ℕ) (i : ℕ) (seated : List Seated)
    → IsHalf false i (map seated_id seated) (seat_slots ranks i seated)
unfolding seat_slots
seat_slots-IsHalf ranks i [] = record { characters = refl; numbered = tt; side = tt }
seat_slots-IsHalf ranks i (s ∷ seated) =
    let rest = seat_slots-IsHalf ranks (suc i) seated in
    record {
      characters = ap (◌∷◌ s.raider.character_id) rest.characters;
      numbered = (refl, rest.numbered);
      side = (refl, rest.side);
    }

bench_role_some : (r : Raider) → has_no_roles r ≡ false → is_ok (bench_role r) ≡ true
unfolding bench_role
bench_role_some r h = ground arith

-- A bench of raiders with roles has a slot for each.
bench_slots_total :
    (ranks : Assoc ℕ) (i : ℕ) (rs : List Raider)
    → All (λ r. has_no_roles r ≡ false) rs
    → (slots : List Assignment) × (bench_slots ranks i rs ≡ some slots)
      × IsHalf true i (map raider_id rs) slots
unfolding bench_slots
bench_slots_total ranks i [] h = ([], refl, record { characters = refl; numbered = tt; side = tt })
bench_slots_total ranks i (r ∷ rs) h =
    let (rest, e, half) = bench_slots_total ranks (suc i) rs h.1 in
    elim (Option-cases (bench_role r)) [
      | inl n ↦ absurd (ground (arith, bench_role_some r h.0, n))
      | inr (role, f) ↦ (
        bench_slot ranks i r role ∷ rest,
        rw (f, bench_slots, e) refl,
        record {
          characters = ap (◌∷◌ r.character_id) half.characters;
          numbered = (refl, half.numbered);
          side = (refl, half.side);
        },
      )
    ]

-- The split into seated and benched raiders loses nobody.
split-perm :
    (rs : List Raider) (assigned : Assigned)
    → Perm
        (map seated_id (assigned_list rs assigned) ++ map raider_id (bench_list rs assigned))
        (map raider_id rs)
unfolding assigned_list bench_list
split-perm [] assigned = Perm.refl []
split-perm (r ∷ rs) assigned =
    let rest = split-perm rs assigned in
    elim (Option-cases (lookup r.character_id assigned)) [
      | inl e ↦
          rw (e, is_ok)
            (Perm.trans (perm_middle (map seated_id (assigned_list rs assigned)) _)
              (Perm.cons r.character_id rest))
      | inr (pl, e) ↦ rw (e, is_ok) (Perm.cons r.character_id rest)
    ]

with_roles-All : (pool : List Raider) → All (λ r. has_no_roles r ≡ false) (with_roles pool)
unfolding with_roles
with_roles-All [] = tt
with_roles-All (r ∷ rs) = elim (Bool-cases (has_no_roles r)) [
  | inl e ↦ rw e (with_roles-All rs)
  | inr e ↦ rw e (e, with_roles-All rs)
]

bench_list-All {κ} :
    (P : Raider → Type κ) (rs : List Raider) (assigned : Assigned)
    → All P rs
    → All P (bench_list rs assigned)
unfolding bench_list
bench_list-All P [] assigned h = tt
bench_list-All P (r ∷ rs) assigned h =
    let rest = bench_list-All P rs assigned h.1 in
    elim (Bool-cases (is_ok (lookup r.character_id assigned))) [
      | inl e ↦ rw e rest
      | inr e ↦ rw e (h.0, rest)
    ]

-- A comp of a pool: the seated half and the benched half, each numbered from 0, which together hold
-- every character of the pool as often as the pool does.
pub record IsComp (raiders : List Raider) (assignments : List Assignment) : Type 0 where
  pub seated : List Assignment
  pub benched : List Assignment
  pub halves : assignments ≡ seated ++ benched
  pub seated_half : IsHalf false 0 (map slot_id seated) seated
  pub benched_half : IsHalf true 0 (map slot_id benched) benched
  pub everybody : Perm (map slot_id assignments) (map raider_id raiders)

build_assignments_total :
    (raiders : List Raider) (assigned : Assigned) (ranks : Assoc ℕ)
    → All (λ r. has_no_roles r ≡ false) raiders
    → (slots : List Assignment) × (build_assignments raiders assigned ranks ≡ some slots)
      × IsComp raiders slots
unfolding build_assignments
build_assignments_total raiders assigned ranks h =
    let seated = sort_by (seated_before ranks) (assigned_list raiders assigned) in
    let bench = sort_by (bench_before ranks) (bench_list raiders assigned) in
    let (slots, e, half) =
      bench_slots_total ranks 0 bench
        (All-sort_by (bench_before ranks) _ _ (bench_list-All _ raiders assigned h)) in
    let half' = seat_slots-IsHalf ranks 0 seated in
    (
      seat_slots ranks 0 seated ++ slots,
      rw e refl,
      record {
        seated = seat_slots ranks 0 seated;
        benched = slots;
        halves = refl;
        seated_half = record { characters = refl; numbered = half'.numbered; side = half'.side };
        benched_half = record { characters = refl; numbered = half.numbered; side = half.side };
        everybody =
            rw (map-append, half'.characters, half.characters)
              (Perm.trans
                (Perm.append
                  (Perm.map seated_id
                    (sort_by-perm (seated_before ranks) (assigned_list raiders assigned)))
                  (Perm.map raider_id
                    (sort_by-perm (bench_before ranks) (bench_list raiders assigned))))
                (split-perm raiders assigned));
      },
    )

-- Assign never fails: on every pool, template and mode it returns a comp in which every raider with
-- a role holds exactly one slot, seated slots and bench slots each numbered from 0 (as int16).
pub assign_total :
    (pool : List Raider) (tmpl : Template) (mode : Mode)
    → (result : Result) × (assign pool tmpl mode ≡ some result)
      × IsComp (with_roles pool) result.assignments
unfolding assign
assign_total pool tmpl mode =
    let raiders = with_roles pool in
    let (slots, e, comp) =
      build_assignments_total raiders (final_seating raiders tmpl mode).assigned
        (signup_ranks raiders) (with_roles-All pool) in
    (record { assignments = slots; advisories = assign_advisories pool tmpl mode }, rw e refl, comp)
