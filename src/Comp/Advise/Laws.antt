-- ===== src/Comp/Advise/Laws.antt =====
-- What Advise says about a board, and about a comp that Assign has just returned.
use mathlib.Core.List.{Perm, Permᴰ}
use mathlib.Core.Logic.{∥∥₁_elim}
use raider_mate_service.Prelude.{
  suc, ◌+◌, ◌≡◌, ◌≢◌, refl, some, List, [], ◌∷◌, ◌++◌, length, length-map, arith, Unique,
  Bool-cases, inl, inr, ap, sym, ◌∙◌,
}
use raider_mate_service.Prelude.Sort.{count_by}
use raider_mate_service.Comp.Types.{
  tank, healer, dps, Raider, Template, Mode, Group, Needs, Assignment, Result,
}
use raider_mate_service.Comp.Resolve.{resolve}
use raider_mate_service.Comp.Roles.{group_for_role}
use raider_mate_service.Comp.Rank.Order.{raider_id}
use raider_mate_service.Comp.Fill.{GroupCounts, got_of, set_got, order}
use raider_mate_service.Comp.Fill.Repair.{got_of-set_got}
use raider_mate_service.Comp.Fill.Count.{group_eq-true}
use raider_mate_service.Comp.Assign.{with_roles, pool_needs, final_seating, assign}
use raider_mate_service.Comp.Assign.Counts.{seat_count}
use raider_mate_service.Comp.Assign.Slots.{IsComp, assign_total, slot_id}
use raider_mate_service.Comp.Assign.Limits.{in_group, assign-IsSettled}
use raider_mate_service.Comp.Advise.{count_seats, missing_advisories, advise}

length-permᴰ {ℓ} : {A : Type ℓ} {xs ys : List A} → Permᴰ xs ys → length xs ≡ length ys
length-permᴰ Permᴰ.nil = refl
length-permᴰ (Permᴰ.cons x p) = ap suc (length-permᴰ p)
length-permᴰ (Permᴰ.swap x y) = refl
length-permᴰ (Permᴰ.trans p q) = length-permᴰ p ∙ length-permᴰ q

length-perm {ℓ} : {A : Type ℓ} {xs ys : List A} → Perm xs ys → length xs ≡ length ys
length-perm {xs} {ys} p =
    let prop : IsProp (length xs ≡ length ys) = hlevel in ∥∥₁_elim p prop length-permᴰ

count_seats_lem :
    (got : GroupCounts) (slots : List Assignment) (g : Group)
    → got_of (count_seats got slots) g ≡ got_of got g + seat_count (in_group g) slots
unfolding count_seats count_by
count_seats_lem got [] g = omega arith
count_seats_lem got (a ∷ slots) g = elim (Bool-cases a.is_bench) [
  | inl b ↦ rw (b, count_by) (count_seats_lem got slots g)
  | inr b ↦ ground (
    arith,
    b,
    count_seats_lem (set_got got (group_for_role a.role) (suc (got_of got (group_for_role a.role))))
        slots g,
    got_of-set_got got (group_for_role a.role) g (suc (got_of got (group_for_role a.role))),
    group_eq-true (group_for_role a.role) g,
  )
]

missing_advisories-ext :
    (needs : Needs) (got got' : GroupCounts) (groups : List Group)
    → ((g : Group) → got_of got g ≡ got_of got' g)
    → missing_advisories needs got groups ≡ missing_advisories needs got' groups
unfolding missing_advisories
missing_advisories-ext needs got got' [] h = refl
missing_advisories-ext needs got got' (g ∷ groups) h =
    rw (h g, missing_advisories-ext needs got got' groups h) refl

got_of-none : (g : Group) → got_of (record { tanks = 0; healers = 0; dps = 0 }) g ≡ 0
unfolding got_of
got_of-none tank = refl
got_of-none healer = refl
got_of-none dps = refl

length_as_pool :
    {raiders : List Raider} {result other : Result}
    → other ≡ result
    → IsComp raiders other.assignments
    → length result.assignments ≡ length raiders
length_as_pool {raiders} {result} {other} same comp =
    ap (λ r. length r.assignments) (sym same)
    ∙ sym (length-map slot_id other.assignments)
    ∙ length-perm comp.everybody
    ∙ length-map raider_id raiders

advise_cons :
    (slots : List Assignment) (tmpl : Template) (mode : Mode)
    → slots ≢ []
    → advise slots tmpl mode
      ≡ (resolve tmpl mode (length slots)).1
        ++ missing_advisories
            (resolve tmpl mode (length slots)).0
            (count_seats (record { tanks = 0; healers = 0; dps = 0 }) slots)
            order
unfolding advise
advise_cons [] tmpl mode h = absurd (h refl)
advise_cons (a ∷ slots) tmpl mode h = refl

-- Advise about the comp that Assign has just returned for a pool of distinct characters, unless it
-- has no slots: the advisories of Resolve for the raiders with roles, and then the groups that the
-- final counts of Assign leave short, with these counts.
pub advise-assign :
    (pool : List Raider) (tmpl : Template) (mode : Mode) (result : Result)
    → Unique raider_id pool
    → assign pool tmpl mode ≡ some result
    → result.assignments ≢ []
    → let raiders = with_roles pool in
      let (needs, advisories) = pool_needs raiders tmpl mode in
      advise result.assignments tmpl mode
      ≡ advisories ++ missing_advisories needs (final_seating raiders tmpl mode).got order
unfolding pool_needs
advise-assign pool tmpl mode result u h nonempty =
    let (other, same, comp) = assign_total pool tmpl mode in
    let shown = assign-IsSettled pool tmpl mode result u h in
    let size : length result.assignments ≡ length (with_roles pool) =
      length_as_pool {result = result} {other = other} (ground (arith, same, h)) comp in
    advise_cons result.assignments tmpl mode nonempty
    ∙ rw (size, pool_needs)
        (ap (λ advisories. (resolve tmpl mode (length (with_roles pool))).1 ++ advisories)
          (missing_advisories-ext _ _ _ order (λ g. ground (
            arith,
            count_seats_lem (record { tanks = 0; healers = 0; dps = 0 }) result.assignments g,
            (shown g).0,
            got_of-none g,
          ))))
