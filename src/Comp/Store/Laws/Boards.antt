-- ===== src/Comp/Store/Laws/Boards.antt =====
-- The tables implement the boards of Comp/Spec.antt.
use mathlib.Core.List.{append-nil}
use mathlib.Core.Path.{fun_ext}
use raider_mate_service.Prelude.{
  ℕ, ◌≡◌, refl, ap, subst, ◌∙◌, inl, inr, Bool, true, false, not, ◌&&◌, some, List, [], ◌∷◌, ◌++◌,
  map, arith, All, Bool-cases, ◌==◌, ==_iff, ==_refl, if◌then◌else◌,
}
use raider_mate_service.Prelude.Text.{String, str_eq, str_eq_iff, str_eq_refl}
use raider_mate_service.Prelude.Filter.{
  filter_by, any_by, find_by, filter_by-append, filter_by_none, filter_by-All, filter_by-false,
  filter_by-filter_by, any_by-filter_by-not, find_by-append, find_by-none, find_by-some,
}
use raider_mate_service.Prelude.Sort.{sort_by}
use raider_mate_service.Comp.Types.{CompMode, Assignment}
use raider_mate_service.Signup.Types.{done}
use raider_mate_service.Tables.{Db, in_comp, of_comp}
use raider_mate_service.Tables.Comps.{get_comp, upsert_comp, list_comp_slots, slot_before, slot_row}
use raider_mate_service.Comp.Store.{ReplaceComp, ok}
use raider_mate_service.Comp.Store.Tx.{Connection}
use raider_mate_service.Comp.Store.Postgres.{replace_comp}
use raider_mate_service.Comp.Store.Laws.{replace_comp-IsReplaced}
use raider_mate_service.Comp.Spec.{boards, mode_or, is_key, replace}

pub same_key :
    (a : ℕ) (b : String) (e : ℕ) (n : String) → (a == e && str_eq b n) ≡ true → (a ≡ e) × (b ≡ n)
same_key a b e n h = ((==_iff a e).0 (ground (arith, h)), (str_eq_iff b n).0 (ground (arith, h)))

pub key_refl : (a : ℕ) (b : String) → (a == a && str_eq b b) ≡ true
key_refl a b = rw (==_refl a, str_eq_refl b) refl

-- Two keys that are not the same have no row in common.
pub key_apart :
    (event_id : ℕ) (name : String) (e : ℕ) (n : String) (a : ℕ) (b : String)
    → is_key event_id name e n ≡ false
    → (a == e && str_eq b n) ≡ true
    → (a == event_id && str_eq b name) ≡ false
key_apart event_id name e n a b h k = elim (Bool-cases (a == event_id && str_eq b name)) [
  | inr r ↦ r
  | inl r ↦
      let (p, q) = same_key a b e n k in
      let (p', q') = same_key a b event_id name r in
      let same : is_key event_id name e n ≡ true =
        subst (λ x. (x == e && str_eq name n) ≡ true) p'
          (subst (λ y. (a == e && str_eq y n) ≡ true) q' k) in
      absurd (ground (arith, same, h))
]

map-slot_row :
    (event_id : ℕ) (name : String) (slots : List Assignment)
    → map (λ r. r.slot) (map (slot_row event_id name) slots) ≡ slots
map-slot_row event_id name [] = refl
map-slot_row event_id name (a ∷ slots) = ap (λ xs. a ∷ xs) (map-slot_row event_id name slots)

All-slot_row :
    (event_id : ℕ) (name : String) (e : ℕ) (n : String) (b : Bool) (slots : List Assignment)
    → is_key event_id name e n ≡ b
    → All (λ r. in_comp e n r ≡ b) (map (slot_row event_id name) slots)
All-slot_row event_id name e n b [] h = tt
All-slot_row event_id name e n b (a ∷ slots) h = (h, All-slot_row event_id name e n b slots h)

upsert_comp-slots :
    (event_id : ℕ) (name : String) (mode : CompMode) (db db' : Db)
    → upsert_comp event_id name mode db ≡ done db'
    → db'.comp_slots ≡ db.comp_slots
unfolding upsert_comp
upsert_comp-slots event_id name mode db db' h = ground (arith, h)

-- Either the comp was there, or it is the row that was added.
upsert_comp-comps :
    (event_id : ℕ) (name : String) (mode : CompMode) (db db' : Db)
    → upsert_comp event_id name mode db ≡ done db'
    → db'.comps ≡ (
        if any_by (of_comp event_id name) db.comps
        then db.comps
        else db.comps ++ record { event_id = event_id; name = name; mode = mode } ∷ [])
unfolding upsert_comp
upsert_comp-comps event_id name mode db db' h = ground (arith, h)

get_comp_eq :
    (event_id : ℕ) (name : String) (db db' : Db)
    → db'.comps ≡ db.comps
    → get_comp event_id name db' ≡ get_comp event_id name db
unfolding get_comp
get_comp_eq event_id name db db' h = rw (get_comp, h) refl

get_comp-own :
    (event_id : ℕ) (name : String) (mode : CompMode) (db db' : Db)
    → upsert_comp event_id name mode db ≡ done db'
    → get_comp event_id name db' ≡ some (mode_or mode (boards db event_id name))
unfolding get_comp find_by
get_comp-own event_id name mode db db' h =
    let comps = upsert_comp-comps event_id name mode db db' h in
    elim (Bool-cases (any_by (of_comp event_id name) db.comps)) [
      | inl e ↦
          let (c, f, _) = find_by-some (of_comp event_id name) db.comps e in
          rw (get_comp, comps, e, f) refl
      | inr e ↦
          rw
            (
              get_comp,
              comps,
              e,
              find_by-append (of_comp event_id name) db.comps,
              e,
              find_by,
              key_refl event_id name,
              find_by-none (of_comp event_id name) db.comps e,
            )
            refl
    ]

get_comp-other :
    (event_id : ℕ) (name : String) (mode : CompMode) (e : ℕ) (n : String) (db db' : Db)
    → is_key event_id name e n ≡ false
    → upsert_comp event_id name mode db ≡ done db'
    → get_comp e n db' ≡ get_comp e n db
unfolding get_comp find_by
get_comp-other event_id name mode e n db db' k h =
    let comps = upsert_comp-comps event_id name mode db db' h in
    elim (Bool-cases (any_by (of_comp event_id name) db.comps)) [
      | inl f ↦ rw (get_comp, comps, f) refl
      | inr f ↦ elim (Bool-cases (any_by (of_comp e n) db.comps)) [
        | inl g ↦ rw (get_comp, comps, f, find_by-append (of_comp e n) db.comps, g) refl
        | inr g ↦
            rw
              (
                get_comp,
                comps,
                f,
                find_by-append (of_comp e n) db.comps,
                g,
                find_by,
                k,
                find_by-none (of_comp e n) db.comps g,
              )
              refl
      ]
    ]

module _ (connection : Connection) (arg : ReplaceComp) (db db' : Db)
    (h : replace_comp connection arg db ≡ ok db') where
  slots_own :
      list_comp_slots arg.event_id arg.comp_name db' ≡ sort_by slot_before arg.result.assignments
  unfolding list_comp_slots
  slots_own =
      let r = replace_comp-IsReplaced connection arg db db' h in
      let own = in_comp arg.event_id arg.comp_name in
      let rows = map (slot_row arg.event_id arg.comp_name) arg.result.assignments in
      let old = filter_by (λ x. not (own x)) r.with_comp.comp_slots in
      let gone : filter_by own old ≡ [] =
        filter_by_none own old (any_by-filter_by-not own own r.with_comp.comp_slots (λ x e. e)) in
      let all : filter_by own rows ≡ rows = filter_by-All own rows (
        All-slot_row arg.event_id arg.comp_name arg.event_id arg.comp_name true
          arg.result.assignments (key_refl arg.event_id arg.comp_name)) in
      rw (list_comp_slots, r.comp_slots, filter_by-append own old rows, gone, all, map-slot_row)
        refl

  slots_other :
      (e : ℕ) (n : String)
      → is_key arg.event_id arg.comp_name e n ≡ false
      → list_comp_slots e n db' ≡ list_comp_slots e n db
  unfolding list_comp_slots
  slots_other e n k =
      let r = replace_comp-IsReplaced connection arg db db' h in
      let own = in_comp arg.event_id arg.comp_name in
      let rows = map (slot_row arg.event_id arg.comp_name) arg.result.assignments in
      let old = filter_by (λ x. not (own x)) r.with_comp.comp_slots in
      let kept : filter_by (in_comp e n) old ≡ filter_by (in_comp e n) r.with_comp.comp_slots =
        filter_by-filter_by (in_comp e n) (λ x. not (own x)) r.with_comp.comp_slots
          (λ x i. ap not (key_apart arg.event_id arg.comp_name e n x.event_id x.comp_name k i)) in
      let none_new : filter_by (in_comp e n) rows ≡ [] =
        filter_by-false (in_comp e n) rows
          (All-slot_row arg.event_id arg.comp_name e n false arg.result.assignments k) in
      rw
        (
          list_comp_slots,
          r.comp_slots,
          filter_by-append (in_comp e n) old rows,
          kept,
          none_new,
          append-nil,
          upsert_comp-slots arg.event_id arg.comp_name arg.mode db r.with_comp r.upserted,
        )
        refl

  board_own :
      boards db' arg.event_id arg.comp_name
      ≡ some (
        mode_or arg.mode (boards db arg.event_id arg.comp_name),
        sort_by slot_before arg.result.assignments,
      )
  board_own =
      let r = replace_comp-IsReplaced connection arg db db' h in
      let mode =
        get_comp_eq arg.event_id arg.comp_name r.with_comp db' r.comps
        ∙ get_comp-own arg.event_id arg.comp_name arg.mode db r.with_comp r.upserted in
      rw (mode, slots_own) refl

  at_key : (e : ℕ) (n : String) → boards db' e n ≡ replace arg (boards db) e n
  unfolding replace
  at_key e n = elim (Bool-cases (is_key arg.event_id arg.comp_name e n)) [
    | inl k ↦
        let (p, q) = same_key arg.event_id arg.comp_name e n k in
        rw (replace, k)
          (subst
            (λ x.
              boards db' x n
              ≡ some (mode_or arg.mode (boards db x n), sort_by slot_before arg.result.assignments))
            p
            (subst
              (λ y.
                boards db' arg.event_id y
                ≡ some (
                  mode_or arg.mode (boards db arg.event_id y),
                  sort_by slot_before arg.result.assignments,
                ))
              q board_own))
    | inr k ↦
        let r = replace_comp-IsReplaced connection arg db db' h in
        let mode =
          get_comp_eq e n r.with_comp db' r.comps
          ∙ get_comp-other arg.event_id arg.comp_name arg.mode e n db r.with_comp k r.upserted in
        rw (replace, k, mode, slots_other e n k) refl
  ]

  -- A whole-board write that succeeds replaces one board and leaves the others.
  pub replace_comp-boards : boards db' ≡ replace arg (boards db)
  replace_comp-boards = fun_ext (λ e. fun_ext (λ n. at_key e n))
