-- ===== src/Comp/Store/Laws/Rename.antt =====
-- A rename moves a board, with its mode and its slots, and leaves every other board.
use mathlib.Core.Path.{fun_ext}
use raider_mate_service.Prelude.{
  ℕ, ◌≡◌, refl, ap, ap₂, sym, subst, ◌∙◌, inl, inr, true, false, ◌&&◌, Option, none, some, List, [],
  ◌∷◌, map, arith, All, Bool-cases, ◌==◌, ==_iff,
}
use raider_mate_service.Prelude.Text.{String, str_eq, str_eq_iff, str_eq_refl}
use raider_mate_service.Prelude.Filter.{filter_by, any_by, update_by}
use raider_mate_service.Prelude.Moved.{
  first, find_by-filter_by, filter_by_moved, filter_by_left, filter_by_elsewhere,
}
use raider_mate_service.Prelude.Sort.{sort_by}
use raider_mate_service.Comp.Types.{CompMode, Assignment}
use raider_mate_service.Signup.Types.{done}
use raider_mate_service.Tables.{Db, CompRow, CompSlot, in_comp, of_comp}
use raider_mate_service.Tables.Comps.{get_comp, rename_comp_row, list_comp_slots, slot_before}
use raider_mate_service.Comp.Store.{Answer, ok, err, of_reply, pg_error}
use raider_mate_service.Comp.Store.Tx.{Connection, in_tx}
use raider_mate_service.Comp.Store.Postgres.{rename_comp, name_taken}
use raider_mate_service.Comp.Store.Laws.{in_tx-ok, of_reply-ok}
use raider_mate_service.Comp.Store.Laws.Boards.{same_key, key_apart}
use raider_mate_service.Comp.Spec.{boards, board_of, is_key, move}

-- The foreign key of comp_slots: every slot is on a comp.
abbrev pub HasComps : List CompRow → List CompSlot → Type 0
HasComps comps slots = All (λ r. any_by (of_comp r.event_id r.comp_name) comps ≡ true) slots

abbrev first_mode : List CompRow → Option CompMode
first_mode [] = none
first_mode (c ∷ comps) = some c.mode

abbrev slots_of : List CompSlot → List Assignment
slots_of rows = sort_by slot_before (map (λ r. r.slot) rows)

first-first_mode :
    (comps : List CompRow)
    → (elim (first comps) as (λ o. Option CompMode) [ none ↦ none | some c ↦ some c.mode ])
      ≡ first_mode comps
first-first_mode [] = refl
first-first_mode (c ∷ comps) = refl

boards_lem :
    (db : Db) (e : ℕ) (n : String)
    → boards db e n
      ≡ board_of
          (first_mode (filter_by (of_comp e n) db.comps))
          (slots_of (filter_by (in_comp e n) db.comp_slots))
unfolding get_comp list_comp_slots
boards_lem db e n =
    let mode : get_comp e n db ≡ first_mode (filter_by (of_comp e n) db.comps) =
      rw (get_comp, find_by-filter_by (of_comp e n) db.comps)
        (first-first_mode (filter_by (of_comp e n) db.comps)) in
    ap (λ m. board_of m (list_comp_slots e n db)) mode

abbrev renamed : String → CompRow → CompRow
renamed to c = record c { name = to }

abbrev moved : String → CompSlot → CompSlot
moved to r = record r { comp_name = to }

first_mode-map :
    (to : String) (comps : List CompRow) → first_mode (map (renamed to) comps) ≡ first_mode comps
first_mode-map to [] = refl
first_mode-map to (c ∷ comps) = refl

slots-map :
    (to : String) (rows : List CompSlot)
    → map (λ r. r.slot) (map (moved to) rows) ≡ map (λ r. r.slot) rows
slots-map to [] = refl
slots-map to (r ∷ rows) = ap (λ xs. r.slot ∷ xs) (slots-map to rows)

no_orphans :
    (event_id : ℕ) (to : String) (comps : List CompRow) (rows : List CompSlot)
    → any_by (of_comp event_id to) comps ≡ false
    → HasComps comps rows
    → any_by (in_comp event_id to) rows ≡ false
unfolding any_by
no_orphans event_id to comps [] free h = refl
no_orphans event_id to comps (r ∷ rows) free h = elim (Bool-cases (in_comp event_id to r)) [
  | inr e ↦ rw e (no_orphans event_id to comps rows free h.1)
  | inl e ↦
      let (p, q) = same_key r.event_id r.comp_name event_id to e in
      absurd (ground (arith, free, rw (p, q) at h.0))
]

-- The rows after a rename of a comp that is there, to another name.
record IsRenamed (event_id : ℕ) (from to : String) (db db' : Db) : Type 0 where
  free : any_by (of_comp event_id to) db.comps ≡ false
  comps : db'.comps ≡ update_by (of_comp event_id from) (renamed to) db.comps
  comp_slots : db'.comp_slots ≡ update_by (in_comp event_id from) (moved to) db.comp_slots

rename_comp_row-IsRenamed :
    (event_id : ℕ) (from to : String) (db db' : Db)
    → any_by (of_comp event_id from) db.comps ≡ true
    → str_eq from to ≡ false
    → rename_comp_row event_id from to db ≡ done db'
    → IsRenamed event_id from to db db'
unfolding rename_comp_row
rename_comp_row-IsRenamed event_id from to db db' there apart h =
    elim (Bool-cases (any_by (of_comp event_id to) db.comps)) [
      | inl e ↦ absurd (ground (arith, there, apart, e, h))
      | inr e ↦ record {
        free = e;
        comps = ground (arith, there, apart, e, h);
        comp_slots = ground (arith, there, apart, e, h);
      }
    ]

name_taken-ok : (o : Answer Db) (db : Db) → name_taken o ≡ ok db → o ≡ ok db
unfolding pg_error
name_taken-ok (ok d) db h = h
name_taken-ok (err e) db h = absurd (ground (arith, h))

rename_comp-IsRenamed :
    (connection : Connection) (event_id : ℕ) (from to : String) (db db' : Db)
    → any_by (of_comp event_id from) db.comps ≡ true
    → str_eq from to ≡ false
    → rename_comp connection event_id from to db ≡ ok db'
    → IsRenamed event_id from to db db'
unfolding rename_comp
rename_comp-IsRenamed connection event_id from to db db' there apart h =
    let run = λ (d : Db). of_reply (rename_comp_row event_id from to d) in
    let (written, w, same) =
      in_tx-ok connection event_id run db db'
        (name_taken-ok (in_tx connection event_id run db) db' h) in
    let r =
      rename_comp_row-IsRenamed event_id from to db written there apart (of_reply-ok _ written w) in
    record {
      free = r.free;
      comps = same.comps ∙ r.comps;
      comp_slots = same.comp_slots ∙ r.comp_slots;
    }

module _ (event_id : ℕ) (from to : String) (db db' : Db) (apart : str_eq from to ≡ false)
    (fk : HasComps db.comps db.comp_slots) (r : IsRenamed event_id from to db db') where
  -- What the two updates do to the selection of a key.
  is_new :
      (a : ℕ) (b : String)
      → (a == event_id && str_eq b from) ≡ true
      → (a == event_id && str_eq to to) ≡ true
  is_new a b h = rw (str_eq_refl to) (ground (arith, h))

  is_gone :
      (a : ℕ) (b : String)
      → (a == event_id && str_eq b from) ≡ true
      → (a == event_id && str_eq to from) ≡ false
  is_gone a b h = elim (Bool-cases (str_eq to from)) [
    | inr e ↦ rw e (ground arith)
    | inl e ↦
        let back : str_eq from to ≡ true =
          subst (λ x. str_eq x to ≡ true) ((str_eq_iff to from).0 e) (str_eq_refl to) in
        absurd (ground (arith, apart, back))
  ]

  other_before :
      (e : ℕ) (n : String) (a : ℕ) (b : String)
      → is_key event_id from e n ≡ false
      → (a == event_id && str_eq b from) ≡ true
      → (a == e && str_eq b n) ≡ false
  other_before e n a b k h = elim (Bool-cases (a == e && str_eq b n)) [
    | inr t ↦ t
    | inl t ↦ absurd (ground (arith, h, key_apart event_id from e n a b k t))
  ]

  other_after :
      (e : ℕ) (n : String) (a : ℕ) (b : String)
      → is_key event_id to e n ≡ false
      → (a == event_id && str_eq b from) ≡ true
      → (a == e && str_eq to n) ≡ false
  other_after e n a b k h =
      let here : a ≡ event_id = (==_iff a event_id).0 (ground (arith, h)) in
      subst (λ x. (x == e && str_eq to n) ≡ false) (sym here) k

  board_new : boards db' event_id to ≡ boards db event_id from
  board_new =
      let c =
        ap (filter_by (of_comp event_id to)) r.comps
        ∙ filter_by_moved (of_comp event_id from) (renamed to) (of_comp event_id to) db.comps
            (λ x h. is_new x.event_id x.name h) r.free in
      let s =
        ap (filter_by (in_comp event_id to)) r.comp_slots
        ∙ filter_by_moved (in_comp event_id from) (moved to) (in_comp event_id to) db.comp_slots
            (λ x h. is_new x.event_id x.comp_name h)
            (no_orphans event_id to db.comps db.comp_slots r.free fk) in
      boards_lem db' event_id to
      ∙ ap₂ (λ xs ys. board_of (first_mode xs) (slots_of ys)) c s
      ∙ ap₂ (λ m xs. board_of m (sort_by slot_before xs))
          (first_mode-map to (filter_by (of_comp event_id from) db.comps))
          (slots-map to (filter_by (in_comp event_id from) db.comp_slots))
      ∙ sym (boards_lem db event_id from)

  board_old : boards db' event_id from ≡ none
  board_old =
      let c =
        ap (filter_by (of_comp event_id from)) r.comps
        ∙ filter_by_left (of_comp event_id from) (renamed to) db.comps
            (λ x h. is_gone x.event_id x.name h) in
      boards_lem db' event_id from
      ∙ ap
          (λ xs.
            board_of (first_mode xs) (slots_of (filter_by (in_comp event_id from) db'.comp_slots)))
          c

  board_other :
      (e : ℕ) (n : String)
      → is_key event_id from e n ≡ false
      → is_key event_id to e n ≡ false
      → boards db' e n ≡ boards db e n
  board_other e n k k' =
      let c =
        ap (filter_by (of_comp e n)) r.comps
        ∙ filter_by_elsewhere (of_comp event_id from) (renamed to) (of_comp e n) db.comps
            (λ x h. other_before e n x.event_id x.name k h)
            (λ x h. other_after e n x.event_id x.name k' h) in
      let s =
        ap (filter_by (in_comp e n)) r.comp_slots
        ∙ filter_by_elsewhere (in_comp event_id from) (moved to) (in_comp e n) db.comp_slots
            (λ x h. other_before e n x.event_id x.comp_name k h)
            (λ x h. other_after e n x.event_id x.comp_name k' h) in
      boards_lem db' e n
      ∙ ap₂ (λ xs ys. board_of (first_mode xs) (slots_of ys)) c s
      ∙ sym (boards_lem db e n)

  at_key : (e : ℕ) (n : String) → boards db' e n ≡ move event_id from to (boards db) e n
  unfolding move
  at_key e n = elim (Bool-cases (is_key event_id to e n)) [
    | inl k ↦
        let (p, q) = same_key event_id to e n k in
        rw (move, k)
          (subst (λ x. boards db' x n ≡ boards db event_id from) p
            (subst (λ y. boards db' event_id y ≡ boards db event_id from) q board_new))
    | inr k ↦ elim (Bool-cases (is_key event_id from e n)) [
      | inl f ↦
          let (p, q) = same_key event_id from e n f in
          rw (move, k, f)
            (subst (λ x. boards db' x n ≡ none) p
              (subst (λ y. boards db' event_id y ≡ none) q board_old))
      | inr f ↦ rw (move, k, f) (board_other e n f k)
    ]
  ]

-- A rename of a comp that is there to another name, when it succeeds, moves its board, the mode and the
-- slots, and leaves every other board; the slots of the database are all on comps.
pub rename_comp-boards :
    (connection : Connection) (event_id : ℕ) (from to : String) (db db' : Db)
    → any_by (of_comp event_id from) db.comps ≡ true
    → str_eq from to ≡ false
    → HasComps db.comps db.comp_slots
    → rename_comp connection event_id from to db ≡ ok db'
    → boards db' ≡ move event_id from to (boards db)
rename_comp-boards connection event_id from to db db' there apart fk h =
    let r = rename_comp-IsRenamed connection event_id from to db db' there apart h in
    fun_ext (λ e. fun_ext (λ n. at_key event_id from to db db' apart fk r e n))
