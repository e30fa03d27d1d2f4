-- ===== src/Comp/Board/Laws.antt =====
-- What Lock, Save and Get do to the boards of the tables.
use raider_mate_service.Prelude.{
  ℕ, ◌≤◌, ◌≡◌, refl, ap, ◌∙◌, inl, inr, Bool, true, false, Option, none, some, List, [], ◌∷◌, map,
  arith, All, Unique, length, Option-cases,
}
use raider_mate_service.Prelude.Int.{half16}
use raider_mate_service.Prelude.Text.{String}
use raider_mate_service.Prelude.Sort.{sort_by}
use raider_mate_service.Comp.Types.{Template, Mode, CompMode, auto, manual, Assignment, Result}
use raider_mate_service.Comp.Advise.{advise}
use raider_mate_service.Comp.Manual.{Placement, ok as built, manual_assignments}
use raider_mate_service.Comp.Manual.Laws.{
  Written, HasRole, placement_id, manual_assignments_total, manual_assignments-ok,
}
use raider_mate_service.Tables.{Db, has_event, has_character}
use raider_mate_service.Tables.Comps.{
  get_comp, list_comp_slots, list_unseated_for_comp, slot_before,
}
use raider_mate_service.Comp.Store.{Answer, ok, ReplaceComp}
use raider_mate_service.Comp.Store.Tx.{Connection}
use raider_mate_service.Comp.Store.Postgres.{postgres, replace_comp, comp_shape, unseated_of}
use mathlib.Core.Option
use raider_mate_service.Comp.Store.Laws.Boards.{key_refl, replace_comp-boards}
use raider_mate_service.Comp.Store.Laws.Total.{IsUp, replace_comp_total}
use raider_mate_service.Comp.Store.Laws.Clash.{Written-NoClash}
use raider_mate_service.Comp.Spec.{Boards, boards, board_of, mode_or, replace}
use raider_mate_service.Comp.Board.{is_manual, is_auto, manual_comp, lock, save, get, Board}
use raider_mate_service.Comp.Board.Success.{lock-ok, save-ok}

Written-characters :
    (seated benched : ℕ) (ps : List Placement) (out : List Assignment) (db : Db)
    → All (λ p. has_character p.character_id db ≡ true) ps
    → Written seated benched ps out
    → All (λ a. has_character a.character_id db ≡ true) out
Written-characters seated benched [] [] db c w = tt
Written-characters seated benched (p ∷ ps) (o ∷ out) db c w =
    (rw w.0 c.0, Written-characters _ _ ps out db c.1 w.4)
Written-characters seated benched [] (o ∷ out) db c w = absurd w
Written-characters seated benched (p ∷ ps) [] db c w = absurd w

mode_or-is_auto :
    (found : Option CompMode) (slots : List Assignment)
    → is_auto found ≡ false
    → mode_or manual (board_of found slots) ≡ manual
mode_or-is_auto none slots h = refl
mode_or-is_auto (some manual) slots h = refl
mode_or-is_auto (some auto) slots h = absurd (ground (arith, h))

replace-own :
    (arg : ReplaceComp) (bs : Boards)
    → replace arg bs arg.event_id arg.comp_name
      ≡ some (
        mode_or arg.mode (bs arg.event_id arg.comp_name),
        sort_by slot_before arg.result.assignments,
      )
unfolding replace
replace-own arg bs = rw (replace, key_refl arg.event_id arg.comp_name) refl

module _ (parse_template : String → Answer Template) (before : String → String → Bool)
    (connection : Connection) where
  -- The boards after a lock that succeeds.
  pub lock-boards :
      (event_id : ℕ) (name : String) (db db' : Db) (result : Result)
      → lock (postgres parse_template before connection) event_id name db ≡ some (ok (result, db'))
      → boards db'
        ≡ replace
            (record { event_id = event_id; comp_name = name; mode = auto; result = result })
            (boards db)
  unfolding postgres
  lock-boards event_id name db db' result h =
      let (found, k, m, raiders, template, mode, p, a, w) =
        lock-ok (postgres parse_template before connection) event_id name db db' result h in
      replace_comp-boards connection _ db db' w

  pub lock-is_manual :
      (event_id : ℕ) (name : String) (db db' : Db) (result : Result)
      → lock (postgres parse_template before connection) event_id name db ≡ some (ok (result, db'))
      → is_manual (get_comp event_id name db) ≡ false
  unfolding postgres
  lock-is_manual event_id name db db' result h =
      let (found, k, m, raiders, template, mode, p, a, w) =
        lock-ok (postgres parse_template before connection) event_id name db db' result h in
      let same : get_comp event_id name db ≡ found = ground (arith, k) in rw same m

  pub save-boards :
      (event_id : ℕ) (name : String) (placements : List Placement) (db db' : Db)
      → save (postgres parse_template before connection) event_id name placements db ≡ ok db'
      → (slots : List Assignment) × (manual_assignments placements ≡ built slots)
        × (boards db'
            ≡ replace
                (record {
                  event_id = event_id;
                  comp_name = name;
                  mode = manual;
                  result = record { assignments = slots; advisories = [] };
                })
                (boards db))
  unfolding postgres
  save-boards event_id name placements db db' h =
      let (found, k, m, slots, b, w) =
        save-ok (postgres parse_template before connection) event_id name placements db db' h in
      (slots, b, replace_comp-boards connection _ db db' w)

  held_after :
      (event_id : ℕ) (name : String) (slots : List Assignment) (db db' : Db)
      → is_auto (get_comp event_id name db) ≡ false
      → replace_comp connection
          (manual_comp (postgres parse_template before connection) event_id name slots)
          db
        ≡ ok db'
      → boards db' event_id name ≡ some (manual, sort_by slot_before slots)
  held_after event_id name slots db db' free h =
      let arg = manual_comp (postgres parse_template before connection) event_id name slots in
      ap (λ bs. bs event_id name) (replace_comp-boards connection arg db db' h)
      ∙ replace-own arg (boards db)
      ∙ rw (mode_or-is_auto (get_comp event_id name db) (list_comp_slots event_id name db) free)
          refl

  -- What a save that succeeds leaves: a raid lead's comp with the slots that were asked for.
  pub save-Written :
      (event_id : ℕ) (name : String) (placements : List Placement) (db db' : Db)
      → save (postgres parse_template before connection) event_id name placements db ≡ ok db'
      → (slots : List Assignment) × (manual_assignments placements ≡ built slots)
        × Written 0 0 placements slots
        × (boards db' event_id name ≡ some (manual, sort_by slot_before slots))
  unfolding postgres
  save-Written event_id name placements db db' h =
      let (found, k, m, slots, b, w) =
        save-ok (postgres parse_template before connection) event_id name placements db db' h in
      let (u, r) = manual_assignments-ok placements slots b in
      let (out, e, written) = manual_assignments_total placements u r in
      let same : out ≡ slots = ground (arith, b, e) in
      let free : is_auto (get_comp event_id name db) ≡ false = ground (arith, k, m) in
      (slots, b, rw same at written, held_after event_id name slots db db' free w)

  -- A board of distinct characters that exist, each with a role and few enough for an int16, is saved to
  -- an event that exists, while the connection begins and commits transactions, unless the comp is the
  -- assigner's. The tables then hold it as a manual board, with its slots in the order of reading, and
  -- each half is numbered from 0 in the order of the placements.
  pub save_total :
      (event_id : ℕ) (name : String) (placements : List Placement) (db : Db)
      → IsUp connection
      → has_event event_id db ≡ true
      → is_auto (get_comp event_id name db) ≡ false
      → Unique placement_id placements
      → All HasRole placements
      → All (λ p. has_character p.character_id db ≡ true) placements
      → length placements ≤ half16
      → (slots : List Assignment) × (db' : Db) × (save
            (postgres parse_template before connection)
            event_id
            name
            placements
            db
          ≡ ok db')
        × Written 0 0 placements slots
        × (boards db' event_id name ≡ some (manual, sort_by slot_before slots))
  unfolding postgres save
  save_total event_id name placements db up e m u r c b =
      let (slots, k, w) = manual_assignments_total placements u r in
      let arg = manual_comp (postgres parse_template before connection) event_id name slots in
      let (db', h) =
        replace_comp_total connection arg db up e (Written-characters 0 0 placements slots db c w)
          (Written-NoClash 0 0 placements slots u (omega (arith, b)) w) in
      let saved : save (postgres parse_template before connection) event_id name placements db
          ≡ ok db' =
        rw (save, m, k, h) refl in
      (slots, db', saved, w, held_after event_id name slots db db' m h)

  -- What Get answers is the board that the tables hold, with what Advise says of it.
  pub get-boards :
      (event_id : ℕ) (name : String) (db : Db) (template : Template) (sizing : Mode)
      → comp_shape parse_template event_id db ≡ ok (template, sizing)
      → (found : Option Board) × (get (postgres parse_template before connection) event_id name db
          ≡ ok found)
        × (Option.map (λ b. (b.mode, b.slots)) found ≡ boards db event_id name)
        × (Option.map (λ b. b.advisories) found
            ≡ Option.map (λ b. advise b.slots template sizing) found)
  unfolding postgres get
  get-boards event_id name db template sizing h = elim (Option-cases (get_comp event_id name db)) [
    | inl k ↦ (none, rw (get, k) refl, rw k refl, refl)
    | inr (mode, k) ↦ (
      some (record {
        name = name;
        mode = mode;
        slots = list_comp_slots event_id name db;
        advisories = advise (list_comp_slots event_id name db) template sizing;
        unseated = map unseated_of (list_unseated_for_comp event_id name db);
      }),
      rw (get, k, h) refl,
      rw k refl,
      refl,
    )
  ]
