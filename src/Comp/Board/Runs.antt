-- ===== src/Comp/Board/Runs.antt =====
-- What the raid lead's board is worth: the locks, and the saves at other boards, that come after it.
use raider_mate_service.Prelude.{
  ℕ, ◌≡◌, ◌∙◌, ap, refl, inl, inr, Bool, true, false, Option, none, some, List, arith, Bool-cases,
}
use raider_mate_service.Prelude.Text.{String}
use raider_mate_service.Comp.Types.{Template, CompMode, manual, auto, Assignment, Result}
use raider_mate_service.Comp.Manual.{Placement}
use raider_mate_service.Tables.{Db}
use raider_mate_service.Tables.Comps.{get_comp}
use raider_mate_service.Comp.Store.{Answer, ok, ReplaceComp}
use raider_mate_service.Comp.Store.Tx.{Connection}
use raider_mate_service.Comp.Store.Postgres.{postgres}
use raider_mate_service.Comp.Store.Laws.Boards.{same_key}
use raider_mate_service.Comp.Spec.{boards, board_of, is_key, replace}
use raider_mate_service.Comp.Board.{is_manual, lock, save}
use raider_mate_service.Comp.Board.Laws.{lock-boards, lock-is_manual, save-boards}

module _ (parse_template : String → Answer Template) (before : String → String → Bool)
    (connection : Connection) where
  -- A lock of any comp, or a save of another board than `name`, that went through.
  pub data Step (event_id : ℕ) (name : String) : Db → Db → Type 0 where
    locked :
        (e : ℕ) (n : String) (result : Result) (db db' : Db)
        → lock (postgres parse_template before connection) e n db ≡ some (ok (result, db'))
        → Step event_id name db db'
    saved :
        (e : ℕ) (n : String) (placements : List Placement) (db db' : Db)
        → is_key e n event_id name ≡ false
        → save (postgres parse_template before connection) e n placements db ≡ ok db'
        → Step event_id name db db'

  pub data Steps (event_id : ℕ) (name : String) : Db → Db → Type 0 where
    start : (db : Db) → Steps event_id name db db
    more :
        (db db' db'' : Db)
        → Steps event_id name db db'
        → Step event_id name db' db''
        → Steps event_id name db db''

  replace_elsewhere :
      (arg : ReplaceComp) (event_id : ℕ) (name : String) (db db' : Db)
      → is_key arg.event_id arg.comp_name event_id name ≡ false
      → boards db' ≡ replace arg (boards db)
      → boards db' event_id name ≡ boards db event_id name
  unfolding replace
  replace_elsewhere arg event_id name db db' k h =
      ap (λ bs. bs event_id name) h ∙ rw (replace, k) refl

  board_is_manual :
      (found : Option CompMode) (slots slots' : List Assignment)
      → board_of found slots ≡ some (manual, slots')
      → is_manual found ≡ true
  board_is_manual none slots slots' h = absurd (ground (arith, h))
  board_is_manual (some manual) slots slots' h = refl
  board_is_manual (some auto) slots slots' h = absurd (ground (arith, h))

  step_keeps :
      (event_id : ℕ) (name : String) (slots : List Assignment) (db db' : Db)
      → Step event_id name db db'
      → boards db event_id name ≡ some (manual, slots)
      → boards db' event_id name ≡ some (manual, slots)
  step_keeps event_id name slots db db' (saved e n placements _ _ k h) m =
      let (written, _, r) = save-boards parse_template before connection e n placements db db' h in
      replace_elsewhere _ event_id name db db' k r ∙ m
  step_keeps event_id name slots db db' (locked e n result _ _ h) m =
      let r = lock-boards parse_template before connection e n db db' result h in
      elim (Bool-cases (is_key e n event_id name)) [
        | inr k ↦ replace_elsewhere _ event_id name db db' k r ∙ m
        | inl k ↦
            let (p, q) = same_key e n event_id name k in
            let owned = board_is_manual (get_comp event_id name db) _ slots m in
            let free = lock-is_manual parse_template before connection e n db db' result h in
            absurd (ground (arith, owned, rw (p, q) at free))
      ]

  -- A raid lead's board survives every later lock, and every later save of another board.
  pub manual_board_survives :
      (event_id : ℕ) (name : String) (slots : List Assignment) (db db' : Db)
      → Steps event_id name db db'
      → boards db event_id name ≡ some (manual, slots)
      → boards db' event_id name ≡ some (manual, slots)
  manual_board_survives event_id name slots db db' (start _) m = m
  manual_board_survives event_id name slots db db' (more _ mid _ before_it step) m =
      step_keeps event_id name slots mid db' step
        (manual_board_survives event_id name slots db mid before_it m)
