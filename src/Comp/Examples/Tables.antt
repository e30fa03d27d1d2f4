-- ===== src/Comp/Examples/Tables.antt =====
-- Saves and locks over a small database, and their theorems there.
use raider_mate_service.Prelude.{◌≡◌, refl, Bool, true, false, some, List, [], ◌∷◌, map, arith}
use raider_mate_service.Prelude.Int.{wrap, ◌+ℤ◌}
use raider_mate_service.Prelude.Text.{String}
use raider_mate_service.Prelude.Filter.{filter_by, any_by, find_by, update_by}
use raider_mate_service.Prelude.Sort.{sort_by, insert_by}
use raider_mate_service.Comp.Types.{Template, Assignment, manual, raid_flex}
use raider_mate_service.Comp.Resolve.Bounds.{unset}
use raider_mate_service.Comp.Manual.{next, manual_assignments}
use raider_mate_service.Comp.Manual.Laws.{Written}
use raider_mate_service.Comp.Examples.Boards.{board, written}
use raider_mate_service.Signup.Types.{done}
use raider_mate_service.Tables.{Db, of_comp, has_event, has_character}
use raider_mate_service.Tables.Signups.{get_event}
use raider_mate_service.Tables.Notifications.{insert_notification}
use raider_mate_service.Tables.Comps.{
  rename_comp_row, get_comp, upsert_comp, delete_comp_slots, insert_comp_slot, clear_assigned_roles,
  set_signup_assigned_role, slot_before, list_comp_slots,
}
use raider_mate_service.Tables.Sample.{sample, seat_of}
use raider_mate_service.Comp.Store.{Answer, ok, ReplaceComp}
use raider_mate_service.Comp.Store.Tx.{Connection, in_tx, queue_redraw}
use raider_mate_service.Comp.Store.Postgres.{
  rename_comp, postgres, comp_shape, mode_for, replace_comp, write_comp, insert_slots,
  set_assigned_roles,
}
use raider_mate_service.Comp.Store.Laws.Boards.{replace_comp-boards}
use raider_mate_service.Comp.Store.Laws.Total.{IsUp}
use raider_mate_service.Comp.Store.Laws.Rename.{rename_comp-boards}
use raider_mate_service.Comp.Spec.{boards, move, replace}
use raider_mate_service.Comp.Board.{Board, save, get}
use raider_mate_service.Comp.Board.Laws.{save_total}
use raider_mate_service.Comp.Board.RoundTrip.{get-save, placement_of, seated_first}
use raider_mate_service.Comp.Board.Runs.{Steps, saved, start, more, manual_board_survives}

abbrev reads : String → Answer Template
reads text = ok unset

abbrev unordered : String → String → Bool
unordered a b = false

abbrev up : Connection
up = record { begin = λ db. done tt; commit = λ db. done tt }

abbrev up-IsUp : IsUp up
up-IsUp = record { begin = λ db. refl; commit = λ db. refl }

-- The board that "second" is saved as.
abbrev arg : ReplaceComp
arg = record {
  event_id = 1;
  comp_name = "second";
  mode = manual;
  result = record { assignments = written; advisories = [] };
}

abbrev or_sample : Answer Db → Db
or_sample (ok db) = db
or_sample _ = sample

abbrev after : Db
after = or_sample (save (postgres reads unordered up) 1 "second" board sample)

run_save : save (postgres reads unordered up) 1 "second" board sample ≡ ok after
unfolding save postgres replace_comp in_tx write_comp insert_slots set_assigned_roles upsert_comp
    delete_comp_slots insert_comp_slot clear_assigned_roles set_signup_assigned_role queue_redraw
    get_event insert_notification get_comp manual_assignments next wrap ◌+ℤ◌ has_event has_character
    any_by find_by filter_by update_by
run_save = refl

run_replace : replace_comp up arg sample ≡ ok after
unfolding save postgres replace_comp in_tx write_comp insert_slots set_assigned_roles upsert_comp
    delete_comp_slots insert_comp_slot clear_assigned_roles set_signup_assigned_role queue_redraw
    get_event insert_notification get_comp manual_assignments next wrap ◌+ℤ◌ has_event has_character
    any_by find_by filter_by update_by
run_replace = refl

run_shape : comp_shape reads 1 after ≡ ok (unset, raid_flex)
unfolding save postgres comp_shape mode_for replace_comp in_tx write_comp insert_slots
    set_assigned_roles upsert_comp delete_comp_slots insert_comp_slot clear_assigned_roles
    set_signup_assigned_role queue_redraw get_event insert_notification get_comp manual_assignments
    next wrap ◌+ℤ◌ has_event has_character any_by find_by filter_by update_by
run_shape = refl

main_held : boards sample 1 "main" ≡ some (manual, seat_of 7 ∷ [])
unfolding get_comp list_comp_slots find_by filter_by sort_by insert_by
main_held = refl

one_save : Steps reads unordered up 1 "main" sample after
one_save =
    more sample sample after (start sample) (saved 1 "second" board sample after refl run_save)

replace_comp-boards_example : boards after ≡ replace arg (boards sample)
replace_comp-boards_example = replace_comp-boards up arg sample after run_replace

get-save_example :
    (b : Board) × (get (postgres reads unordered up) 1 "second" after ≡ ok (some b))
    × (b.mode ≡ manual)
    × (map placement_of b.slots ≡ seated_first board)
get-save_example =
    get-save reads unordered up 1 "second" board sample after unset raid_flex (omega arith) run_save
      run_shape

manual_board_survives_example : boards after 1 "main" ≡ some (manual, seat_of 7 ∷ [])
manual_board_survives_example =
    manual_board_survives reads unordered up 1 "main" (seat_of 7 ∷ []) sample after one_save
      main_held

save_total_example :
    (slots : List Assignment) × (db' : Db) × (save
        (postgres reads unordered up)
        1
        "second"
        board
        sample
      ≡ ok db')
    × Written 0 0 board slots
    × (boards db' 1 "second" ≡ some (manual, sort_by slot_before slots))
unfolding any_by find_by get_comp has_event has_character
save_total_example =
    save_total reads unordered up 1 "second" board sample up-IsUp refl refl
      ((λ e. ground (arith, e), tt), (tt, tt)) (refl, (refl, tt)) (refl, (refl, tt)) (omega arith)

abbrev renamed_main : Db
renamed_main = or_sample (rename_comp up 1 "main" "alt" sample)

run_rename : rename_comp up 1 "main" "alt" sample ≡ ok renamed_main
unfolding rename_comp rename_comp_row in_tx queue_redraw get_event insert_notification has_event
    any_by find_by update_by
run_rename = refl

main_there : any_by (of_comp 1 "main") sample.comps ≡ true
unfolding any_by
main_there = refl

rename_comp-boards_example : boards renamed_main ≡ move 1 "main" "alt" (boards sample)
rename_comp-boards_example =
    rename_comp-boards up 1 "main" "alt" sample renamed_main main_there refl (main_there, tt)
      run_rename
