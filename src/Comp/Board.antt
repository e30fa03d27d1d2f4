-- ===== src/Comp/Board.antt =====
-- Locker.Lock of internal/comp/lock.go, Manual's Save, Rename and SetMode of manual.go, and Reader of
-- read.go, over any store.
pub mod Laws
pub mod Success
pub mod Order
pub mod RoundTrip
pub mod Runs
use raider_mate_service.Prelude.{ℕ, Bool, true, false, Option, none, some, List, [], if◌then◌else◌}
use raider_mate_service.Prelude.Text.{String, str_eq, is_empty, trim_space}
use raider_mate_service.Comp.Types.{CompMode, auto, manual, Assignment, Result, Advisory}
use raider_mate_service.Comp.Assign.{assign}
use raider_mate_service.Comp.Advise.{advise}
use raider_mate_service.Comp.Manual.{
  Placement, Board as Slots, ok as built, err as refused, manual_assignments,
}
use raider_mate_service.Comp.Store.{
  CompStore, ReplaceComp, CompInfo, Unseated, Answer, ok, err, and_then, wrap, wrapped, Step,
  locking_comp, saving_manual_comp, renaming_comp, reading_comp_mode, loading_assignment_pool,
  persisting_comp, persisting_manual_comp, setting_comp_mode, listing_comps, listing_comp_slots,
  listing_unseated_raiders, reading_comp_shape, comp_is_manual, comp_is_auto, comp_not_found,
  invalid_name, invalid_board,
}

abbrev pub is_manual : Option CompMode → Bool
is_manual (some manual) = true
is_manual _ = false

-- found && mode != db.CompModeMANUAL
abbrev pub is_auto : Option CompMode → Bool
is_auto (some auto) = true
is_auto _ = false

abbrev pub of_board : Slots → Answer (List Assignment)
of_board (built assignments) = ok assignments
of_board (refused e) = err (invalid_board e)

pub record Board : Type 0 where
  pub name : String
  pub mode : CompMode
  pub slots : List Assignment
  pub advisories : List Advisory
  pub unseated : List Unseated

module _ {S : Type 0} (store : CompStore S) where
  abbrev mode_of : ℕ → String → S → Answer (Option CompMode)
  mode_of event_id name s = wrap reading_comp_mode (store.comp_mode event_id name s)

  abbrev pub auto_comp : ℕ → String → Result → ReplaceComp
  auto_comp event_id name result = record {
    event_id = event_id;
    comp_name = name;
    mode = auto;
    result = result;
  }

  abbrev pub manual_comp : ℕ → String → List Assignment → ReplaceComp
  manual_comp event_id name slots = record {
    event_id = event_id;
    comp_name = name;
    mode = manual;
    result = record { assignments = slots; advisories = [] };
  }

  -- `none` stands for a panic of Assign.
  unfoldable pub lock : ℕ → String → S → Option (Answer (Result × S))
  lock event_id name s = elim (mode_of event_id name s) [
    | err e ↦ some (err e)
    | ok found ↦
        if is_manual found
        then some (err (wrapped locking_comp comp_is_manual))
        else elim (wrap loading_assignment_pool (store.assignment_pool event_id s)) [
          | err e ↦ some (err e)
          | ok (raiders, template, mode) ↦ elim (assign raiders template mode) [
            | none ↦ none
            | some result ↦ some (
                and_then
                  (wrap persisting_comp (store.replace_comp (auto_comp event_id name result) s))
                  (λ s'. ok (result, s')))
          ]
        ]
  ]

  unfoldable pub save : ℕ → String → List Placement → S → Answer S
  save event_id name placements s = and_then (mode_of event_id name s) (λ found.
      if is_auto found
      then err (wrapped saving_manual_comp comp_is_auto)
      else and_then (of_board (manual_assignments placements)) (λ slots.
        wrap persisting_manual_comp (store.replace_comp (manual_comp event_id name slots) s)))

  unfoldable pub rename : ℕ → String → String → S → Answer (CompMode × S)
  rename event_id from to s =
      let to = trim_space to in
      if is_empty to
      then err (wrapped renaming_comp invalid_name)
      else and_then (mode_of event_id from s) (λ found. elim found [
        | none ↦ err (wrapped renaming_comp comp_not_found)
        | some mode ↦
            if str_eq to from
            then ok (mode, s)
            else and_then (store.rename_comp event_id from to s) (λ s'. ok (mode, s'))
      ])

  unfoldable pub set_mode : ℕ → String → CompMode → S → Answer S
  set_mode event_id name mode s = wrap setting_comp_mode (store.set_comp_mode event_id name mode s)

  unfoldable pub list : ℕ → S → Answer (List CompInfo)
  list event_id s = wrap listing_comps (store.list_comps event_id s)

  -- `none` is `found == false`.
  unfoldable pub get : ℕ → String → S → Answer (Option Board)
  get event_id name s = and_then (mode_of event_id name s) (λ found. elim found [
    | none ↦ ok none
    | some mode ↦
        and_then (wrap listing_comp_slots (store.list_comp_slots event_id name s)) (λ slots.
          and_then (wrap listing_unseated_raiders (store.list_unseated event_id name s))
            (λ unseated.
              and_then (wrap reading_comp_shape (store.comp_shape event_id s))
                (λ (template, sizing). ok (
                  some (record {
                    name = name;
                    mode = mode;
                    slots = slots;
                    advisories = advise slots template sizing;
                    unseated = unseated;
                  })))))
  ])
