-- ===== src/Comp/Store.antt =====
-- The persistence that internal/comp works against (compStore of lock.go, manualStore of manual.go,
-- readerStore of read.go), and its errors with what each fmt.Errorf wraps around them.
pub mod Tx
pub mod Postgres
pub mod Laws
use raider_mate_service.Prelude.{ℕ, Option, none, some, List}
use raider_mate_service.Prelude.Text.{String}
use raider_mate_service.Comp.Types.{Raider, Template, Mode, CompMode, Assignment, Result}
use raider_mate_service.Comp.Manual.{BoardError}
use raider_mate_service.Signup.Types.{SignupStatus, Failure, Reply, done, lost}

-- One constructor for each text of an fmt.Errorf.
pub data Step : Type 0 where
  beginning_tx committing_tx loading_event parsing_comp_template : Step
  upserting_comp clearing_assigned_roles loading_event_to_redraw queueing_comp_redraw : Step
  inserting_comp_slot : ℕ → Step
  renaming_comp reading_comp_mode loading_assignment_pool persisting_comp : Step
  locking_comp saving_manual_comp persisting_manual_comp setting_comp_mode : Step
  listing_comps listing_comp_slots listing_unseated_raiders reading_comp_shape : Step

-- `database` is an error of the driver, by its SQLSTATE.
pub data Error : Type 0 where
  comp_is_manual comp_is_auto comp_name_taken comp_not_found invalid_name : Error
  invalid_board : BoardError → Error
  not_json : Error
  database : Failure → Error
  wrapped : Step → Error → Error

pub data Answer (A : Type 0) : Type 0 where
  ok : A → Answer A
  err : Error → Answer A

-- if err != nil { return err }
abbrev pub and_then : {A B : Type 0} → Answer A → (A → Answer B) → Answer B
and_then (ok a) next = next a
and_then (err e) next = err e

-- if err != nil { return fmt.Errorf(step, err) }
abbrev pub wrap : {A : Type 0} → Step → Answer A → Answer A
wrap step (ok a) = ok a
wrap step (err e) = err (wrapped step e)

abbrev pub of_reply : {A : Type 0} → Reply A → Answer A
of_reply (done a) = ok a
of_reply (lost f) = err (database f)

-- errors.As(err, &pgErr): the driver's error under the wraps.
unfoldable pub pg_error : Error → Option Failure
pg_error (database f) = some f
pg_error (wrapped step e) = pg_error e
pg_error _ = none

pub record ReplaceComp : Type 0 where
  pub event_id : ℕ
  pub comp_name : String
  pub mode : CompMode
  pub result : Result

pub record CompInfo : Type 0 where
  pub name : String
  pub mode : CompMode

-- The two sentences of a raider without a seat.
pub data UnseatedReason : Type 0 where
  unseated_no_roles unseated_late : UnseatedReason

pub record Unseated : Type 0 where
  pub character_id : ℕ
  pub status : SignupStatus
  pub signed_up_at : ℕ
  pub reason : UnseatedReason

-- The three interfaces, which one store implements. A write that fails leaves the state alone.
pub record CompStore (S : Type 0) : Type 0 where
  pub assignment_pool : ℕ → S → Answer (List Raider × Template × Mode)
  pub comp_mode : ℕ → String → S → Answer (Option CompMode)
  pub set_comp_mode : ℕ → String → CompMode → S → Answer S
  pub replace_comp : ReplaceComp → S → Answer S
  pub rename_comp : ℕ → String → String → S → Answer S
  pub list_comps : ℕ → S → Answer (List CompInfo)
  pub list_comp_slots : ℕ → String → S → Answer (List Assignment)
  pub list_unseated : ℕ → String → S → Answer (List Unseated)
  pub comp_shape : ℕ → S → Answer (Template × Mode)
