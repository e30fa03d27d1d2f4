-- ===== src/RaidLog/Reckon.antt =====
-- The turnout accounts for everybody: who was expected, and every actor of the log.
use raider_mate_service.Prelude.{
  ℕ, ◌+◌, ◌≡◌, Bool, false, ◌&&◌, not, none, some, List, Unique, length, ◌==◌,
}
use raider_mate_service.Prelude.Filter.{any_by}
use raider_mate_service.Comp.Manual.{is_seen}
use raider_mate_service.RaidLog.{Matched, Turnout}

-- Whether an entry is this character.
abbrev pub is_entry_of : ℕ → Matched → Bool
is_entry_of id m = elim m.character_id [ none ↦ false | some c ↦ c == id ]

abbrev pub the_id : ℕ → ℕ
the_id id = id

pub record IsTurnout (matched : List Matched) (expected : List ℕ) (t : Turnout) : Type 0 where
  pub attended : (id : ℕ) → is_seen id t.attended ≡ any_by (is_entry_of id) matched
  pub once : Unique the_id t.attended
  pub missing :
      (id : ℕ)
      → is_seen id t.missing ≡ (is_seen id expected && not (any_by (is_entry_of id) matched))
  pub counted : t.overlap.0 + t.unknown ≡ length matched
