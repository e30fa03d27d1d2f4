-- ===== src/Comp/Board/RoundTrip.antt =====
-- What a raid lead saves is what Get reads back.
use mathlib.Core.List.{map-append}
use raider_mate_service.Prelude.{
  ℕ, ◌≤◌, ◌≡◌, refl, ap, ap₂, sym, ◌∙◌, inl, inr, Bool, not, some, List, [], ◌∷◌, ◌++◌, map, arith,
  length, Option-cases,
}
use raider_mate_service.Prelude.Int.{half16}
use raider_mate_service.Prelude.Text.{String}
use raider_mate_service.Prelude.Filter.{filter_by, filter_by-map}
use raider_mate_service.Prelude.Sort.{sort_by}
use raider_mate_service.Comp.Types.{Template, Mode, manual, Assignment}
use raider_mate_service.Comp.Manual.{Placement}
use raider_mate_service.Comp.Manual.Laws.{Written}
use raider_mate_service.Tables.{Db}
use raider_mate_service.Tables.Comps.{slot_before}
use raider_mate_service.Comp.Store.{Answer, ok}
use raider_mate_service.Comp.Store.Tx.{Connection}
use raider_mate_service.Comp.Store.Postgres.{postgres, comp_shape}
use raider_mate_service.Comp.Board.{Board, save, get}
use raider_mate_service.Comp.Board.Laws.{save-Written, get-boards}
use raider_mate_service.Comp.Board.Order.{is_seated, is_benched, Written-InOrder, sort_by-InOrder}

abbrev pub placement_of : Assignment → Placement
placement_of a = record { character_id = a.character_id; role = some a.role; is_bench = a.is_bench }

map-placement_of :
    (seated benched : ℕ) (ps : List Placement) (out : List Assignment)
    → Written seated benched ps out
    → map placement_of out ≡ ps
map-placement_of seated benched [] [] w = refl
map-placement_of seated benched (p ∷ ps) (o ∷ out) w =
    let same : placement_of o ≡ p =
      λ i. record { character_id = w.0 i; role = w.1 i; is_bench = w.2 i } in
    ap₂ (λ x xs. x ∷ xs) same (map-placement_of _ _ ps out w.4)
map-placement_of seated benched [] (o ∷ out) w = absurd w
map-placement_of seated benched (p ∷ ps) [] w = absurd w

-- The order in which Get lists a board: the seated placements, then the benched ones, each as
-- submitted.
abbrev pub seated_first : List Placement → List Placement
seated_first ps = filter_by (λ p. not p.is_bench) ps ++ filter_by (λ p. p.is_bench) ps

read_back :
    (ps : List Placement) (out : List Assignment)
    → length ps ≤ half16
    → Written 0 0 ps out
    → map placement_of (sort_by slot_before out) ≡ seated_first ps
read_back ps out b w =
    let back = map-placement_of 0 0 ps out w in
    ap (map placement_of) (sort_by-InOrder out (Written-InOrder 0 0 ps out (omega (arith, b)) w))
    ∙ map-append placement_of (filter_by is_seated out) (filter_by is_benched out)
    ∙ ap₂ (λ xs ys. xs ++ ys) (sym (filter_by-map (λ p. not p.is_bench) placement_of out))
        (sym (filter_by-map (λ p. p.is_bench) placement_of out))
    ∙ ap seated_first back

module _ (parse_template : String → Answer Template) (before : String → String → Bool)
    (connection : Connection) where
  -- Once a save has succeeded, Get finds a raid lead's comp whose slots are the placements that were
  -- submitted, the seated ones first and each half in its order, provided that they are few enough for an
  -- int16 and the event has a readable template.
  pub get-save :
      (event_id : ℕ) (name : String) (placements : List Placement) (db db' : Db)
      (template : Template) (sizing : Mode)
      → length placements ≤ half16
      → save (postgres parse_template before connection) event_id name placements db ≡ ok db'
      → comp_shape parse_template event_id db' ≡ ok (template, sizing)
      → (b : Board) × (get (postgres parse_template before connection) event_id name db'
          ≡ ok (some b))
        × (b.mode ≡ manual)
        × (map placement_of b.slots ≡ seated_first placements)
  get-save event_id name placements db db' template sizing l h shape =
      let (slots, m, w, held) =
        save-Written parse_template before connection event_id name placements db db' h in
      let (found, g, view, _) =
        get-boards parse_template before connection event_id name db' template sizing shape in
      elim (Option-cases found) [
        | inl n ↦ absurd (ground (arith, n, view, held))
        | inr (b, e) ↦
            let k = rw e at (view ∙ held) in
            let mode : b.mode ≡ manual = ground (arith, k) in
            let read : b.slots ≡ sort_by slot_before slots = ground (arith, k) in
            (b, g ∙ ap ok e, mode, ap (map placement_of) read ∙ read_back placements slots l w)
      ]
