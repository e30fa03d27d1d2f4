-- ===== src/Comp/Board/Success.antt =====
-- What a Lock or a Save that succeeds has done, over any store.
use raider_mate_service.Prelude.{
  ℕ, ◌≡◌, inl, inr, false, Option, some, List, arith, Bool-cases, Option-cases,
}
use raider_mate_service.Prelude.Text.{String}
use raider_mate_service.Comp.Types.{Raider, Template, Mode, CompMode, Assignment, Result}
use raider_mate_service.Comp.Assign.{assign}
use raider_mate_service.Comp.Manual.{
  Placement, Board as Slots, ok as built, err as refused, manual_assignments,
}
use raider_mate_service.Comp.Store.{ok, CompStore, wrap, persisting_manual_comp, and_then}
use raider_mate_service.Comp.Store.Laws.{Answer-cases, wrap-ok, and_then-ok}
use raider_mate_service.Comp.Board.{
  is_manual, is_auto, auto_comp, manual_comp, lock, save, of_board,
}

of_board-ok : (b : Slots) (slots : List Assignment) → of_board b ≡ ok slots → b ≡ built slots
of_board-ok (built out) slots h = ground (arith, h)
of_board-ok (refused e) slots h = absurd (ground (arith, h))

module _ {S : Type 0} (store : CompStore S) where
  -- A lock that succeeds was of a comp that no raid lead owns, computed the comp of the pool, and wrote it.
  pub lock-ok :
      (event_id : ℕ) (name : String) (s s' : S) (result : Result)
      → lock store event_id name s ≡ some (ok (result, s'))
      → (found : Option CompMode) × (store.comp_mode event_id name s ≡ ok found)
        × (is_manual found ≡ false)
        × (raiders : List Raider) × (template : Template) × (mode : Mode) × (store.assignment_pool
              event_id s
            ≡ ok (raiders, template, mode))
        × (assign raiders template mode ≡ some result)
        × (store.replace_comp (auto_comp store event_id name result) s ≡ ok s')
  unfolding lock
  lock-ok event_id name s s' result h = elim (Answer-cases (store.comp_mode event_id name s)) [
    | inr (e, k) ↦ absurd (ground (arith, k, h))
    | inl (found, k) ↦ elim (Bool-cases (is_manual found)) [
      | inl m ↦ absurd (ground (arith, k, m, h))
      | inr m ↦ elim (Answer-cases (store.assignment_pool event_id s)) [
        | inr (e, p) ↦ absurd (ground (arith, k, m, p, h))
        | inl ((raiders, template, mode), p) ↦ elim (Option-cases (assign raiders template mode)) [
          | inl a ↦ absurd (ground (arith, k, m, p, a, h))
          | inr (r, a) ↦
              elim (Answer-cases (store.replace_comp (auto_comp store event_id name r) s)) [
                | inr (e, w) ↦ absurd (ground (arith, k, m, p, a, w, h))
                | inl (t, w) ↦
                    let same_result : r ≡ result = ground (arith, k, m, p, a, w, h) in
                    let same_state : t ≡ s' = ground (arith, k, m, p, a, w, h) in
                    (
                      found,
                      k,
                      m,
                      raiders,
                      template,
                      mode,
                      p,
                      rw same_result at a,
                      rw (same_result, same_state) at w,
                    )
              ]
        ]
      ]
    ]
  ]

  -- A save that succeeds was of a comp that the assigner does not own, and wrote the board.
  pub save-ok :
      (event_id : ℕ) (name : String) (placements : List Placement) (s s' : S)
      → save store event_id name placements s ≡ ok s'
      → (found : Option CompMode) × (store.comp_mode event_id name s ≡ ok found)
        × (is_auto found ≡ false)
        × (slots : List Assignment) × (manual_assignments placements ≡ built slots)
        × (store.replace_comp (manual_comp store event_id name slots) s ≡ ok s')
  unfolding save
  save-ok event_id name placements s s' h = elim (Answer-cases (store.comp_mode event_id name s)) [
    | inr (e, k) ↦ absurd (ground (arith, k, h))
    | inl (found, k) ↦ elim (Bool-cases (is_auto found)) [
      | inl m ↦ absurd (ground (arith, k, m, h))
      | inr m ↦
          let rest : and_then (of_board (manual_assignments placements)) (λ slots.
            wrap persisting_manual_comp
              (store.replace_comp (manual_comp store event_id name slots) s))
              ≡ ok s' =
            rw (k, m, save) at h in
          let (slots, b, w) = and_then-ok (of_board (manual_assignments placements)) _ s' rest in
          (
            found,
            k,
            m,
            slots,
            of_board-ok (manual_assignments placements) slots b,
            wrap-ok persisting_manual_comp _ s' w,
          )
    ]
  ]
