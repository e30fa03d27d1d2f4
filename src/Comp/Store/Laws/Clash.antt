-- ===== src/Comp/Store/Laws/Clash.antt =====
-- The slots that manualAssignments writes keep the unique constraints of comp_slots.
use raider_mate_service.Prelude.{
  ℕ, suc, ◌+◌, ◌≤◌, ◌<◌, ◌≡◌, ◌≢◌, inl, inr, true, false, List, [], ◌∷◌, arith, All, Unique, length,
  Bool-cases, if◌then◌else◌,
}
use raider_mate_service.Prelude.Int.{pos, to_int16, to_int16_self, half16, eqb_ℤ}
use raider_mate_service.Comp.Types.{Assignment}
use raider_mate_service.Comp.Rank.{bool_eq}
use raider_mate_service.Comp.Manual.{Placement}
use raider_mate_service.Comp.Manual.Laws.{Written, placement_id}
use raider_mate_service.Tables.Comps.{clashes}

-- No two of the slots break a unique constraint.
abbrev pub NoClash : List Assignment → Type 0
NoClash [] = Unit
NoClash (a ∷ slots) = All (λ b. clashes a b ≡ false) slots × NoClash slots

int16_apart : (j k : ℕ) → j < k → k < half16 → eqb_ℤ (to_int16 (pos j)) (to_int16 (pos k)) ≡ false
int16_apart j k h b =
    rw (to_int16_self j (omega (arith, h, b)), to_int16_self k b) (ground (arith, h))

-- Slots of two characters, on two halves or at two places of one.
slot_apart :
    (a o : Assignment) (k j : ℕ)
    → a.slot_index ≡ to_int16 (pos k)
    → o.slot_index ≡ to_int16 (pos j)
    → o.character_id ≢ a.character_id
    → (bool_eq a.is_bench o.is_bench ≡ true → k < j)
    → j < half16
    → clashes a o ≡ false
slot_apart a o k j i i' u l b = elim (Bool-cases (bool_eq a.is_bench o.is_bench)) [
  | inr e ↦ rw e (ground (arith, u))
  | inl e ↦
      let apart : eqb_ℤ a.slot_index o.slot_index ≡ false = rw (i, i') (int16_apart k j (l e) b) in
      rw (e, apart) (ground (arith, u))
]

-- A slot that was written before the others, on its half.
Written-apart :
    (a : Assignment) (k : ℕ) (seated benched : ℕ) (ps : List Placement) (out : List Assignment)
    → a.slot_index ≡ to_int16 (pos k)
    → k < (if a.is_bench then benched else seated)
    → All (λ p. placement_id p ≢ a.character_id) ps
    → seated + benched + length ps ≤ half16
    → Written seated benched ps out
    → All (λ b. clashes a b ≡ false) out
Written-apart a k seated benched [] [] i l u b w = tt
Written-apart a k seated benched (p ∷ ps) (o ∷ out) i l u b w = (
  slot_apart a o k (if p.is_bench then benched else seated) i w.3 (ground (arith, w.0, u.0))
      (λ e. ground (arith, e, w.2, l)) (ground (arith, b)),
  Written-apart a k (if p.is_bench then seated else suc seated)
      (if p.is_bench then suc benched else benched) ps out i (ground (arith, l)) u.1
      (ground (arith, b)) w.4,
)
Written-apart a k seated benched [] (o ∷ out) i l u b w = absurd w
Written-apart a k seated benched (p ∷ ps) [] i l u b w = absurd w

pub Written-NoClash :
    (seated benched : ℕ) (ps : List Placement) (out : List Assignment)
    → Unique placement_id ps
    → seated + benched + length ps ≤ half16
    → Written seated benched ps out
    → NoClash out
Written-NoClash seated benched [] [] u b w = tt
Written-NoClash seated benched (p ∷ ps) (o ∷ out) u b w = (
  Written-apart o (if p.is_bench then benched else seated)
      (if p.is_bench then seated else suc seated) (if p.is_bench then suc benched else benched) ps
      out w.3 (ground (arith, w.2)) (rw w.0 u.0) (ground (arith, b)) w.4,
  Written-NoClash (if p.is_bench then seated else suc seated)
      (if p.is_bench then suc benched else benched) ps out u.1 (ground (arith, b)) w.4,
)
Written-NoClash seated benched [] (o ∷ out) u b w = absurd w
Written-NoClash seated benched (p ∷ ps) [] u b w = absurd w
