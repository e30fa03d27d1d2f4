-- ===== src/Comp/Board/Order.antt =====
-- The order in which the slots of a saved board are read.
use raider_mate_service.Prelude.{
  ℕ, suc, ◌+◌, ◌≤◌, ◌<◌, ◌≡◌, refl, ap, ◌∙◌, inl, inr, Bool, true, false, not, List, [], ◌∷◌, ◌++◌,
  arith, All, length, Bool-cases, if◌then◌else◌,
}
use raider_mate_service.Prelude.Int.{pos, to_int16, to_int16_self, half16, ltb_ℤ}
use raider_mate_service.Prelude.Filter.{filter_by, filter_by_keep, filter_by_skip}
use raider_mate_service.Prelude.Sort.{insert_by, sort_by}
use raider_mate_service.Comp.Types.{Assignment}
use raider_mate_service.Comp.Rank.{bool_eq}
use raider_mate_service.Comp.Manual.{Placement}
use raider_mate_service.Comp.Manual.Laws.{Written}
use raider_mate_service.Tables.Comps.{slot_before}

int16_after : (j k : ℕ) → k ≤ j → j < half16 → ltb_ℤ (to_int16 (pos j)) (to_int16 (pos k)) ≡ false
int16_after j k h b =
    rw (to_int16_self j b, to_int16_self k (omega (arith, h, b))) (ground (arith, h))

-- No slot of the same half comes before an earlier one.
abbrev IsAfter : Assignment → Assignment → Type 0
IsAfter a o = bool_eq o.is_bench a.is_bench ≡ true → slot_before o a ≡ false

abbrev InOrder : List Assignment → Type 0
InOrder [] = Unit
InOrder (a ∷ slots) = All (IsAfter a) slots × InOrder slots

Written-IsAfter :
    (a : Assignment) (k seated benched : ℕ) (ps : List Placement) (out : List Assignment)
    → a.slot_index ≡ to_int16 (pos k)
    → k < (if a.is_bench then benched else seated)
    → seated + benched + length ps ≤ half16
    → Written seated benched ps out
    → All (IsAfter a) out
Written-IsAfter a k seated benched [] [] i l b w = tt
Written-IsAfter a k seated benched (p ∷ ps) (o ∷ out) i l b w = (
  λ same.
      let later : ltb_ℤ o.slot_index a.slot_index ≡ false =
        rw (i, w.3)
          (int16_after (if p.is_bench then benched else seated) k (ground (arith, same, w.2, l))
            (ground (arith, b))) in
      rw (same, later) refl,
  Written-IsAfter a k (if p.is_bench then seated else suc seated)
      (if p.is_bench then suc benched else benched) ps out i (ground (arith, l)) (ground (arith, b))
      w.4,
)
Written-IsAfter a k seated benched [] (o ∷ out) i l b w = absurd w
Written-IsAfter a k seated benched (p ∷ ps) [] i l b w = absurd w

pub Written-InOrder :
    (seated benched : ℕ) (ps : List Placement) (out : List Assignment)
    → seated + benched + length ps ≤ half16
    → Written seated benched ps out
    → InOrder out
Written-InOrder seated benched [] [] b w = tt
Written-InOrder seated benched (p ∷ ps) (o ∷ out) b w = (
  Written-IsAfter o (if p.is_bench then benched else seated)
      (if p.is_bench then seated else suc seated) (if p.is_bench then suc benched else benched) ps
      out w.3 (ground (arith, w.2)) (ground (arith, b)) w.4,
  Written-InOrder (if p.is_bench then seated else suc seated)
      (if p.is_bench then suc benched else benched) ps out (ground (arith, b)) w.4,
)
Written-InOrder seated benched [] (o ∷ out) b w = absurd w
Written-InOrder seated benched (p ∷ ps) [] b w = absurd w

insert_by-front :
    (a : Assignment) (slots : List Assignment)
    → All (λ o. slot_before o a ≡ false) slots
    → insert_by slot_before a slots ≡ a ∷ slots
unfolding insert_by
insert_by-front a [] h = refl
insert_by-front a (o ∷ slots) h = rw (insert_by, h.0) refl

insert_by-behind :
    (a : Assignment) (xs ys : List Assignment)
    → All (λ o. slot_before o a ≡ true) xs
    → insert_by slot_before a (xs ++ ys) ≡ xs ++ insert_by slot_before a ys
unfolding insert_by
insert_by-behind a [] ys h = refl
insert_by-behind a (o ∷ xs) ys h =
    rw (insert_by, h.0) (ap (λ zs. o ∷ zs) (insert_by-behind a xs ys h.1))

abbrev pub is_seated : Assignment → Bool
is_seated a = not a.is_bench

abbrev pub is_benched : Assignment → Bool
is_benched a = a.is_bench

All-filter_by :
    (f : Assignment → Bool) (P Q : Assignment → Type 0) (xs : List Assignment)
    → ((x : Assignment) → f x ≡ true → P x → Q x)
    → All P xs
    → All Q (filter_by f xs)
unfolding filter_by
All-filter_by f P Q [] g h = tt
All-filter_by f P Q (x ∷ xs) g h = elim (Bool-cases (f x)) [
  | inl e ↦ rw (filter_by, e) (g x e h.0, All-filter_by f P Q xs g h.1)
  | inr e ↦ rw (filter_by, e) (All-filter_by f P Q xs g h.1)
]

All-append :
    (P : Assignment → Type 0) (xs ys : List Assignment) → All P xs → All P ys → All P (xs ++ ys)
All-append P [] ys h k = k
All-append P (x ∷ xs) ys h k = (h.0, All-append P xs ys h.1 k)

seated_after :
    (a o : Assignment)
    → a.is_bench ≡ false
    → is_seated o ≡ true
    → IsAfter a o
    → slot_before o a ≡ false
seated_after a o e f g = g (ground (arith, e, f))

benched_after :
    (a o : Assignment) → a.is_bench ≡ false → is_benched o ≡ true → slot_before o a ≡ false
benched_after a o e f = ground (arith, e, f)

seated_before : (a o : Assignment) → a.is_bench ≡ true → is_seated o ≡ true → slot_before o a ≡ true
seated_before a o e f = ground (arith, e, f)

benched_later :
    (a o : Assignment)
    → a.is_bench ≡ true
    → is_benched o ≡ true
    → IsAfter a o
    → slot_before o a ≡ false
benched_later a o e f g = g (ground (arith, e, f))

-- Read back, the seated half comes first, and each half is in the order in which it was submitted.
pub sort_by-InOrder :
    (slots : List Assignment)
    → InOrder slots
    → sort_by slot_before slots ≡ filter_by is_seated slots ++ filter_by is_benched slots
unfolding sort_by filter_by
sort_by-InOrder [] h = refl
sort_by-InOrder (a ∷ slots) h =
    let seated = filter_by is_seated slots in
    let benched = filter_by is_benched slots in
    let rest = ap (insert_by slot_before a) (sort_by-InOrder slots h.1) in
    elim (Bool-cases a.is_bench) [
      | inr e ↦
          let s = filter_by_keep is_seated a slots (ap not e) in
          let b = filter_by_skip is_benched a slots e in
          let before_all =
            All-append (λ o. slot_before o a ≡ false) seated benched
              (All-filter_by is_seated (IsAfter a) _ slots (λ o f g. seated_after a o e f g) h.0)
              (All-filter_by is_benched (IsAfter a) _ slots (λ o f g. benched_after a o e f) h.0) in
          rest ∙ insert_by-front a (seated ++ benched) before_all ∙ rw (s, b) refl
      | inl e ↦
          let s = filter_by_skip is_seated a slots (ap not e) in
          let b = filter_by_keep is_benched a slots e in
          let behind =
            All-filter_by is_seated (IsAfter a) (λ o. slot_before o a ≡ true) slots
              (λ o f g. seated_before a o e f) h.0 in
          let front =
            insert_by-front a benched (
              All-filter_by is_benched (IsAfter a) _ slots (λ o f g. benched_later a o e f g)
                h.0) in
          rest
          ∙ insert_by-behind a seated benched behind
          ∙ ap (λ zs. seated ++ zs) front
          ∙ rw (s, b) refl
    ]
