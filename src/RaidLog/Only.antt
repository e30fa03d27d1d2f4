-- ===== src/RaidLog/Only.antt =====
-- The single candidate of a selection: what `only` answers to it.
use raider_mate_service.Prelude.{
  ◌≡◌, ◌↔◌, refl, ap, sym, ◌∙◌, inl, inr, Bool, true, false, some, List, [], ◌∷◌, ◌++◌, arith, All,
  Bool-cases,
}
use raider_mate_service.Prelude.Filter.{
  filter_by, filter_by-append, filter_by-false, filter_by_keep, filter_by_skip,
}
use raider_mate_service.RaidLog.{RosterCharacter, only}

-- `c` stands in the list and passes the test, and no other entry does.
pub record IsOnly (f : RosterCharacter → Bool) (cs : List RosterCharacter) (c : RosterCharacter)
    : Type 0 where
  pub before : List RosterCharacter
  pub after : List RosterCharacter
  pub stands : cs ≡ before ++ c ∷ after
  pub passes : f c ≡ true
  pub none_before : All (λ d. f d ≡ false) before
  pub none_after : All (λ d. f d ≡ false) after

filter_by_nil :
    (f : RosterCharacter → Bool) (cs : List RosterCharacter)
    → filter_by f cs ≡ []
    → All (λ d. f d ≡ false) cs
unfolding filter_by
filter_by_nil f [] h = tt
filter_by_nil f (c ∷ cs) h = elim (Bool-cases (f c)) [
  | inl e ↦ absurd (ground (arith, e, h))
  | inr e ↦ (e, filter_by_nil f cs (sym (filter_by_skip f c cs e) ∙ h))
]

only_cons :
    (c d : RosterCharacter) (cs : List RosterCharacter)
    → only (c ∷ cs) ≡ some d
    → (c ≡ d) × (cs ≡ [])
unfolding only
only_cons c d [] h = (ground (arith, h), refl)
only_cons c d (x ∷ cs) h = absurd (ground (arith, h))

only-IsOnly :
    (f : RosterCharacter → Bool) (cs : List RosterCharacter) (c : RosterCharacter)
    → only (filter_by f cs) ≡ some c
    → IsOnly f cs c
unfolding only filter_by
only-IsOnly f [] c h = absurd (ground (arith, h))
only-IsOnly f (x ∷ cs) c h = elim (Bool-cases (f x)) [
  | inl e ↦
      let (same, rest) =
        only_cons x c (filter_by f cs) (ap only (sym (filter_by_keep f x cs e)) ∙ h) in
      record {
        before = [];
        after = cs;
        stands = ap (λ y. y ∷ cs) same;
        passes = ap f (sym same) ∙ e;
        none_before = tt;
        none_after = filter_by_nil f cs rest;
      }
  | inr e ↦
      let found = only-IsOnly f cs c (ap only (sym (filter_by_skip f x cs e)) ∙ h) in
      record {
        before = x ∷ found.before;
        after = found.after;
        stands = ap (λ ys. x ∷ ys) found.stands;
        passes = found.passes;
        none_before = (e, found.none_before);
        none_after = found.none_after;
      }
]

IsOnly-only :
    (f : RosterCharacter → Bool) (cs : List RosterCharacter) (c : RosterCharacter)
    → IsOnly f cs c
    → only (filter_by f cs) ≡ some c
unfolding only
IsOnly-only f cs c one =
    ap (λ ys. only (filter_by f ys)) one.stands
    ∙ ap only (
        filter_by-append f one.before (c ∷ one.after)
        ∙ ap (λ ys. ys ++ filter_by f (c ∷ one.after))
            (filter_by-false f one.before one.none_before)
        ∙ filter_by_keep f c one.after one.passes
        ∙ ap (λ ys. c ∷ ys) (filter_by-false f one.after one.none_after))

pub only_iff :
    (f : RosterCharacter → Bool) (cs : List RosterCharacter) (c : RosterCharacter)
    → (only (filter_by f cs) ≡ some c) ↔ IsOnly f cs c
only_iff f cs c = (only-IsOnly f cs c, IsOnly-only f cs c)
