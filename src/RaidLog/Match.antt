-- ===== src/RaidLog/Match.antt =====
-- Whom Match takes an actor for: never a guess between two characters.
use raider_mate_service.Prelude.{
  ℕ, ◌≡◌, ◌↔◌, ◌⊎◌, refl, sym, ◌∙◌, inl, inr, Option, none, some, Option-cases, Bool, true, ◌&&◌,
  List, [], ◌∷◌, arith, Bool-cases,
}
use raider_mate_service.Prelude.Filter.{filter_by}
use raider_mate_service.Roster.{realm_slug}
use raider_mate_service.RaidLog.{
  RosterCharacter, Actor, runes_eq, empty_index, only, first_of, key_of, match_actor,
}
use raider_mate_service.RaidLog.Only.{IsOnly, only_iff}
use raider_mate_service.RaidLog.Index.{runes_eq_same, runes_eq_sound, index_by_lem, key_of_iff}

first_of_iff :
    (m n : Option RosterCharacter) (c : RosterCharacter)
    → (first_of m n ≡ some c) ↔ ((m ≡ some c) ⊎ ((m ≡ none) × (n ≡ some c)))
first_of_iff none n c = (λ h. inr (refl, h), λ h. ground arith)
first_of_iff (some d) n c = (λ h. inl h, λ h. ground arith)

module _ (to_lower : List ℕ → List ℕ) where
  -- A roster character with the actor's name, and with its name on its realm.
  abbrev pub same_name : Actor → RosterCharacter → Bool
  same_name actor c = runes_eq (to_lower c.name) (to_lower actor.name)

  abbrev pub same_realm : Actor → RosterCharacter → Bool
  same_realm actor c = runes_eq (realm_slug to_lower c.realm) (realm_slug to_lower actor.server)

  abbrev pub same_character : Actor → RosterCharacter → Bool
  same_character actor c = same_name actor c && same_realm actor c

  same_texts :
      (actor : Actor) (c : RosterCharacter)
      → to_lower c.name ≡ to_lower actor.name
      → realm_slug to_lower c.realm ≡ realm_slug to_lower actor.server
      → same_character actor c ≡ true
  same_texts actor c n r = ground (arith, runes_eq_same _ _ n, runes_eq_same _ _ r)

  key_test :
      (actor : Actor) (c : RosterCharacter)
      → runes_eq (key_of to_lower c.name c.realm) (key_of to_lower actor.name actor.server)
        ≡ same_character actor c
  key_test actor c =
      let key = key_of_iff to_lower c.name c.realm actor.name actor.server in
      elim (Bool-cases
        (runes_eq (key_of to_lower c.name c.realm) (key_of to_lower actor.name actor.server))) [
          | inl e ↦ let (n, r) = key.0 (runes_eq_sound _ _ e) in e ∙ sym (same_texts actor c n r)
          | inr e ↦ elim (Bool-cases (same_character actor c)) [
            | inr f ↦ e ∙ sym f
            | inl f ↦
                let n =
                  runes_eq_sound (to_lower c.name) (to_lower actor.name) (ground (arith, f)) in
                let r =
                  runes_eq_sound (realm_slug to_lower c.realm) (realm_slug to_lower actor.server)
                    (ground (arith, f)) in
                absurd (ground (arith, e, runes_eq_same _ _ (key.1 (n, r))))
          ]
        ]

  filter_by_eq :
      (f g : RosterCharacter → Bool)
      → ((c : RosterCharacter) → f c ≡ g c)
      → (cs : List RosterCharacter) → filter_by f cs ≡ filter_by g cs
  unfolding filter_by
  filter_by_eq f g h [] = refl
  filter_by_eq f g h (c ∷ cs) = rw (filter_by, h c, filter_by_eq f g h cs) refl

  -- The only character of this name on this realm, or else the only one of this name, or else nobody.
  pub match_actor_lem :
      (characters : List RosterCharacter) (actor : Actor)
      → match_actor to_lower characters actor
        ≡ first_of
            (only (filter_by (same_character actor) characters))
            (only (filter_by (same_name actor) characters))
  unfolding match_actor
  match_actor_lem characters actor =
      rw
        (
          match_actor,
          index_by_lem (λ c. key_of to_lower c.name c.realm) characters empty_index
              (key_of to_lower actor.name actor.server),
          index_by_lem (λ c. to_lower c.name) characters empty_index (to_lower actor.name),
          filter_by_eq _ (same_character actor) (key_test actor) characters,
        )
        refl

  -- Who an actor is: the only character of this name on this realm, or, where there is no such one, the
  -- only character of this name.
  abbrev pub IsTakenFor : List RosterCharacter → Actor → RosterCharacter → Type 0
  IsTakenFor characters actor c =
      IsOnly (same_character actor) characters c
      ⊎ ((¬ ((d : RosterCharacter) × IsOnly (same_character actor) characters d))
          × IsOnly (same_name actor) characters c)

  -- Match takes an actor for a character exactly when the character is the only one of the roster with the
  -- actor's name on the actor's realm, or when there is not exactly one such character and it is the only
  -- one with the actor's name. Names are compared in lower case and realms by their slugs.
  pub match_actor_iff :
      (characters : List RosterCharacter) (actor : Actor) (c : RosterCharacter)
      → (match_actor to_lower characters actor ≡ some c) ↔ IsTakenFor characters actor c
  match_actor_iff characters actor c =
      let by_realm = λ (d : RosterCharacter). only_iff (same_character actor) characters d in
      let by_name = only_iff (same_name actor) characters c in
      let is_first = match_actor_lem characters actor in
      let cases =
        first_of_iff (only (filter_by (same_character actor) characters))
          (only (filter_by (same_name actor) characters)) c in
      (
        λ h. elim (cases.0 (sym is_first ∙ h)) [
          | inl e ↦ inl ((by_realm c).0 e)
          | inr (e, k) ↦
              inr (λ (d, one). absurd (ground (arith, e, (by_realm d).1 one)), by_name.0 k)
        ],
        λ t.
            is_first
            ∙ cases.1 (elim t [
              | inl one ↦ inl ((by_realm c).1 one)
              | inr (nobody, one) ↦ inr (
                elim (Option-cases (only (filter_by (same_character actor) characters))) [
                  | inl e ↦ e
                  | inr (d, e) ↦ absurd (nobody (d, (by_realm d).0 e))
                ],
                by_name.1 one,
              )
            ]),
      )
