-- ===== src/Signup/Store/Postgres/Laws.antt =====
-- What a signup that leaves the pool takes with it, and that the tables keep decisions.
use raider_mate_service.Prelude.{
  ℕ, ◌≡◌, refl, sym, ◌⊎◌, inl, inr, Bool, true, false, not, ◌&&◌, List, [], ◌∷◌, ◌++◌, map, arith,
  Bool-cases, ==_refl,
}
use raider_mate_service.Prelude.Text.{String}
use raider_mate_service.Prelude.Filter.{
  filter_by, any_by, update_by, any_by-append, any_by-filter_by-not, any_by_mono, find_by-none,
  find_by-some,
}
use raider_mate_service.Signup.Types.{Signup, SignupWrite, Reply, done, lost, Failure}
use raider_mate_service.Tables.{Db, CompSlot, of_signup, holds_seat}
use raider_mate_service.Tables.Signups.{
  upsert_signup_row, rewritten, first_signup, delete_signup_row, in_pool, is_pool_signup,
  is_in_pool, drop_comp_slots_for_character,
}
use raider_mate_service.Signup.Store.Postgres.{upsert_signup, delete_signup}

pub Reply-cases :
    {A : Type 0} (r : Reply A) → ((a : A) × (r ≡ done a)) ⊎ ((f : Failure) × (r ≡ lost f))
Reply-cases (done a) = inl (a, refl)
Reply-cases (lost f) = inr (f, refl)

-- The character sits on no comp of the event, and `dropped` names the comps that they sat on; nobody
-- else lost a seat.
pub record IsEvicted (event_id character_id : ℕ) (dropped : List String)
    (slots slots' : List CompSlot) : Type 0 where
  pub no_seat : any_by (holds_seat event_id character_id) slots' ≡ false
  pub named : dropped ≡ map (λ r. r.comp_name) (filter_by (holds_seat event_id character_id) slots)
  pub others : slots' ≡ filter_by (λ r. not (holds_seat event_id character_id r)) slots

-- What becomes of the seats of a character who is in the pool, or not.
abbrev pub Seats : Bool → ℕ → ℕ → List String → List CompSlot → List CompSlot → Type 0
Seats false event_id character_id dropped slots slots' =
    IsEvicted event_id character_id dropped slots slots'
Seats true event_id character_id dropped slots slots' = (dropped ≡ []) × (slots' ≡ slots)

drop_comp_slots-Seats :
    (event_id character_id : ℕ) (db : Db) (b : Bool)
    → is_in_pool event_id character_id db ≡ b
    → Seats b event_id character_id
        (drop_comp_slots_for_character event_id character_id db).0
        db.comp_slots
        (drop_comp_slots_for_character event_id character_id db).1.comp_slots
unfolding drop_comp_slots_for_character
drop_comp_slots-Seats event_id character_id db true h =
    (rw (drop_comp_slots_for_character, h) refl, rw (drop_comp_slots_for_character, h) refl)
drop_comp_slots-Seats event_id character_id db false h = record {
  no_seat =
      rw (drop_comp_slots_for_character, h)
        (any_by-filter_by-not (holds_seat event_id character_id) (holds_seat event_id character_id)
          db.comp_slots (λ r e. e));
  named = rw (drop_comp_slots_for_character, h) refl;
  others = rw (drop_comp_slots_for_character, h) refl;
}

any_by-update_by :
    (w : SignupWrite) (rows : List Signup)
    → any_by
        (is_pool_signup w.event_id w.character_id)
        (update_by (of_signup w.event_id w.character_id) (rewritten w) rows)
      ≡ (any_by (of_signup w.event_id w.character_id) rows && in_pool w.status)
unfolding any_by update_by
any_by-update_by w [] = refl
any_by-update_by w (s ∷ rows) =
    let rest = any_by-update_by w rows in
    elim (Bool-cases (of_signup w.event_id w.character_id s)) [
      | inl e ↦ rw e (ground (arith, e, rest))
      | inr e ↦ rw e (ground (arith, e, rest))
    ]

-- After the write, whether the character is in the pool is what the status says.
is_in_pool-upsert :
    (w : SignupWrite) (db db' : Db) (row : Signup)
    → upsert_signup_row w db ≡ done (row, db')
    → (is_in_pool w.event_id w.character_id db' ≡ in_pool w.status)
      × (db'.comp_slots ≡ db.comp_slots)
unfolding upsert_signup_row is_in_pool any_by
is_in_pool-upsert w db db' row h =
    elim (Bool-cases (any_by (of_signup w.event_id w.character_id) db.signups)) [
      | inl e ↦
          let (s, f, _) = find_by-some (of_signup w.event_id w.character_id) db.signups e in
          let signups : update_by (of_signup w.event_id w.character_id) (rewritten w) db.signups
              ≡ db'.signups =
            ground (arith, f, h) in
          (
            rw (is_in_pool, sym signups, any_by-update_by w db.signups, e) refl,
            ground (arith, f, h),
          )
      | inr e ↦
          let f = find_by-none (of_signup w.event_id w.character_id) db.signups e in
          let signups : db.signups ++ first_signup w db ∷ [] ≡ db'.signups = ground (arith, f, h) in
          let old : any_by (is_pool_signup w.event_id w.character_id) db.signups ≡ false =
            any_by_mono (is_pool_signup w.event_id w.character_id)
              (of_signup w.event_id w.character_id) db.signups (λ s k. ground (arith, k)) e in
          (
            rw
                (
                  is_in_pool,
                  sym signups,
                  any_by-append (is_pool_signup w.event_id w.character_id) db.signups
                      (first_signup w db ∷ []),
                  old,
                  any_by,
                  ==_refl w.event_id,
                  ==_refl w.character_id,
                )
                (ground arith),
            ground (arith, f, h),
          )
    ]

-- A signup that is written with a status of the pool touches no seat. One that is written with another
-- status evicts the character from every comp of the event, and names those comps.
pub upsert_signup-Seats :
    (w : SignupWrite) (db db' : Db) (row : Signup) (dropped : List String)
    → upsert_signup w db ≡ done ((row, dropped), db')
    → Seats (in_pool w.status) w.event_id w.character_id dropped db.comp_slots db'.comp_slots
unfolding upsert_signup
upsert_signup-Seats w db db' row dropped h = elim (Reply-cases (upsert_signup_row w db)) [
  | inr (f, e) ↦ absurd (ground (arith, e, h))
  | inl ((row', written), e) ↦
      let (pool, slots) = is_in_pool-upsert w db written row' e in
      let seats = drop_comp_slots-Seats w.event_id w.character_id written (in_pool w.status) pool in
      let names : (drop_comp_slots_for_character w.event_id w.character_id written).0 ≡ dropped =
        ground (arith, e, h) in
      let left : (drop_comp_slots_for_character w.event_id w.character_id written).1 ≡ db' =
        ground (arith, e, h) in
      rw (names, left, slots) at seats
]

-- A withdrawal evicts the character from every comp of the event, and names those comps.
pub delete_signup-IsEvicted :
    (event_id character_id : ℕ) (db db' : Db) (dropped : List String)
    → delete_signup event_id character_id db ≡ done (dropped, db')
    → IsEvicted event_id character_id dropped db.comp_slots db'.comp_slots
unfolding delete_signup delete_signup_row is_in_pool
delete_signup-IsEvicted event_id character_id db db' dropped h =
    let gone = delete_signup_row event_id character_id db in
    let pool : is_in_pool event_id character_id gone ≡ false =
      any_by-filter_by-not (is_pool_signup event_id character_id) (of_signup event_id character_id)
        db.signups (λ s k. ground (arith, k)) in
    let seats = drop_comp_slots-Seats event_id character_id gone false pool in
    let names : (drop_comp_slots_for_character event_id character_id gone).0 ≡ dropped =
      ground (arith, h) in
    let left : (drop_comp_slots_for_character event_id character_id gone).1 ≡ db' =
      ground (arith, h) in
    rw (names, left) at seats
