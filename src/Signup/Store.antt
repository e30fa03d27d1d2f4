-- ===== src/Signup/Store.antt =====
-- The store that internal/signup works against (signupStore of signup.go, lateStore of late.go), as
-- operations on a state, and the transactions of internal/signup/store.go.
pub mod Laws
pub mod Postgres
use Prim.Native.String.{String}
use raider_mate_service.Prelude.{ℕ, List}
use raider_mate_service.Signup.Types.{
  Event, Signup, SignupWrite, LateRequest, LateRequestWrite, RequestState, Notification, Reply,
  Outcome, ok, err, attempt, beginning_tx, committing_tx,
}

-- Both interfaces, which one store implements. A read leaves the state alone.
pub record SignupStore (S : Type 0) : Type 0 where
  pub get_event : ℕ → S → Reply Event
  pub upsert_signup : SignupWrite → S → Reply ((Signup × List String) × S)
  pub delete_signup : ℕ → ℕ → S → Reply (List String × S)
  pub upsert_late_request : LateRequestWrite → S → Reply (LateRequest × S)
  pub get_late_request : ℕ → S → Reply LateRequest
  pub decide_late_request : ℕ → RequestState → S → Reply S
  pub raid_lead_role_ids : ℕ → S → Reply (List ℕ)
  pub insert_notification : Notification → S → Reply S
  pub begin : S → Reply Unit
  pub commit : S → Reply Unit

-- TransactSignups and TransactLate: an error of the body or of the commit rolls back to `s`.
unfoldable pub transact :
    {S : Type 0} {A : Type 0} → SignupStore S → (S → Outcome (A × S)) → S → Outcome A × S
transact store body s = elim (attempt beginning_tx (store.begin s)) [
  | err e ↦ (err e, s)
  | ok _ ↦ elim (body s) [
    | err e ↦ (err e, s)
    | ok (a, s') ↦ elim (attempt committing_tx (store.commit s')) [
      | err e ↦ (err e, s)
      | ok _ ↦ (ok a, s')
    ]
  ]
]
