-- ===== src/Repository/Atomic.antt =====
-- The transactions of src/autoswe/repository.py that may be refused leave the database as it was.
use autonomous_ai_software_e.Prelude.{
  ℕ, ◌≡◌, ◌≢◌, refl, inl, inr, String, Option, none, some, Option-cases, Bool-cases,
}
use autonomous_ai_software_e.Model.{JobStatus, Submission, Db}
use autonomous_ai_software_e.Repository.Statements.{get_owned}
use autonomous_ai_software_e.Repository.Submit.{
  Reservation, Created, created, reserve_for, collides, collision, create,
}
use autonomous_ai_software_e.Repository.Requeue.{
  requeue, fresh_attempt, reserve_again, retried, retry_failed,
}

-- What a submission that stores no job leaves behind.
abbrev pub Unstored : Db → Db × Created → Type 0
Unstored db (db', created job) = Unit
Unstored db (db', _) = db' ≡ db

-- A submission that is refused by the budget, or that collides with another, leaves no row behind: no
-- job, no stage, no event, and nothing reserved.
pub create-atomic :
    (id : String) (sub : Submission) (r : Option Reservation) (now : ℕ) (db : Db)
    → Unstored db (create id sub r now db)
unfolding create
create-atomic id sub r now db = elim (Option-cases (reserve_for id sub r now db)) [
  | inl e ↦ rw (e, create) refl
  | inr ((job, db'), e) ↦ elim (Bool-cases (collides job db'.jobs)) [
    | inl y ↦ rw (e, create) (rw y (collided sub.idempotency_key))
    | inr n ↦ rw (e, create) (rw n tt)
  ]
]
  where
    collided : (key : Option String) → Unstored db (db, collision key)
    collided none = refl
    collided (some key) = refl

-- A retry that is not granted, because the job is not the owner's or has not failed, or because the
-- budget has no room, leaves the database as it was.
pub retry_failed-atomic :
    (k owner : String) (r : Option Reservation) (now : ℕ) (db : Db)
    → (retry_failed k owner r now db).1 ≢ retried
    → (retry_failed k owner r now db).0 ≡ db
unfolding retry_failed
retry_failed-atomic k owner r now db h = elim (Option-cases (get_owned k owner db)) [
  | inl e ↦ rw (e, retry_failed) refl
  | inr (j, e) ↦ elim (Option-cases (requeue k JobStatus.failed (fresh_attempt r) now db)) [
    | inl n ↦ rw (e, retry_failed) (rw n refl)
    | inr (db', q) ↦ elim (Option-cases (reserve_again owner r now db')) [
      | inl n ↦ rw (e, retry_failed) (rw q (rw n refl))
      | inr (db'', g) ↦ absurd (h (rw (e, retry_failed) (rw q (rw g refl))))
    ]
  ]
]
