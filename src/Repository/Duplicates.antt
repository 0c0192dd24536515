-- ===== src/Repository/Duplicates.antt =====
-- A repeated submission of src/autoswe/repository.py: the job that `create` says is there.
use mathlib.Core.Path.{subst}
use mathlib.Core.Option.{some-injective}
use autonomous_ai_software_e.Prelude.{
  ℕ, ◌≡◌, refl, ap, ◌∙◌, inl, inr, String, true, Option, none, some, List, [], ◌∷◌, find,
  Option-cases, Bool-cases,
}
use autonomous_ai_software_e.Model.{Submission, Job, Db}
use autonomous_ai_software_e.Budget.{has_id, ensure, try_reserve}
use autonomous_ai_software_e.Repository.Submit.{
  Reservation, duplicate_submission, new_job, reserve_for, collides, collision, create, with_key,
  by_idempotency_key,
}
use autonomous_ai_software_e.Repository.Reservations.Admission.{reserve_for-Taken}

-- The reserved job is the submission's.
reserve_for-row :
    (id : String) (sub : Submission) (r : Option Reservation) (now : ℕ) (db : Db) {job : Job}
    {db' : Db}
    → reserve_for id sub r now db ≡ some (job, db')
    → (job.id ≡ id) × (job.submission ≡ sub)
unfolding reserve_for new_job
reserve_for-row id sub none now db h =
    subst (λ (t : Job × Db). (t.0.id ≡ id) × (t.0.submission ≡ sub)) (some-injective _ _ h)
      (refl, refl)
reserve_for-row id sub (some r) now db h = elim (Option-cases r.limit) [
  | inl e ↦
      subst (λ (t : Job × Db). (t.0.id ≡ id) × (t.0.submission ≡ sub))
        (some-injective _ _ (rw (e, reserve_for) at h)) (refl, refl)
  | inr (limit, e) ↦
      elim (Option-cases (
        try_reserve sub.owner r.period_start r.amount limit now
          (ensure sub.owner r.period_start now db))) [
            | inl n ↦ cc (rw (e, n, reserve_for) at h)
            | inr (d, g) ↦
                subst (λ (t : Job × Db). (t.0.id ≡ id) × (t.0.submission ≡ sub))
                  (some-injective _ _ (rw (e, g, reserve_for) at h)) (refl, refl)
          ]
]

collides-with_key :
    (job : Job) (key : String) (jobs : List Job)
    → job.idempotency_key ≡ some key
    → find (has_id job.id) jobs ≡ none
    → collides job jobs ≡ true
    → (j : Job) × (find (with_key job.owner key) jobs ≡ some j)
unfolding collides find with_key
collides-with_key job key [] k fresh h = cc
collides-with_key job key (j ∷ js) k fresh h = elim (Bool-cases (has_id job.id j)) [
  | inl y ↦ cc (rw y at fresh)
  | inr n ↦ elim (Bool-cases (with_key job.owner key j)) [
    | inl y ↦ (j, rw y refl)
    | inr q ↦
        let (i, found) = collides-with_key job key js k (rw n at fresh) (rw (n, k, q) at h) in
        (i, rw q found)
  ]
]

collision-key :
    (o : Option String) → collision o ≡ duplicate_submission → (key : String) × (o ≡ some key)
unfolding collision
collision-key none h = cc
collision-key (some key) h = (key, refl)

-- When a submission under a fresh identifier is refused as a duplicate, it had an idempotency key, and
-- the job that its owner submitted with that key is there to be returned in its place.
pub create-duplicate :
    (id : String) (sub : Submission) (r : Option Reservation) (now : ℕ) (db : Db)
    → find (has_id id) db.jobs ≡ none
    → (create id sub r now db).1 ≡ duplicate_submission
    → (key : String) × (sub.idempotency_key ≡ some key)
      × (j : Job) × (by_idempotency_key sub.owner key db ≡ some j)
unfolding create by_idempotency_key
create-duplicate id sub r now db fresh h = elim (Option-cases (reserve_for id sub r now db)) [
  | inl e ↦ cc (rw (e, create) at h)
  | inr ((job, db'), e) ↦ elim (Bool-cases (collides job db'.jobs)) [
    | inr n ↦ cc (rw (e, n, create) at h)
    | inl y ↦
        let (key, k) = collision-key sub.idempotency_key (rw (e, y, create) at h) in
        let (ids, subs) = reserve_for-row id sub r now db e in
        let jobs = (reserve_for-Taken id sub r now db e).jobs in
        let (j, found) =
          collides-with_key job key db.jobs (ap (λ (s : Submission). s.idempotency_key) subs ∙ k)
            (rw ids fresh) (rw jobs at y) in
        (key, k, j, rw (← ap (λ (s : Submission). s.owner) subs) found)
  ]
]
