-- ===== src/Repository/Reservations/Admission.antt =====
-- What takes a reservation, or removes a job, keeps the reservations sound (src/autoswe/repository.py).
use mathlib.Core.Option.{some-injective}
use mathlib.Core.Path.{subst}
use autonomous_ai_software_e.Prelude.{
  ℕ, ◌+◌, ◌≡◌, refl, ap, ◌∙◌, inl, inr, String, Option, none, some, [], ◌∷◌, arith, find,
  All-append, Bool-cases, Option-cases, find-append, sum_by-append, sum_by-remove, remove-none,
  All-remove,
}
use autonomous_ai_software_e.Model.{Job, Db, Submission, PrincipalUsage, terminal}
use autonomous_ai_software_e.Budget.{has_id, is_row, fresh_row, ensure, try_reserve}
use autonomous_ai_software_e.Budget.Rows.{reserved_in, reserved_of, due, due-share, held_by}
use autonomous_ai_software_e.Budget.Transfer.{
  Leak, try_reserve-Granted, reserved_in-Granted, jobs-Granted,
}
use autonomous_ai_software_e.Repository.Statements.{delete}
use autonomous_ai_software_e.Repository.Submit.{
  Reservation, new_job, reserve_for, collides, insert_job, create,
}
use autonomous_ai_software_e.Repository.Reservations.{Holds, Sound}

-- A new row of the ledger has nothing reserved.
pub reserved_in-ensure :
    (p p' : String) (s s' now : ℕ) (db : Db)
    → reserved_in p' s' (ensure p s now db).usage ≡ reserved_in p' s' db.usage
unfolding ensure find
reserved_in-ensure p p' s s' now db = elim (Option-cases (find (is_row p s) db.usage)) [
  | inl e ↦
      rw (e, ensure)
        (rw (find-append (is_row p' s') db.usage (fresh_row p s now ∷ []))
          (fresh_zero (find (is_row p' s') db.usage)))
  | inr (r, e) ↦ rw (e, ensure) refl
]
  where
    fresh_zero :
        (o : Option PrincipalUsage)
        → reserved_of
            (elim o [ none ↦ find (is_row p' s') (fresh_row p s now ∷ []) | some r ↦ some r ])
          ≡ reserved_of o
    fresh_zero none = ground arith
    fresh_zero (some r) = refl

pub jobs-ensure : (p : String) (s now : ℕ) (db : Db) → (ensure p s now db).jobs ≡ db.jobs
unfolding ensure
jobs-ensure p s now db = ground arith

-- What a submission has taken: as much as its job holds.
pub record Taken (job : Job) (db db' : Db) : Type 0 where
  pub jobs : db'.jobs ≡ db.jobs
  pub ledger :
      (p : String) (s : ℕ) → reserved_in p s db'.usage ≡ reserved_in p s db.usage + due p s job
  pub held : Holds job

pub reserve_for-Taken :
    (id : String) (sub : Submission) (r : Option Reservation) (now : ℕ) (db : Db) {job : Job}
    {db' : Db}
    → reserve_for id sub r now db ≡ some (job, db')
    → Taken job db db'
unfolding reserve_for new_job terminal
reserve_for-Taken id sub none now db h =
    subst (λ (t : Job × Db). Taken t.0 db t.1) (some-injective _ _ h)
      (record {
        jobs = refl;
        ledger = λ p s. ground arith;
        held = record { settled = λ t. refl; backed = λ t. refl };
      })
reserve_for-Taken id sub (some r) now db h = elim (Option-cases r.limit) [
  | inl e ↦
      subst (λ (t : Job × Db). Taken t.0 db t.1) (some-injective _ _ (rw (e, reserve_for) at h))
        (record {
          jobs = jobs-ensure sub.owner r.period_start now db;
          ledger = λ p s.
              omega (arith, reserved_in-ensure sub.owner p r.period_start s now db, due_zero p s);
          held = record { settled = λ t. refl; backed = λ t. refl };
        })
  | inr (l, e) ↦
      elim (Option-cases (
        try_reserve sub.owner r.period_start r.amount l now
          (ensure sub.owner r.period_start now db))) [
            | inl n ↦ cc (rw (e, n, reserve_for) at h)
            | inr (db1, g) ↦
                let granted = try_reserve-Granted sub.owner r.period_start r.amount l now _ g in
                subst (λ (t : Job × Db). Taken t.0 db t.1)
                  (some-injective _ _ (rw (e, g, reserve_for) at h))
                  (record {
                    jobs =
                        jobs-Granted _ _ _ _ _ granted
                        ∙ jobs-ensure sub.owner r.period_start now db;
                    ledger = λ p s. omega (
                      arith,
                      reserved_in-ensure sub.owner p r.period_start s now db,
                      reserved_in-Granted sub.owner p r.period_start s r.amount l now granted,
                      due-share sub.owner p r.period_start s
                          (new_job id sub (some r.period_start) r.amount now) refl refl,
                    );
                    held = record { settled = λ t. cc; backed = λ t. cc };
                  })
          ]
]
  where
    due_zero : (p : String) (s : ℕ) → due p s (new_job id sub (some r.period_start) 0 now) ≡ 0
    due_zero p s = ground arith

-- A submission takes its reservation and stores its job in one transaction.
pub create-Sound :
    {L : Leak} (id : String) (sub : Submission) (r : Option Reservation) (now : ℕ) (db : Db)
    → Sound L db
    → Sound L (create id sub r now db).0
unfolding create
create-Sound {L} id sub r now db v = elim (Option-cases (reserve_for id sub r now db)) [
  | inl e ↦ rw (e, create) v
  | inr ((job, db'), e) ↦ elim (Bool-cases (collides job db'.jobs)) [
    | inl y ↦ rw (e, create) (rw y v)
    | inr n ↦ rw (e, create) (rw n (inserted job db' (reserve_for-Taken id sub r now db e)))
  ]
]
  where
    inserted : (job : Job) (db' : Db) → Taken job db db' → Sound L (insert_job job now db')
    inserted job db' t = record {
      conserved = λ p s. omega (
        arith,
        t.ledger p s,
        v.conserved p s,
        ap (held_by p s) t.jobs,
        sum_by-append (due p s) db'.jobs (job ∷ []),
      );
      holds = All-append Holds db'.jobs (job ∷ []) (rw t.jobs v.holds) (t.held, tt);
    }

abbrev pub due_of : String → ℕ → Option Job → ℕ
due_of p s none = 0
due_of p s (some j) = due p s j

-- What the deletion of a job's row leaves in the ledger: the tokens that the job held.
abbrev pub leaves_due : String → Db → Leak → Leak
leaves_due k db L p s = due_of p s (find (has_id k) db.jobs) + L p s

pub delete-Sound :
    {L : Leak} (k : String) (db : Db) → Sound L db → Sound (leaves_due k db L) (delete k db)
unfolding delete
delete-Sound {L} k db v = elim (Option-cases (find (has_id k) db.jobs)) [
  | inl e ↦ record {
    conserved = λ p s. rw (remove-none (has_id k) db.jobs e, e) (omega (arith, v.conserved p s));
    holds = All-remove Holds (has_id k) db.jobs v.holds;
  }
  | inr (j, e) ↦ record {
    conserved =
        λ p s. rw e (omega (arith, v.conserved p s, sum_by-remove (due p s) (has_id k) db.jobs e));
    holds = All-remove Holds (has_id k) db.jobs v.holds;
  }
]
