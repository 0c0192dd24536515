-- ===== src/Repository/Reservations/Retry.antt =====
-- A failed job that is queued again takes a fresh reservation (src/autoswe/repository.py, `retry_failed`).
use mathlib.Core.Option.{some-injective}
use mathlib.Core.Path.{subst}
use autonomous_ai_software_e.Prelude.{
  ℕ, ◌+◌, ◌≡◌, refl, sym, ap, ◌∙◌, inl, inr, String, Bool, true, Option, none, some, [], arith,
  str_eq, eq_iff, find, cas, update, All, Bool-cases, Option-cases, cas-find, cas-update,
  sum_by-update, All-find, All-update,
}
use autonomous_ai_software_e.Model.{Job, JobStatus, Db, terminal, status_eq}
use autonomous_ai_software_e.Budget.{has_id, ensure}
use autonomous_ai_software_e.Budget.Rows.{
  reserved_in, due, due-share, held_by, share, held_by-update_same,
}
use autonomous_ai_software_e.Budget.Transfer.{
  Leak, Granted, try_reserve-Granted, reserved_in-Granted, jobs-Granted,
}
use autonomous_ai_software_e.Repository.Statements.{add_event, get_owned, done_stages}
use autonomous_ai_software_e.Repository.Submit.{Reservation}
use autonomous_ai_software_e.Repository.Requeue.{
  back_to_queue, clear_artifacts, rewind, requeue, fresh_attempt, reserve_again, retry_failed,
}
use autonomous_ai_software_e.Repository.Reservations.{Holds, Sound}
use autonomous_ai_software_e.Repository.Reservations.Moves.{add_event-Sound}
use autonomous_ai_software_e.Repository.Reservations.Admission.{reserved_in-ensure, jobs-ensure}

pub get_owned-eq-some :
    (k owner : String) (db : Db) {j : Job}
    → get_owned k owner db ≡ some j
    → (find (has_id k) db.jobs ≡ some j) × (j.owner ≡ owner)
unfolding get_owned
get_owned-eq-some k owner db {j} h = elim (Option-cases (find (has_id k) db.jobs)) [
  | inl e ↦ cc (rw (e, get_owned) at h)
  | inr (i, e) ↦ elim (Bool-cases (str_eq i.owner owner)) [
    | inl y ↦
        let same = some-injective i j (rw (e, y, get_owned) at h) in
        (e ∙ ap some same, rw (← same) ((eq_iff i.owner owner).0 y))
    | inr n ↦ cc (rw (e, n, get_owned) at h)
  ]
]

-- The state between the requeue and the reservation: the job's row holds what is still to be taken.
record Pending (db db' : Db) (j' : Job) : Type 0 where
  usage : db'.usage ≡ db.usage
  held : (p : String) (s : ℕ) → held_by p s db'.jobs ≡ held_by p s db.jobs + due p s j'
  holds : All Holds db'.jobs

failed-terminal : (s : JobStatus) → status_eq s JobStatus.failed ≡ true → terminal s ≡ true
unfolding status_eq terminal
failed-terminal s h = ground arith

fresh_attempt-Holds :
    (r : Option Reservation) (now : ℕ) (j : Job)
    → Holds j
    → Holds (back_to_queue (fresh_attempt r) now j)
unfolding back_to_queue fresh_attempt terminal
fresh_attempt-Holds none now j h = record { settled = λ t. cc; backed = h.backed }
fresh_attempt-Holds (some r) now j h = record { settled = λ t. cc; backed = λ t. cc }

-- The UPDATE of a requeue, on a job that holds nothing.
fresh_attempt-Pending :
    {L : Leak} (k : String) (r : Option Reservation) (now : ℕ) (db : Db) {j : Job}
    → find (has_id k) db.jobs ≡ some j
    → j.tokens_reserved ≡ 0
    → Sound L db
    → Pending db
        (record db { jobs = update (has_id k) (back_to_queue (fresh_attempt r) now) db.jobs })
        (back_to_queue (fresh_attempt r) now j)
fresh_attempt-Pending k r now db {j} found zero_held v = record {
  usage = refl;
  held = λ p s. omega (
    arith,
    sum_by-update (due p s) (has_id k) (back_to_queue (fresh_attempt r) now) db.jobs found,
    due_zero p s,
  );
  holds = All-update Holds (has_id k) _ db.jobs v.holds (λ i e h. fresh_attempt-Holds r now i h);
}
  where
    due_zero : (p : String) (s : ℕ) → due p s j ≡ 0
    due_zero p s = ground arith

rewind-Pending :
    (k : String) (now : ℕ) (db db' : Db) (j : Job)
    → Pending db db' j
    → Pending db (rewind k now db') j
unfolding rewind
rewind-Pending k now db db' j t = record {
  usage = t.usage;
  held = λ p s.
      held_by-update_same (clear_artifacts (done_stages k db'.stages) now) k p s db'.jobs
        (λ i. refl)
      ∙ t.held p s;
  holds =
      All-update Holds (has_id k) _ db'.jobs t.holds
        (λ i e h. record { settled = h.settled; backed = h.backed });
}

abbrev is_failed : Job → Bool
is_failed i = status_eq i.status JobStatus.failed

-- A job that is queued again after a failure held nothing.
requeued-free :
    {L : Leak} (k : String) (r : Option Reservation) (now : ℕ) (db : Db) {j : Job} {db' : Db}
    → find (has_id k) db.jobs ≡ some j
    → requeue k JobStatus.failed (fresh_attempt r) now db ≡ some db'
    → Sound L db
    → j.tokens_reserved ≡ 0
unfolding requeue
requeued-free k r now db {j} found h v =
    elim (Option-cases (cas (has_id k) is_failed (back_to_queue (fresh_attempt r) now) db.jobs)) [
      | inl e ↦ cc (rw (e, requeue) at h)
      | inr (jobs, e) ↦
          let (q, there, passed) = cas-find (has_id k) is_failed _ db.jobs e in
          let same : j ≡ q = some-injective j q (sym found ∙ there) in
          (All-find Holds (has_id k) db.jobs v.holds found).settled
            (failed-terminal j.status (rw same passed))
    ]

requeue-Pending :
    {L : Leak} (k : String) (r : Option Reservation) (now : ℕ) (db : Db) {j : Job} {db' : Db}
    → find (has_id k) db.jobs ≡ some j
    → requeue k JobStatus.failed (fresh_attempt r) now db ≡ some db'
    → Sound L db
    → Pending db db' (back_to_queue (fresh_attempt r) now j)
unfolding requeue
requeue-Pending k r now db {j} {db'} found h v =
    elim (Option-cases (cas (has_id k) is_failed (back_to_queue (fresh_attempt r) now) db.jobs)) [
      | inl e ↦ cc (rw (e, requeue) at h)
      | inr (jobs, e) ↦
          subst (λ d. Pending db d (back_to_queue (fresh_attempt r) now j))
            (some-injective _ _ (rw (e, requeue) at h))
            (rewind-Pending k now db (record db { jobs = jobs }) _
              (rw (cas-update (has_id k) is_failed _ db.jobs e)
                (fresh_attempt-Pending k r now db found (requeued-free k r now db found h v) v)))
    ]

-- The reservation then takes what the row already says.
reserve_again-Sound :
    {L : Leak} (k owner : String) (r : Option Reservation) (now : ℕ) (db db' : Db) (j : Job)
    {db'' : Db}
    → j.owner ≡ owner
    → j.tokens_reserved ≡ 0
    → Pending db db' (back_to_queue (fresh_attempt r) now j)
    → reserve_again owner r now db' ≡ some db''
    → Sound L db
    → Sound L db''
unfolding reserve_again back_to_queue fresh_attempt
reserve_again-Sound {L} k owner none now db db' j mine z t h v =
    subst (Sound _) (some-injective _ _ h) (record {
      conserved = λ p s. rw t.usage (omega (arith, v.conserved p s, t.held p s, due_zero p s));
      holds = t.holds;
    })
  where
    due_zero : (p : String) (s : ℕ) → due p s (back_to_queue (fresh_attempt none) now j) ≡ 0
    due_zero p s = ground arith
reserve_again-Sound {L} k owner (some r) now db db' j {db''} mine z t h v =
    elim (Option-cases r.limit) [
      | inl e ↦ subst (Sound _) (some-injective _ _ (rw (e, reserve_again) at h)) (record {
        conserved = λ p s. omega (
          arith,
          reserved_in-ensure owner p r.period_start s now db',
          ap (reserved_in p s) t.usage,
          ap (held_by p s) (jobs-ensure owner r.period_start now db'),
          t.held p s,
          v.conserved p s,
          due_zero p s (rw (e, fresh_attempt) refl),
        );
        holds = rw jobs-ensure t.holds;
      })
      | inr (l, e) ↦
          granted l e
            (try_reserve-Granted owner r.period_start r.amount l now _ (rw (e, reserve_again) at h))
    ]
  where
    due_zero :
        (p : String) (s : ℕ)
        → (back_to_queue (fresh_attempt (some r)) now j).tokens_reserved ≡ 0
        → due p s (back_to_queue (fresh_attempt (some r)) now j) ≡ 0
    due_zero p s q = ground arith

    granted :
        (l : ℕ)
        → r.limit ≡ some l
        → Granted owner r.period_start r.amount l now (ensure owner r.period_start now db') db''
        → Sound L db''
    granted l e g = record {
      conserved = λ p s. omega (
        arith,
        reserved_in-Granted owner p r.period_start s r.amount l now g,
        reserved_in-ensure owner p r.period_start s now db',
        ap (reserved_in p s) t.usage,
        ap (held_by p s) (jobs-Granted _ _ _ _ _ g ∙ jobs-ensure owner r.period_start now db'),
        t.held p s,
        v.conserved p s,
        due-share owner p r.period_start s (back_to_queue (fresh_attempt (some r)) now j) mine refl,
        ap (share owner r.period_start p s) (amount_taken l e),
      );
      holds = rw (jobs-Granted _ _ _ _ _ g ∙ jobs-ensure owner r.period_start now db') t.holds;
    }
      where
        amount_taken :
            (l : ℕ)
            → r.limit ≡ some l
            → (back_to_queue (fresh_attempt (some r)) now j).tokens_reserved ≡ r.amount
        amount_taken l e = rw (e, fresh_attempt) refl

-- A retry of a failed job keeps the reservations sound, whether it is granted, refused or too late.
pub retry_failed-Sound :
    {L : Leak} (k owner : String) (r : Option Reservation) (now : ℕ) (db : Db)
    → Sound L db
    → Sound L (retry_failed k owner r now db).0
unfolding retry_failed
retry_failed-Sound {L} k owner r now db v = elim (Option-cases (get_owned k owner db)) [
  | inl e ↦ rw (e, retry_failed) v
  | inr (j, e) ↦ elim (Option-cases (requeue k JobStatus.failed (fresh_attempt r) now db)) [
    | inl n ↦ rw (e, retry_failed) (rw n v)
    | inr (db', q) ↦ elim (Option-cases (reserve_again owner r now db')) [
      | inl n ↦ rw (e, retry_failed) (rw q (rw n v))
      | inr (db'', g) ↦
          rw (e, retry_failed)
            (rw q (rw g (queued j db' db'' (get_owned-eq-some k owner db e) q g)))
    ]
  ]
]
  where
    queued :
        (j : Job) (db' db'' : Db)
        → (find (has_id k) db.jobs ≡ some j) × (j.owner ≡ owner)
        → requeue k JobStatus.failed (fresh_attempt r) now db ≡ some db'
        → reserve_again owner r now db' ≡ some db''
        → Sound L (add_event k "job.retried" [] now db'')
    queued j db' db'' (found, mine) q g = add_event-Sound k "job.retried" [] now db'' (
        reserve_again-Sound k owner r now db db' j mine (requeued-free k r now db found q v)
          (requeue-Pending k r now db found q v) g v)
