-- ===== src/History/Lifecycle.antt =====
-- The life of a job over any history (src/autoswe/repository.py): its status moves along the edges of one
-- diagram, and the end states are final.
use autonomous_ai_software_e.Prelude.{
  ◌≡◌, refl, inl, inr, String, Option, none, some, List, [], ◌∷◌, ◌++◌, arith, true, false, str_eq,
  eq_iff, find, update, remove, Option-cases, Bool-cases, find-update_self, find-update_other,
  find-remove_other, find-append, find-passes,
}
use autonomous_ai_software_e.Model.{JobStatus, Job, Db, empty_db}
use autonomous_ai_software_e.Budget.{has_id}
use autonomous_ai_software_e.Repository.Statements.{delete}
use autonomous_ai_software_e.Repository.Submit.{collides}
use autonomous_ai_software_e.History.{Step, Reach, here, next}
use autonomous_ai_software_e.History.Reservations.{Reach-Sound}
use autonomous_ai_software_e.History.Changes.{Edge, stays, Change, unchanged, updated, inserted}
use autonomous_ai_software_e.History.Changes.Steps.{Step-Change}

-- No two rows have one identifier.
pub Distinct : List Job → Type 0
Distinct [] = Unit
Distinct (j ∷ js) = (find (has_id j.id) js ≡ none) × Distinct js

ids_apart : (i k : String) → str_eq k i ≡ false → (j : Job) → has_id k j ≡ true → has_id i j ≡ false
ids_apart i k h j e = rw ((eq_iff j.id k).0 e) h

find-other :
    (i k : String) (f : Job → Job) (jobs : List Job)
    → ((j : Job) → (f j).id ≡ j.id)
    → str_eq k i ≡ false
    → find (has_id i) (update (has_id k) f jobs) ≡ find (has_id i) jobs
find-other i k f jobs ids h =
    find-update_other (has_id k) (has_id i) f jobs
      (λ j e. (ids_apart i k h j e, rw (ids j) (ids_apart i k h j e)))

-- A job that is not there is not there after an update.
find-none-update :
    (i k : String) (f : Job → Job) (jobs : List Job)
    → ((j : Job) → (f j).id ≡ j.id)
    → find (has_id i) jobs ≡ none
    → find (has_id i) (update (has_id k) f jobs) ≡ none
unfolding find update
find-none-update i k f [] ids h = refl
find-none-update i k f (j ∷ js) ids h = ground (arith, ids j, find-none-update i k f js ids)

Distinct-update :
    (k : String) (f : Job → Job) (jobs : List Job)
    → ((j : Job) → (f j).id ≡ j.id)
    → Distinct jobs
    → Distinct (update (has_id k) f jobs)
unfolding Distinct update
Distinct-update k f [] ids d = tt
Distinct-update k f (j ∷ js) ids d = elim (Bool-cases (has_id k j)) [
  | inl y ↦ rw y (rw (ids j) d.0, d.1)
  | inr n ↦ rw n (find-none-update j.id k f js ids d.0, Distinct-update k f js ids d.1)
]

Distinct-append :
    (job : Job) (jobs : List Job)
    → find (has_id job.id) jobs ≡ none
    → Distinct jobs
    → Distinct (jobs ++ job ∷ [])
unfolding Distinct find
Distinct-append job [] h d = (refl, tt)
Distinct-append job (j ∷ js) h d = (
  ground (arith, find-append (has_id j.id) js (job ∷ []), eq_iff j.id job.id, eq_iff job.id j.id),
  Distinct-append job js (ground arith) d.1,
)

find-none-remove :
    (i k : String) (jobs : List Job)
    → find (has_id i) jobs ≡ none
    → find (has_id i) (remove (has_id k) jobs) ≡ none
unfolding find remove
find-none-remove i k [] h = refl
find-none-remove i k (j ∷ js) h = ground (arith, find-none-remove i k js)

Distinct-remove : (k : String) (jobs : List Job) → Distinct jobs → Distinct (remove (has_id k) jobs)
unfolding Distinct remove
Distinct-remove k [] d = tt
Distinct-remove k (j ∷ js) d = elim (Bool-cases (has_id k j)) [
  | inl y ↦ rw y d.1
  | inr n ↦ rw n (find-none-remove j.id k js d.0, Distinct-remove k js d.1)
]

-- With distinct identifiers a removed job is gone.
pub find-removed :
    (k : String) (jobs : List Job) → Distinct jobs → find (has_id k) (remove (has_id k) jobs) ≡ none
unfolding Distinct find remove
find-removed k [] d = refl
find-removed k (j ∷ js) d = elim (Bool-cases (has_id k j)) [
  | inl y ↦ rw y (rw (← (eq_iff j.id k).0 y) d.0)
  | inr n ↦ rw (n, find) (rw n (find-removed k js d.1))
]

pub not_collides-find :
    (job : Job) (jobs : List Job) → collides job jobs ≡ false → find (has_id job.id) jobs ≡ none
unfolding collides find
not_collides-find job [] h = refl
not_collides-find job (j ∷ js) h = ground (arith, not_collides-find job js)

Change-Distinct : {a b : List Job} → Change a b → Distinct a → Distinct b
Change-Distinct unchanged d = d
Change-Distinct {a} (updated k f ids edge) d = Distinct-update k f a (λ j. (ids j).0) d
Change-Distinct {a} (inserted j fresh q) d = Distinct-append j a (not_collides-find j a fresh) d

abbrev pub status_of_row : Option Job → Option JobStatus
status_of_row none = none
status_of_row (some j) = some j.status

abbrev pub status_in : String → List Job → Option JobStatus
status_in k jobs = status_of_row (find (has_id k) jobs)

-- How one job may be seen to change: it appears queued, moves along an edge, or goes, for that reason.
pub data Move (Gone : Type 0) : Option JobStatus → Option JobStatus → Type 0 where
  absent : Move Gone none none
  appears : Move Gone none (some JobStatus.queued)
  moves : {a b : JobStatus} → Edge a b → Move Gone (some a) (some b)
  goes : {a : JobStatus} → Gone → Move Gone (some a) none

Move-refl : {Gone : Type 0} (o : Option JobStatus) → Move Gone o o
Move-refl none = absent
Move-refl (some s) = moves (stays s)

updated-Move :
    (Gone : Type 0) (i k : String) (f : Job → Job) (jobs : List Job)
    → ((j : Job) → (f j).id ≡ j.id)
    → ((j : Job) → find (has_id k) jobs ≡ some j → Edge j.status (f j).status)
    → Move Gone (status_in i jobs) (status_in i (update (has_id k) f jobs))
updated-Move Gone i k f jobs ids edge = elim (Bool-cases (str_eq k i)) [
  | inr n ↦ rw (find-other i k f jobs ids n) (Move-refl _)
  | inl y ↦ rw (← (eq_iff k i).0 y) (elim (Option-cases (find (has_id k) jobs)) [
    | inl e ↦ rw (e, find-none-update k k f jobs ids e) absent
    | inr (j, e) ↦
        rw (find-update_self (has_id k) f jobs e (rw ids (find-passes (has_id k) jobs e)), e)
          (moves (edge j e))
  ])
]

inserted-Move :
    (Gone : Type 0) (i : String) (j : Job) (jobs : List Job)
    → find (has_id j.id) jobs ≡ none
    → j.status ≡ JobStatus.queued
    → Move Gone (status_in i jobs) (status_in i (jobs ++ j ∷ []))
unfolding find
inserted-Move Gone i j jobs fresh q =
    rw (find-append (has_id i) jobs (j ∷ [])) (elim (Option-cases (find (has_id i) jobs)) [
      | inr (r, e) ↦ rw e (moves (stays r.status))
      | inl e ↦ elim (Bool-cases (has_id i j)) [
        | inl y ↦ rw (e, y) (rw q appears)
        | inr n ↦ rw (e, n) absent
      ]
    ])

-- A deletion: another job stays as it is, and the job goes.
delete-Move :
    (i k : String) (db : Db)
    → Distinct db.jobs
    → Move (delete k db ≡ delete i db) (status_in i db.jobs) (status_in i (delete k db).jobs)
unfolding delete
delete-Move i k db d = elim (Bool-cases (str_eq k i)) [
  | inr n ↦ rw (find-remove_other (has_id k) (has_id i) db.jobs (ids_apart i k n)) (Move-refl _)
  | inl y ↦ rw (← (eq_iff k i).0 y) (rw (find-removed k db.jobs d) (gone (find (has_id k) db.jobs)))
]
  where
    gone : {e : Db} (o : Option Job) → Move (e ≡ e) (status_of_row o) none
    gone none = absent
    gone (some j) = goes refl

Change-Move :
    (Gone : Type 0) (i : String) {a b : List Job}
    → Distinct a
    → Change a b
    → Move Gone (status_in i a) (status_in i b)
Change-Move Gone i d unchanged = Move-refl _
Change-Move Gone i {a} d (updated k f ids edge) = updated-Move Gone i k f a (λ j. (ids j).0) edge
Change-Move Gone i {a} d (inserted j fresh q) =
    inserted-Move Gone i j a (not_collides-find j a fresh) q

pub Reach-Distinct : {db : Db} → Reach empty_db db → Distinct db.jobs
unfolding Distinct delete
Reach-Distinct here = tt
Reach-Distinct (next {d} r s) = elim (Step-Change s (Reach-Sound r)) [
  | inl c ↦ Change-Distinct c (Reach-Distinct r)
  | inr (k, e) ↦ rw e (Distinct-remove k d.jobs (Reach-Distinct r))
]

-- After any history that starts from an empty database, in which a guard that tops up or reports usage
-- agrees with the row of its job, and tops up only while the job has not ended, one more transaction
-- changes the status of any job only along the diagram: a new job is queued; queued goes to running or
-- cancelled, running to succeeded, failed, cancelled or back to queued, failed back to queued; and a job
-- disappears only if the transaction does what a deletion of that very job does.
pub status-Move :
    {db db' : Db} (i : String)
    → Reach empty_db db
    → Step db db'
    → Move (db' ≡ delete i db) (status_in i db.jobs) (status_in i db'.jobs)
status-Move {db} i r s = elim (Step-Change s (Reach-Sound r)) [
  | inl c ↦ Change-Move _ i (Reach-Distinct r) c
  | inr (k, e) ↦ rw e (delete-Move i k db (Reach-Distinct r))
]
