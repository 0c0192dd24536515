-- ===== src/Repository/Reservations.antt =====
-- The reservations through the transactions of src/autoswe/repository.py: what the ledger has reserved for
-- a principal is what its jobs hold, and a job that has ended holds nothing.
pub mod Moves
pub mod Admission
pub mod Retry
pub mod Calls
use autonomous_ai_software_e.Prelude.{
  ℕ, zero, suc, ◌+◌, ◌-◌, ◌≤◌, ◌≡◌, refl, sym, ap, ◌∙◌, All-map, inl, inr, String, Bool, true,
  false, ◌&&◌, Option, none, some, List, [], ◌∷◌, ◌++◌, ◌⊎◌, arith, ◌==◌, if◌then◌else◌, str_eq,
  eq_iff, eq_refl, find, cas, update, remove, sum_by, All, Bool-cases, Option-cases, cas-find,
  cas-update, update-update, update-agree, All-update, All-find, All-append, All-remove,
  sum_by-append, sum_by-remove, remove-none,
}
use autonomous_ai_software_e.Model.{Job, JobStatus, Db, Payload, empty_db, terminal}
use autonomous_ai_software_e.Budget.{has_id, release, release_held, clear_reserved}
use autonomous_ai_software_e.Budget.Rows.{due, held_by, held_by-update_same}
use autonomous_ai_software_e.Budget.Transfer.{
  Leak, Conserved, release-Conserved, free_up, jobs-release,
}

-- A job that has ended holds nothing, nor does one that has no budget period.
pub record Holds (j : Job) : Type 0 where
  pub settled : terminal j.status ≡ true → j.tokens_reserved ≡ 0
  pub backed : j.budget_period_start ≡ none → j.tokens_reserved ≡ 0

pub record Sound (L : Leak) (db : Db) : Type 0 where
  pub conserved : Conserved L db
  pub holds : All Holds db.jobs

-- What an UPDATE leaves alone when it is not about the budget.
pub record Leaves (f : Job → Job) : Type 0 where
  pub id : (j : Job) → (f j).id ≡ j.id
  pub submission : (j : Job) → (f j).submission ≡ j.submission
  pub period : (j : Job) → (f j).budget_period_start ≡ j.budget_period_start
  pub reserved : (j : Job) → (f j).tokens_reserved ≡ j.tokens_reserved

due-Leaves : {f : Job → Job} → Leaves f → (p : String) (s : ℕ) (j : Job) → due p s (f j) ≡ due p s j
due-Leaves l p s j = rw (l.submission j, l.period j, l.reserved j) refl

pub update-Conserved :
    (L : Leak) (f : Job → Job) (k : String) (db : Db)
    → Leaves f
    → Conserved L db
    → Conserved L (record db { jobs = update (has_id k) f db.jobs })
update-Conserved L f k db l c p s =
    rw (held_by-update_same f k p s db.jobs (due-Leaves l p s)) (c p s)

-- A change of a job's row that settles it if it ends it.
pub update-Sound :
    {L : Leak} (f : Job → Job) (k : String) (db : Db)
    → Leaves f
    → ((j : Job) → find (has_id k) db.jobs ≡ some j → Holds j → Holds (f j))
    → Sound L db
    → Sound L (record db { jobs = update (has_id k) f db.jobs })
update-Sound f k db l keeps v = record {
  conserved = update-Conserved _ f k db l v.conserved;
  holds = All-update Holds (has_id k) f db.jobs v.holds keeps;
}

-- The budget's period is there where something is held.
abbrev Backed : Job → Type 0
Backed j = j.budget_period_start ≡ none → j.tokens_reserved ≡ 0

Backed-update :
    {L : Leak} (f : Job → Job) (k : String) (db : Db)
    → Leaves f
    → Sound L db
    → All Backed (update (has_id k) f db.jobs)
Backed-update f k db l v =
    All-update Backed (has_id k) f db.jobs (All-map Holds Backed db.jobs (λ j h. h.backed) v.holds)
      (λ j e b. rw (l.period j, l.reserved j) b)

pub free_up-reserved : (now : ℕ) (j : Job) → (free_up now j).tokens_reserved ≡ 0
unfolding clear_reserved
free_up-reserved now j = ground arith

-- The table after an UPDATE of a job's row and the release that follows it.
pub jobs-ending :
    {L : Leak} (f : Job → Job) (k : String) (now : ℕ) (db : Db)
    → Leaves f
    → Sound L db
    → (release k now (record db { jobs = update (has_id k) f db.jobs })).jobs
      ≡ update (has_id k) (λ j. free_up now (f j)) db.jobs
jobs-ending f k now db l v =
    jobs-release k now (record db { jobs = update (has_id k) f db.jobs })
      (λ j e. All-find Backed (has_id k) _ (Backed-update f k db l v) e)
    ∙ update-update (has_id k) f (free_up now) db.jobs (λ j. ap (λ i. str_eq i k) (l.id j))

-- An UPDATE that ends a job, with the release of the same transaction.
pub ending-Sound :
    {L : Leak} (f : Job → Job) (k : String) (now : ℕ) (db : Db)
    → Leaves f
    → Sound L db
    → Sound L (release k now (record db { jobs = update (has_id k) f db.jobs }))
ending-Sound f k now db l v = record {
  conserved = release-Conserved _ k now _ (update-Conserved _ f k db l v.conserved);
  holds = rw (jobs-ending f k now db l v) (
      All-update Holds (has_id k) (λ j. free_up now (f j)) db.jobs v.holds
        (λ j e h. record {
          settled = λ t. free_up-reserved now (f j);
          backed = λ t. free_up-reserved now (f j);
        }));
}
