-- ===== src/History/Final.antt =====
-- The ends of a job (src/autoswe/repository.py) that no later transaction takes back.
use autonomous_ai_software_e.Prelude.{ℕ, ◌≡◌, String, false, Option, none, some}
use autonomous_ai_software_e.Model.{JobStatus, Job, Payload, Db}
use autonomous_ai_software_e.Repository.Queue.{claim, finish}
use autonomous_ai_software_e.Repository.Requeue.{reset_for_retry}
use autonomous_ai_software_e.History.Changes.{succeeded}
use autonomous_ai_software_e.History.Lifecycle.{status_in}

-- The two ends that a retry does not take back.
abbrev pub Final : JobStatus → Type 0
Final JobStatus.succeeded = Unit
Final JobStatus.cancelled = Unit
Final _ = ⊥

abbrev FinalRow : Option JobStatus → Type 0
FinalRow none = ⊥
FinalRow (some s) = Final s

-- What is left of a job that has ended for good: its status, and refusals.
pub record Ended (k : String) (s : JobStatus) (db : Db) : Type 0 where
  pub status : status_in k db.jobs ≡ some s
  pub unfinished :
      (kind : String) (payload : Payload) (values : Job → Job) (now : ℕ)
      → finish k kind payload values now db ≡ (db, false)
  pub unclaimed : (worker : String) (now : ℕ) → claim worker now k db ≡ (db, none)
  pub unqueued : (now : ℕ) → reset_for_retry k now db ≡ (db, false)
