-- ===== src/Repository/Checkpoints.antt =====
-- What a requeue keeps of a job's earlier attempt (src/autoswe/repository.py, `_requeue`): what the stages
-- that succeeded have made, and nothing else.
use autonomous_ai_software_e.Prelude.{
  ℕ, ◌≡◌, refl, ◌⊎◌, inl, inr, String, some, List, [], ◌∷◌, arith, Bool, true, not, ◌&&◌, str_eq,
  All, update_all, keep_if, Option-cases, Bool-cases, cas,
}
use mathlib.Core.Option.{some-injective}
use mathlib.Core.Path.{subst}
use autonomous_ai_software_e.Model.{
  JobStatus, StageStatus, StageName, Job, StageRun, JobFile, Db, stage_done, stage_eq, status_eq,
}
use autonomous_ai_software_e.Budget.{has_id}
use autonomous_ai_software_e.Repository.Statements.{of_job, contains, done_stages}
use autonomous_ai_software_e.Repository.Requeue.{reset_stage, rewind, requeue, back_to_queue}

abbrev unfinished : String → StageRun → Bool
unfinished k s = of_job k s && not (stage_done s.status)

-- After the reset the job's stages are the done ones as they were, and the others pending.
abbrev Rewound : String → StageRun → Type 0
Rewound k s = of_job k s ≡ true → (stage_done s.status ≡ true) ⊎ (s.status ≡ StageStatus.pending)

reset-done :
    (k : String) (stages : List StageRun)
    → done_stages k (update_all (unfinished k) reset_stage stages) ≡ done_stages k stages
unfolding done_stages update_all reset_stage stage_done
reset-done k [] = refl
reset-done k (s ∷ ss) = ground (arith, reset-done k ss)

reset-Rewound :
    (k : String) (stages : List StageRun)
    → All (Rewound k) (update_all (unfinished k) reset_stage stages)
unfolding update_all reset_stage stage_done
reset-Rewound k [] = tt
reset-Rewound k (s ∷ ss) = (ground arith, reset-Rewound k ss)

-- A file that is kept belongs to another job or to a done stage.
abbrev Made : String → List StageName → JobFile → Type 0
Made k done f = str_eq f.job_id k ≡ true → contains stage_eq done f.stage ≡ true

keep-Made :
    (k : String) (done : List StageName) (files : List JobFile)
    → All
        (Made k done)
        (keep_if (λ f. not (str_eq f.job_id k && not (contains stage_eq done f.stage))) files)
keep-Made k done [] = tt
keep-Made k done (f ∷ fs) =
    elim (Bool-cases (not (str_eq f.job_id k && not (contains stage_eq done f.stage)))) [
      | inl y ↦ rw y (ground arith, keep-Made k done fs)
      | inr n ↦ rw n (keep-Made k done fs)
    ]

abbrev made_by : String → List StageName → JobFile → Bool
made_by k done f = str_eq f.job_id k && contains stage_eq done f.stage

keep-made_by :
    (k : String) (done : List StageName) (files : List JobFile)
    → keep_if
        (made_by k done)
        (keep_if (λ f. not (str_eq f.job_id k && not (contains stage_eq done f.stage))) files)
      ≡ keep_if (made_by k done) files
keep-made_by k done [] = refl
keep-made_by k done (f ∷ fs) = ground (arith, keep-made_by k done fs)

pub record Checkpoint (k : String) (db db' : Db) : Type 0 where
  pub done : done_stages k db'.stages ≡ done_stages k db.stages
  pub stages : All (Rewound k) db'.stages
  pub files : All (Made k (done_stages k db.stages)) db'.files
  pub kept :
      keep_if (made_by k (done_stages k db.stages)) db'.files
      ≡ keep_if (made_by k (done_stages k db.stages)) db.files

-- A job that goes back to the queue, from running or from failed, keeps exactly its succeeded stages:
-- the same stages count as done, every other stage of it is pending, and of its files those that a
-- done stage made are left, all of them and no others.
pub requeue-Checkpoint :
    (k : String) (from : JobStatus) (values : Job → Job) (now : ℕ) (db : Db) {db' : Db}
    → requeue k from values now db ≡ some db'
    → Checkpoint k db db'
unfolding requeue
requeue-Checkpoint k from values now db {db'} h =
    elim (Option-cases
      (cas (has_id k) (λ j. status_eq j.status from) (back_to_queue values now) db.jobs)) [
        | inl e ↦ cc (rw (e, requeue) at h)
        | inr (jobs, e) ↦
            subst (λ (d : Db). Checkpoint k db d) (some-injective _ _ (rw (e, requeue) at h))
              (unfold rewind in
                record {
                  done = reset-done k db.stages;
                  stages = reset-Rewound k db.stages;
                  files = keep-Made k (done_stages k db.stages) db.files;
                  kept = keep-made_by k (done_stages k db.stages) db.files;
                })
      ]
