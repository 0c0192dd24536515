-- ===== src/Worker/Slots.antt =====
-- What `fill_slots` of src/autoswe/worker.py leaves behind.
use autonomous_ai_software_e.Prelude.{
  ℕ, ◌≤◌, ◌≡◌, ◌⊎◌, String, true, false, none, some, List, [], ◌∷◌, ◌++◌, length, str_eq,
}
use autonomous_ai_software_e.Model.{Job, Db}
use autonomous_ai_software_e.Repository.Statements.{contains}
use autonomous_ai_software_e.Repository.Queue.{claim, candidate}
use autonomous_ai_software_e.Worker.{Worker, Turn, has_room}

-- One of the claimed jobs had a task when it was claimed.
abbrev pub Repeats : List String → List String → Type 0
Repeats tasks [] = ⊥
Repeats tasks (k ∷ ks) = (contains str_eq tasks k ≡ true) ⊎ Repeats (tasks ++ k ∷ []) ks

module _ (turns : ℕ → Turn) where
  -- A turn has claimed nothing: it has found no job that is due, or another process has taken the one that
  -- it had found; `last` is the database that it leaves.
  pub record ClaimedNothing (worker : String) (last : Db) : Type 0 where
    pub i : ℕ
    pub seen : Db
    pub why :
        ((candidate (turns i).now seen.jobs ≡ none) × (last ≡ seen))
        ⊎ (j : Job) × (candidate (turns i).now seen.jobs ≡ some j)
          × (claim worker (turns i).now j.id ((turns i).between seen) ≡ (last, none))

  -- What the loop leaves: no slot is free or the worker is stopping, or its last turn has claimed nothing,
  -- or a job was claimed that had a task; and there are not more tasks than slots.
  pub record Filled (w : Worker) (r : Worker × Db × List String) : Type 0 where
    pub over : (has_room r.0 ≡ false) ⊎ ClaimedNothing r.0.id r.1 ⊎ Repeats w.tasks r.2
    pub bounded : length w.tasks ≤ w.concurrency → length r.0.tasks ≤ r.0.concurrency
