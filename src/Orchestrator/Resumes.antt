-- ===== src/Orchestrator/Resumes.antt =====
-- How a run of src/autoswe/pipeline/orchestrator.py resumes: `_restore`, and the stages that `_run_stages`
-- passes over.
use autonomous_ai_software_e.Prelude.{
  ◌≡◌, some, ◌⊎◌, true, false, none, List, [], ◌∷◌, ◌++◌, map, All,
}
use autonomous_ai_software_e.Model.{Job, StageName, stage_eq}
use autonomous_ai_software_e.Repository.Statements.{contains}
use autonomous_ai_software_e.Orchestrator.Pipeline.{PipelineState, Agent}
use autonomous_ai_software_e.Orchestrator.Run.{Settings, restore_stage}

abbrev pub stages_of : List Agent → List StageName
stages_of agents = map (λ a. a.stage) agents

-- No two agents have one stage.
abbrev pub Apart : List Agent → Type 0
Apart [] = Unit
Apart (a ∷ rest) = All (λ b. stage_eq a.stage b.stage ≡ false) rest × Apart rest

module _ (o : Settings) where
  -- The artifacts of the stages are valid, each in the state that the ones before it have given.
  abbrev pub Restores : Job → List Agent → PipelineState → PipelineState → Type 0
  Restores job [] st end = st ≡ end
  Restores job (a ∷ rest) st end =
      (next_state : PipelineState) × (restore_stage o a.stage job st ≡ some next_state)
      × Restores job rest next_state end

  -- The first of the stages has not succeeded, or its artifact is not valid.
  abbrev pub Runs : List StageName → Job → List Agent → PipelineState → Type 0
  Runs succeeded job [] end = Unit
  Runs succeeded job (a ∷ rest) end =
      (contains stage_eq succeeded a.stage ≡ false) ⊎ (restore_stage o a.stage job end ≡ none)

  -- What a resumed run starts with: the first agents, whose stages had all succeeded and whose artifacts
  -- are valid, are restored, the state is the one they give, and the next agent, if there is one, either
  -- had not succeeded or has an artifact that is no longer valid.
  pub record Resumed (succeeded : List StageName) (job : Job) (start : PipelineState)
      (agents : List Agent) (restored : PipelineState × List StageName) : Type 0 where
    pub pre : List Agent
    pub post : List Agent
    pub whole : agents ≡ pre ++ post
    pub these : restored.1 ≡ stages_of pre
    pub succeeded_before : All (λ a. contains stage_eq succeeded a.stage ≡ true) pre
    pub valid : Restores job pre start restored.0
    pub next_runs : Runs succeeded job post restored.0
