-- ===== src/Worker.antt =====
-- src/autoswe/worker.py: a worker's slots. A task stands for the orchestrator's run of a claimed job; the
-- loop that wakes up, the waits of a shutdown and the metrics are left out.
pub mod Slots
use autonomous_ai_software_e.Prelude.{
  ℕ, zero, suc, ◌-◌, String, Bool, true, false, not, ◌&&◌, Option, none, some, List, [], ◌∷◌, ◌++◌,
  ltb, if◌then◌else◌, str_eq, length, keep_if,
}
use autonomous_ai_software_e.Model.{Db}
use autonomous_ai_software_e.Repository.Statements.{contains}
use autonomous_ai_software_e.Repository.Queue.{claim_next, fail_stale}

pub record Worker : Type 0 where
  pub id : String
  pub concurrency : ℕ
  pub stale_after : ℕ
  pub tasks : List String  -- the keys of `_tasks`
  pub stopping : Bool

unfoldable pub add_task : String → Worker → Worker
add_task k w = record w { tasks = if contains str_eq w.tasks k then w.tasks else w.tasks ++ k ∷ [] }

-- `_on_done`
unfoldable pub on_done : String → Worker → Worker
on_done k w = record w { tasks = keep_if (λ t. not (str_eq t k)) w.tasks }

unfoldable pub reap_stale : Worker → ℕ → Db → Db × List String
reap_stale w now db = fail_stale w.stale_after now db

-- The first statement of `stop`.
unfoldable pub stop_claiming : Worker → Worker
stop_claiming w = record w { stopping = true }

abbrev pub has_room : Worker → Bool
has_room w = ltb (length w.tasks) w.concurrency && not w.stopping

-- The body of the loop after the claim; `go` is the rest of the loop.
unfoldable pub start_task :
    (Worker → Db → Worker × Db × List String)
    → Worker
    → Db × Option String
    → Worker × Db × List String
unfolding add_task
start_task go w (db, none) = (w, db, [])
start_task go w (db, some k) = let (w', db', ks) = go (add_task k w) db in (w', db', k ∷ ks)

-- What a turn of the loop meets: the time of its claim, and what other processes have written before it,
-- and between its SELECT and its UPDATE.
pub record Turn : Type 0 where
  pub now : ℕ
  pub before : Db → Db
  pub between : Db → Db

-- The loop from its turn `i` on.
unfoldable pub fill : (ℕ → Turn) → ℕ → ℕ → Worker → Db → Worker × Db × List String
unfolding start_task
fill turns zero i w db = (w, db, [])
fill turns (suc n) i w db = elim (has_room w) [
  | true ↦
      start_task (fill turns n (suc i)) w
        (claim_next w.id (turns i).now (turns i).between ((turns i).before db))
  | false ↦ (w, db, [])
]

-- Each turn of the loop but the last takes a free slot, so the fuel is one turn more than those, unless a
-- job is claimed that has a task already.
unfoldable pub fill_slots : (ℕ → Turn) → Worker → Db → Worker × Db × List String
unfolding fill
fill_slots turns w db = fill turns (suc (w.concurrency - length w.tasks)) zero w db
