-- ===== src/Tests/Slots.antt =====
-- A worker with two slots and one queued job.
use autonomous_ai_software_e.Prelude.{ℕ, ◌+◌, ◌≡◌, refl, false, [], ◌∷◌, find, cas}
use autonomous_ai_software_e.Budget.{ensure, try_reserve}
use autonomous_ai_software_e.Repository.Submit.{create}
use autonomous_ai_software_e.Repository.Queue.{claim, claim_next}
use autonomous_ai_software_e.Worker.{Worker, Turn, fill_slots}
use autonomous_ai_software_e.Tests.Jobs.{submitted}

abbrev idle : Worker
idle = record { id = "w"; concurrency = 2; stale_after = 90; tasks = []; stopping = false }

-- Nobody else writes.
abbrev quiet : ℕ → Turn
quiet i = record { now = 9 + i; before = λ d. d; between = λ d. d }

-- Another worker takes the job between the first SELECT and its UPDATE.
abbrev raced : ℕ → Turn
raced i = record { now = 9 + i; before = λ d. d; between = λ d. (claim "v" 9 "a" d).0 }

claimed : (fill_slots quiet idle submitted).2 ≡ "a" ∷ []
unfolding create ensure try_reserve find cas fill_slots claim_next
claimed = refl

lost : (fill_slots raced idle submitted).2 ≡ []
unfolding create ensure try_reserve find cas fill_slots claim_next claim
lost = refl
