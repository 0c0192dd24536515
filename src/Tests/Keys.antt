-- ===== src/Tests/Keys.antt =====
-- A submission that is sent twice with one idempotency key.
use autonomous_ai_software_e.Prelude.{◌≡◌, refl, String, none, some, find}
use autonomous_ai_software_e.Model.{Submission, Job, Db, empty_db}
use autonomous_ai_software_e.Budget.{has_id}
use autonomous_ai_software_e.Repository.Submit.{create, duplicate_submission, by_idempotency_key}
use autonomous_ai_software_e.Repository.Duplicates.{create-duplicate}
use autonomous_ai_software_e.Tests.Jobs.{order}

abbrev keyed : Submission
keyed = record order { idempotency_key = some "k" }

abbrev sent : Db
sent = (create "a" keyed none 5 empty_db).0

unused : find (has_id "b") sent.jobs ≡ none
unfolding create find
unused = refl

refused : (create "b" keyed none 6 sent).1 ≡ duplicate_submission
unfolding create
refused = refl

create-duplicate_example :
    (key : String) × (keyed.idempotency_key ≡ some key)
    × (j : Job) × (by_idempotency_key keyed.owner key sent ≡ some j)
create-duplicate_example = create-duplicate "b" keyed none 6 sent unused refused
