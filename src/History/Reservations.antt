-- ===== src/History/Reservations.antt =====
-- Over any history the reservations neither leak nor are counted twice.
use autonomous_ai_software_e.Prelude.{
  ℕ, ◌+◌, ◌≡◌, refl, arith, sym, ap, ◌∙◌, inl, inr, String, Option, some, List, [], ◌∷◌, ◌&&◌, Bool,
  true, find, cas, Option-cases, All-find,
}
use autonomous_ai_software_e.Model.{
  JobStatus, StageName, Job, Publication, publishing, Payload, Db, empty_db, terminal, status_eq,
}
use autonomous_ai_software_e.Budget.{has_id}
use autonomous_ai_software_e.Budget.Transfer.{Leak}
use autonomous_ai_software_e.Budget.Rows.{due, reserved_in, held_by}
use autonomous_ai_software_e.Repository.Statements.{add_event}
use autonomous_ai_software_e.Repository.Statements.{
  GeneratedFile, update_job, heartbeat, beat, update_stage, skip_pending_stages, upsert_files,
  discard_files, claim_publication, record_publication, set_publication, is_none,
}
use autonomous_ai_software_e.Repository.Reservations.{Holds, Sound, Leaves, update-Sound}
use autonomous_ai_software_e.Repository.Reservations.Moves.{
  cas-Sound, add_event-Sound, claim-Sound, request_cancel-Sound, finish-Sound, reap-Sound,
  reset_for_retry-Sound, schedule_retry-Sound,
}
use autonomous_ai_software_e.Repository.Reservations.Admission.{
  create-Sound, delete-Sound, leaves_due, due_of,
}
use autonomous_ai_software_e.Repository.Reservations.Retry.{retry_failed-Sound}
use autonomous_ai_software_e.Repository.Reservations.Calls.{before_call-Sound, after_call-Sound}
use autonomous_ai_software_e.Orchestrator.Outcomes.{set_stage, set_artifacts}
use autonomous_ai_software_e.History.{
  Step, submits, cancels, retries, deletes, claims, progresses, persists, beats, finishes,
  interrupts, postpones, reaps, emits, skips, stages, stores, discards, publishes, published,
  tops_up, spends, Reach, here, next, HasEnded, Guarded,
}

update_job-Sound :
    {L : Leak} (k : String) (values : Job → Job) (now : ℕ) (db : Db)
    → Leaves values
    → ((j : Job) → (values j).status ≡ j.status)
    → Sound L db
    → Sound L (update_job k values now db)
unfolding update_job
update_job-Sound k values now db l same v =
    update-Sound (λ j. values (record j { updated_at = now })) k db
      (record {
        id = λ j. l.id _;
        submission = λ j. l.submission _;
        period = λ j. l.period _;
        reserved = λ j. l.reserved _;
      })
      (λ j e h. record {
        settled = λ t. l.reserved _ ∙ h.settled (sym (ap terminal (same _)) ∙ t);
        backed = λ n. l.reserved _ ∙ h.backed (sym (l.period _) ∙ n);
      })
      v

heartbeat-Sound :
    {L : Leak} (k : String) (now : ℕ) (db : Db) → Sound L db → Sound L (heartbeat k now db)
unfolding heartbeat
heartbeat-Sound k now db v =
    update-Sound (beat now) k db
      (record { id = λ j. refl; submission = λ j. refl; period = λ j. refl; reserved = λ j. refl })
      (λ j e h. record { settled = h.settled; backed = h.backed }) v

set_publication-Leaves : (value : Option Publication) (now : ℕ) → Leaves (set_publication value now)
unfolding set_publication
set_publication-Leaves value now = record {
  id = λ j. refl;
  submission = λ j. refl;
  period = λ j. refl;
  reserved = λ j. refl;
}

set_publication-Holds :
    (value : Option Publication) (now : ℕ) (j : Job) → Holds j → Holds (set_publication value now j)
unfolding set_publication
set_publication-Holds value now j h = record { settled = h.settled; backed = h.backed }

claim_publication-Sound :
    {L : Leak} (k : String) (now : ℕ) (db : Db)
    → Sound L db
    → Sound L (claim_publication k now db).0
unfolding claim_publication
claim_publication-Sound k now db v =
    elim (Option-cases (cas (has_id k) claims_it (set_publication (some publishing) now) db.jobs)) [
      | inl e ↦ rw (e, claim_publication) v
      | inr (jobs, e) ↦
          rw (e, claim_publication)
            (cas-Sound claims_it _ k db e (set_publication-Leaves (some publishing) now)
              (λ j g h. set_publication-Holds (some publishing) now j h) v)
    ]
  where
    claims_it : Job → Bool
    claims_it j = status_eq j.status JobStatus.succeeded && is_none j.publication

record_publication-Sound :
    {L : Leak} (k : String) (value : Option Publication) (kind : String) (payload : Payload)
    (now : ℕ) (db : Db)
    → Sound L db
    → Sound L (record_publication k value kind payload now db)
unfolding record_publication
record_publication-Sound k value kind payload now db v = add_event-Sound k kind payload now _ (
    update-Sound (set_publication value now) k db (set_publication-Leaves value now)
      (λ j e h. set_publication-Holds value now j h) v)

upsert_files-Sound :
    {L : Leak} (k : String) (files : List GeneratedFile) (stage : StageName) (db : Db)
    → Sound L db
    → Sound L (upsert_files k files stage db)
unfolding upsert_files
upsert_files-Sound k [] stage db v = v
upsert_files-Sound k (f ∷ fs) stage db v = record { conserved = v.conserved; holds = v.holds }

-- What a step adds to what has leaked: a deletion, what its job holds.
abbrev pub leak : {d e : Db} → Step d e → Leak → Leak
leak {d} (deletes k) L = leaves_due k d L
leak _ L = L

abbrev nothing_leaked : Leak
nothing_leaked p s = 0

-- The tokens of each principal and period that jobs held when they were deleted.
abbrev pub leaked : {db : Db} → Reach empty_db db → Leak
leaked here = nothing_leaked
leaked (next r s) = leak s (leaked r)

-- Every transaction keeps the reservations sound.
pub Step-Sound : {db db' : Db} {L : Leak} (s : Step db db') → Sound L db → Sound (leak s L) db'
unfolding skip_pending_stages update_stage discard_files set_stage set_artifacts
Step-Sound {db} (submits id sub r now) v = create-Sound id sub r now db v
Step-Sound {db} (cancels k now) v = request_cancel-Sound k now db v
Step-Sound {db} (retries k owner r now) v = retry_failed-Sound k owner r now db v
Step-Sound {db} (deletes k) v = delete-Sound k db v
Step-Sound {db} (claims worker now k) v = claim-Sound worker now k db v
Step-Sound {db} (progresses k stage now) v =
    update_job-Sound k (set_stage stage) now db
      (record { id = λ j. refl; submission = λ j. refl; period = λ j. refl; reserved = λ j. refl })
      (λ j. refl) v
Step-Sound {db} (persists k total made now) v =
    update_job-Sound k (set_artifacts total made) now db
      (record { id = λ j. refl; submission = λ j. refl; period = λ j. refl; reserved = λ j. refl })
      (λ j. refl) v
Step-Sound {db} (beats k now) v = heartbeat-Sound k now db v
Step-Sound {db} (finishes k o now) v = finish-Sound k _ _ o now db v
Step-Sound {db} (interrupts k now) v = reset_for_retry-Sound k now db v
Step-Sound {db} (postpones k stage delay error code now) v =
    schedule_retry-Sound k stage delay error code now db v
Step-Sound {db} (reaps k now) v = reap-Sound k now db v
Step-Sound {db} (emits k kind payload now) v =
    unfold add_event in record { conserved = v.conserved; holds = v.holds }
Step-Sound {db} (skips k) v = record { conserved = v.conserved; holds = v.holds }
Step-Sound {db} (stages k stage values) v = record { conserved = v.conserved; holds = v.holds }
Step-Sound {db} (stores k files stage) v = upsert_files-Sound k files stage db v
Step-Sound {db} (discards k keep) v = record { conserved = v.conserved; holds = v.holds }
Step-Sound {db} (publishes k now) v = claim_publication-Sound k now db v
Step-Sound {db} (published k value kind payload now) v =
    record_publication-Sound k value kind payload now db v
Step-Sound {db} (tops_up g now sync alive) v = before_call-Sound g now db sync alive v
Step-Sound {db} (spends g usage now sync) v = after_call-Sound g usage now db sync v

pub empty-Sound : Sound nothing_leaked empty_db
unfolding find
empty-Sound = record { conserved = λ p s. refl; holds = tt }

pub Reach-Sound : {db : Db} (r : Reach empty_db db) → Sound (leaked r) db
Reach-Sound here = empty-Sound
Reach-Sound (next r s) = Step-Sound s (Reach-Sound r)

-- From an empty database, after any transactions in any order, in which a guard that tops up or reports
-- usage agrees with the row of its job, and tops up only while the job has not ended: for every principal
-- and period the tokens that the ledger has reserved are those that the principal's jobs hold of it, and
-- those that its deleted jobs held when they were deleted.
pub reserved-eq-held :
    {db : Db} (r : Reach empty_db db) (p : String) (s : ℕ)
    → reserved_in p s db.usage ≡ held_by p s db.jobs + leaked r p s
reserved-eq-held r = (Reach-Sound r).conserved

due-ended :
    (k p : String) (s : ℕ) {L : Leak} (db : Db)
    → Sound L db
    → ((j : Job) → find (has_id k) db.jobs ≡ some j → terminal j.status ≡ true)
    → due_of p s (find (has_id k) db.jobs) ≡ 0
due-ended k p s db v ended = elim (Option-cases (find (has_id k) db.jobs)) [
  | inl e ↦ rw e refl
  | inr (j, e) ↦
      rw e (due_zero j ((All-find Holds (has_id k) db.jobs v.holds e).settled (ended j e)))
]
  where
    due_zero : (j : Job) → j.tokens_reserved ≡ 0 → due p s j ≡ 0
    due_zero j z = ground arith

Step-leak :
    {d e : Db} (p : String) (s : ℕ) {L : Leak} (step : Step d e)
    → HasEnded step
    → Sound L d
    → leak step L p s ≡ L p s
Step-leak {d} p s (deletes k) ended v = rw (due-ended k p s d v ended) (omega arith)
Step-leak p s (submits id sub r now) ended v = refl
Step-leak p s (cancels k now) ended v = refl
Step-leak p s (retries k owner r now) ended v = refl
Step-leak p s (claims worker now k) ended v = refl
Step-leak p s (progresses k stage now) ended v = refl
Step-leak p s (persists k total made now) ended v = refl
Step-leak p s (beats k now) ended v = refl
Step-leak p s (finishes k o now) ended v = refl
Step-leak p s (interrupts k now) ended v = refl
Step-leak p s (postpones k stage delay error code now) ended v = refl
Step-leak p s (reaps k now) ended v = refl
Step-leak p s (emits k kind payload now) ended v = refl
Step-leak p s (skips k) ended v = refl
Step-leak p s (stages k stage values) ended v = refl
Step-leak p s (stores k files stage) ended v = refl
Step-leak p s (discards k keep) ended v = refl
Step-leak p s (publishes k now) ended v = refl
Step-leak p s (published k value kind payload now) ended v = refl
Step-leak p s (tops_up g now sync alive) ended v = refl
Step-leak p s (spends g usage now sync) ended v = refl

-- A history in which every deletion finds that its job, if it is there, has ended leaks nothing: no
-- deleted job held a token of the ledger.
pub leaked-Guarded :
    {db : Db} (r : Reach empty_db db) (p : String) (s : ℕ) → Guarded r → leaked r p s ≡ 0
leaked-Guarded here p s g = refl
leaked-Guarded (next r step) p s g =
    Step-leak p s step g.1 (Reach-Sound r) ∙ leaked-Guarded r p s g.0

-- From an empty database, after any transactions in any order, in which a guard that tops up or reports
-- usage agrees with the row of its job, and tops up only while the job has not ended: a job that has
-- succeeded, failed or been cancelled holds no reservation.
pub terminal-holds_nothing :
    {db : Db} (k : String) {j : Job}
    → Reach empty_db db
    → find (has_id k) db.jobs ≡ some j
    → terminal j.status ≡ true
    → j.tokens_reserved ≡ 0
terminal-holds_nothing {db} k r e =
    (All-find Holds (has_id k) db.jobs (Reach-Sound r).holds e).settled
