-- ===== src/Evals/Replays.antt =====
-- A run that is recorded by src/autoswe/evals/recording.py, and replayed.
use autonomous_ai_software_e.Prelude.{
  ℕ, ◌≡◌, refl, sym, ap, ◌∙◌, inl, inr, String, false, Option, some, All, List, [], ◌∷◌, ◌++◌,
  arith, ◌==◌, map, str_eq, eq_refl, Bool-cases,
}
use autonomous_ai_software_e.Model.{TokenUsage, Json}
use autonomous_ai_software_e.Orchestrator.Pipeline.{Dict, lookup}
use autonomous_ai_software_e.Evals.{
  LlmRequest, LlmAnswer, RecordedCall, put_count, usage_dict, count_in, usage_from, recorded_call,
  record_call, replay_call,
}

-- The tokens that were counted; their cost is computed again.
abbrev pub counted : TokenUsage → TokenUsage
counted u = record u { cost_microusd = 0; unpriced_calls = 0 }

-- A count is read back from the dictionary; another is where it was.
count-put_self :
    (key : String) (n : ℕ) (rest : Dict ℕ)
    → count_in key rest ≡ 0
    → count_in key (put_count key n rest) ≡ n
unfolding put_count count_in lookup
count-put_self key n rest h = elim (Bool-cases (n == 0)) [
  | inl z ↦ let zero : n ≡ 0 = ground arith in rw (z, zero) h
  | inr p ↦ rw p (rw (eq_refl key, count_in) refl)
]

count-put_other :
    (key other : String) (n : ℕ) (rest : Dict ℕ)
    → str_eq other key ≡ false
    → count_in key (put_count other n rest) ≡ count_in key rest
unfolding put_count count_in lookup
count-put_other key other n rest h = elim (Bool-cases (n == 0)) [
  | inl z ↦ rw z refl
  | inr p ↦ rw p (rw (h, count_in) refl)
]

usage_from-dict : (u : TokenUsage) → usage_from (usage_dict u) ≡ counted u
unfolding usage_from usage_dict count_in lookup
usage_from-dict u =
    let d = put_count "cache_creation_input_tokens" u.cache_creation_input_tokens [] in
    let c = put_count "cache_read_input_tokens" u.cache_read_input_tokens d in
    let b = put_count "output_tokens" u.output_tokens c in
    let past_d = λ (key : String) (h : str_eq "cache_creation_input_tokens" key ≡ false).
      count-put_other key "cache_creation_input_tokens" u.cache_creation_input_tokens [] h in
    let past_c = λ (key : String) (h : str_eq "cache_read_input_tokens" key ≡ false).
      count-put_other key "cache_read_input_tokens" u.cache_read_input_tokens d h in
    let past_b = λ (key : String) (h : str_eq "output_tokens" key ≡ false).
      count-put_other key "output_tokens" u.output_tokens c h in
    let past_a = λ (key : String) (h : str_eq "input_tokens" key ≡ false).
      count-put_other key "input_tokens" u.input_tokens b h in
    same_usage
      (count-put_self "input_tokens" u.input_tokens b
        (past_b "input_tokens" refl ∙ past_c "input_tokens" refl ∙ past_d "input_tokens" refl))
      (past_a "output_tokens" refl
        ∙ count-put_self "output_tokens" u.output_tokens c
            (past_c "output_tokens" refl ∙ past_d "output_tokens" refl))
      (past_a "cache_read_input_tokens" refl
        ∙ past_b "cache_read_input_tokens" refl
        ∙ count-put_self "cache_read_input_tokens" u.cache_read_input_tokens d
            (past_d "cache_read_input_tokens" refl))
      (past_a "cache_creation_input_tokens" refl
        ∙ past_b "cache_creation_input_tokens" refl
        ∙ past_c "cache_creation_input_tokens" refl
        ∙ count-put_self "cache_creation_input_tokens" u.cache_creation_input_tokens [] refl)
      (past_a "cost_microusd" refl
        ∙ past_b "cost_microusd" refl
        ∙ past_c "cost_microusd" refl
        ∙ past_d "cost_microusd" refl)
      (past_a "unpriced_calls" refl
        ∙ past_b "unpriced_calls" refl
        ∙ past_c "unpriced_calls" refl
        ∙ past_d "unpriced_calls" refl)
  where
    same_usage :
        {v w : TokenUsage}
        → v.input_tokens ≡ w.input_tokens
        → v.output_tokens ≡ w.output_tokens
        → v.cache_read_input_tokens ≡ w.cache_read_input_tokens
        → v.cache_creation_input_tokens ≡ w.cache_creation_input_tokens
        → v.cost_microusd ≡ w.cost_microusd
        → v.unpriced_calls ≡ w.unpriced_calls
        → v ≡ w
    same_usage a b c d e f = cc

-- What a replay of a recorded answer is.
abbrev pub as_replayed : {Output : Type 0} → LlmAnswer Output → LlmAnswer Output
as_replayed answer = record answer { usage = counted answer.usage }

module _ {Output Schema : Type 0} (model_dump : Output → Json)
    (model_validate : Schema → Json → Option Output)
    (fingerprint : LlmRequest Schema → String) where
  -- The schema of the request reads the answer back from the JSON that it is written as.
  abbrev pub ReadsBack : LlmRequest Schema × LlmAnswer Output → Type 0
  ReadsBack (request, answer) =
      model_validate request.output_type (model_dump answer.output) ≡ some answer.output

  -- The calls of a run, in order.
  abbrev pub record_all :
      List (LlmRequest Schema × LlmAnswer Output) → List RecordedCall → List RecordedCall
  record_all [] calls = calls
  record_all ((request, answer) ∷ rest) calls =
      record_all rest (record_call model_dump model_validate fingerprint request answer calls)

  -- The answers to the requests of a run, and the calls that are left unused.
  abbrev pub replay_all :
      List (LlmRequest Schema)
      → List RecordedCall
      → List (Option (LlmAnswer Output)) × List RecordedCall
  replay_all [] calls = ([], calls)
  replay_all (request ∷ rest) calls =
      let one = replay_call model_dump model_validate fingerprint request calls in
      let others = replay_all rest one.0 in (one.1 ∷ others.0, others.1)

  replay_call-recorded :
      (request : LlmRequest Schema) (answer : LlmAnswer Output) (rest : List RecordedCall)
      → ReadsBack (request, answer)
      → replay_call model_dump model_validate fingerprint request
          (recorded_call model_dump model_validate fingerprint request answer ∷ rest)
        ≡ (rest, some (as_replayed answer))
  unfolding replay_call recorded_call
  replay_call-recorded request answer rest reads =
      rw (eq_refl request.agent, eq_refl (fingerprint request))
        (rw reads (rw (usage_from-dict answer.usage) refl))

  abbrev as_recorded : LlmRequest Schema × LlmAnswer Output → RecordedCall
  as_recorded (request, answer) = recorded_call model_dump model_validate fingerprint request answer

  append_nil : (cs : List RecordedCall) → cs ++ [] ≡ cs
  append_nil [] = refl
  append_nil (c ∷ cs) = ap (λ (t : List RecordedCall). c ∷ t) (append_nil cs)

  append_next :
      (cs : List RecordedCall) (c : RecordedCall) (ds : List RecordedCall)
      → (cs ++ c ∷ []) ++ ds ≡ cs ++ (c ∷ ds)
  append_next [] c ds = refl
  append_next (b ∷ cs) c ds = ap (λ (t : List RecordedCall). b ∷ t) (append_next cs c ds)

  record_all-map :
      (run : List (LlmRequest Schema × LlmAnswer Output)) (calls : List RecordedCall)
      → record_all run calls ≡ calls ++ map as_recorded run
  unfolding record_call
  record_all-map [] calls = sym (append_nil calls)
  record_all-map ((request, answer) ∷ rest) calls =
      record_all-map rest
        (calls ++ recorded_call model_dump model_validate fingerprint request answer ∷ [])
      ∙ append_next calls (recorded_call model_dump model_validate fingerprint request answer)
          (map as_recorded rest)

  replay_all-map :
      (run : List (LlmRequest Schema × LlmAnswer Output))
      → All ReadsBack run
      → replay_all (map (λ c. c.0) run) (map as_recorded run)
        ≡ (map (λ c. some (as_replayed c.1)) run, [])
  replay_all-map [] reads = refl
  replay_all-map ((request, answer) ∷ rest) reads =
      rw
        (
          replay_call-recorded request answer (map as_recorded rest) reads.0,
          replay_all-map rest reads.1,
        )
        refl

  -- When the requests of a run are asked again, and the schema of each reads its answer back from the JSON
  -- that it is written as, its recording answers all of them, each with its own answer, model and counts of
  -- tokens, and no call of it is left unused.
  pub replay_all-record_all :
      (run : List (LlmRequest Schema × LlmAnswer Output))
      → All ReadsBack run
      → replay_all (map (λ c. c.0) run) (record_all run [])
        ≡ (map (λ c. some (as_replayed c.1)) run, [])
  replay_all-record_all run reads = rw (record_all-map run []) (replay_all-map run reads)
