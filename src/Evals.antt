-- ===== src/Evals.antt =====
-- The recorded calls of the evaluation harness: src/autoswe/evals/recording.py. The fingerprint of a request,
-- and pydantic's writing of an output to JSON and its reading with a schema, which may refuse it, are
-- parameters; a recording's other fields are left out.
pub mod Replays
use autonomous_ai_software_e.Prelude.{
  ℕ, ◌+◌, String, Bool, true, false, not, ◌||◌, Option, none, some, List, [], ◌∷◌, ◌++◌, ◌==◌,
  if◌then◌else◌, str_eq,
}
use autonomous_ai_software_e.Model.{TokenUsage, Json}
use autonomous_ai_software_e.Orchestrator.Pipeline.{Dict, lookup}

-- A request to a provider: the agent that asks, the type that its answer is read with, and the rest of it
-- as one text.
pub record LlmRequest (Schema : Type 0) : Type 0 where
  pub agent : String
  pub output_type : Schema
  pub content : String

pub record LlmAnswer (Output : Type 0) : Type 0 where
  pub output : Output
  pub model : String
  pub usage : TokenUsage

pub record RecordedCall : Type 0 where
  pub agent : String
  pub request_sha256 : String
  pub model : String
  pub usage : Dict ℕ
  pub output : Json

-- `{key: value for ... if value}`
unfoldable pub put_count : String → ℕ → Dict ℕ → Dict ℕ
put_count key n rest = if n == 0 then rest else (key, n) ∷ rest

unfoldable pub usage_dict : TokenUsage → Dict ℕ
unfolding put_count
usage_dict u = put_count "input_tokens" u.input_tokens (
    put_count "output_tokens" u.output_tokens (
      put_count "cache_read_input_tokens" u.cache_read_input_tokens
        (put_count "cache_creation_input_tokens" u.cache_creation_input_tokens [])))

-- A field that is not in the dictionary has its default.
unfoldable pub count_in : String → Dict ℕ → ℕ
unfolding lookup
count_in key values = elim (lookup key values) [ none ↦ 0 | some n ↦ n ]

unfoldable pub usage_from : Dict ℕ → TokenUsage
unfolding count_in
usage_from values = record {
  input_tokens = count_in "input_tokens" values;
  output_tokens = count_in "output_tokens" values;
  cache_read_input_tokens = count_in "cache_read_input_tokens" values;
  cache_creation_input_tokens = count_in "cache_creation_input_tokens" values;
  cost_microusd = count_in "cost_microusd" values;
  unpriced_calls = count_in "unpriced_calls" values;
}

-- `model_dump(mode="json")`, `model_validate`, which is none where it raises ValidationError, and
-- `fingerprint`.
module _ {Output Schema : Type 0} (model_dump : Output → Json)
    (model_validate : Schema → Json → Option Output)
    (fingerprint : LlmRequest Schema → String) where
  unfoldable pub recorded_call : LlmRequest Schema → LlmAnswer Output → RecordedCall
  unfolding usage_dict
  recorded_call request answer = record {
    agent = request.agent;
    request_sha256 = fingerprint request;
    model = answer.model;
    usage = usage_dict answer.usage;
    output = model_dump answer.output;
  }

  -- `RecordingProvider.generate`: the calls that are kept, with this one.
  unfoldable pub record_call :
      LlmRequest Schema → LlmAnswer Output → List RecordedCall → List RecordedCall
  unfolding recorded_call
  record_call request answer calls = calls ++ recorded_call request answer ∷ []

  -- `ReplayProvider.generate`, where `calls` are those from `_next` on: a mismatch is an error, as
  -- is an output that the schema refuses, and has used its call where there was one.
  unfoldable pub replay_call :
      LlmRequest Schema → List RecordedCall → List RecordedCall × Option (LlmAnswer Output)
  unfolding usage_from
  replay_call request [] = ([], none)
  replay_call request (call ∷ rest) =
      if not (str_eq call.agent request.agent)
      then (rest, none)
      else if not (str_eq call.request_sha256 (fingerprint request))
      then (rest, none)
      else elim (model_validate request.output_type call.output) [
        | none ↦ (rest, none)
        | some output ↦ (
          rest,
          some (record { output = output; model = call.model; usage = usage_from call.usage }),
        )
      ]
