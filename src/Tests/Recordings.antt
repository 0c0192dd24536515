-- ===== src/Tests/Recordings.antt =====
-- Two calls of a run, recorded and replayed.
use autonomous_ai_software_e.Prelude.{
  ◌≡◌, refl, Option, str_eq, if◌then◌else◌, String, some, none, List, [], ◌∷◌, map,
}
use autonomous_ai_software_e.Model.{no_usage, Json}
use autonomous_ai_software_e.Evals.{LlmRequest, LlmAnswer, replay_call, record_call}
use autonomous_ai_software_e.Evals.Replays.{
  as_replayed, record_all, replay_all, replay_all-record_all,
}

-- A document is read back unless it is empty.
abbrev read : String → Json → Option String
read schema document = if str_eq document "" then none else some document

abbrev write : String → Json
write output = output

abbrev fingerprint : LlmRequest String → String
fingerprint request = request.content

abbrev question : LlmRequest String
question = record { agent = "architect"; output_type = "Design"; content = "a library" }

abbrev other : LlmRequest String
other = record { agent = "reviewer"; output_type = "Review"; content = "the files" }

abbrev answer_of : String → LlmAnswer String
answer_of output = record {
  output = output;
  model = "m";
  usage = record no_usage { input_tokens = 7; cost_microusd = 3 };
}

abbrev run : List (LlmRequest String × LlmAnswer String)
run = (question, answer_of "{}") ∷ (other, answer_of "[]") ∷ []

replay_all-record_all_example :
    replay_all write read fingerprint
      (map (λ c. c.0) run)
      (record_all write read fingerprint run [])
    ≡ (map (λ c. some (as_replayed c.1)) run, [])
replay_all-record_all_example = replay_all-record_all write read fingerprint run (refl, (refl, tt))

-- A request that the recording does not have next is refused.
mismatch :
    (replay_call write read fingerprint other (record_all write read fingerprint run [])).1 ≡ none
unfolding replay_call record_call
mismatch = refl
