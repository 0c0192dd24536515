-- ===== src/Tests/Sandboxes.antt =====
-- Requests to a sandbox runner with one slot and no queue, and the outcome of a run.
use autonomous_ai_software_e.Prelude.{
  ◌≤◌, ◌≡◌, refl, true, false, none, some, [], ◌∷◌, ◌==◌, ltb, if◌then◌else◌, length, take,
}
use autonomous_ai_software_e.Validation.Text.{codes}
use autonomous_ai_software_e.Validation.Path.{Unicode}
use autonomous_ai_software_e.Sandbox.{
  Runner, RunRequest, new_gate, begin_run, concat, declared_over, read_body,
}
use autonomous_ai_software_e.Sandbox.Admits.{
  Service, nothing, then_turn, arrives, join_running, admitted-Within,
}
use autonomous_ai_software_e.Sandbox.Bodies.{read_body-eq}
use autonomous_ai_software_e.Sandbox.Outputs.{read_capped, read_capped-eq}
use autonomous_ai_software_e.Sandbox.Verdicts.{
  SandboxStatus, code, EntryReport, result, classify, Trusted, classify-Trusted,
}

abbrev ascii : Unicode
ascii = record {
  is_space = λ c. c == b' ';
  casefold = λ t. t;
  is_format = λ c. false;
  nfc = λ t. t;
}

abbrev runner : Runner
runner = record {
  token = codes "secret";
  max_bytes = 100;
  parse = λ body. some ([], "python");
  unicode = ascii;
  size = λ t. length t;
}

abbrev request : RunRequest
request = record {
  authorization = some (codes "Bearer secret");
  content_length = some 2;
  chunks = codes "{}" ∷ [];
}

abbrev one_run : Service
one_run = join_running 7 [] (begin_run runner request (new_gate 1 0))

abbrev second_refused : Service
second_refused = join_running 8 one_run.running (begin_run runner request one_run.gate)

admitted-Within_example :
    (second_refused.gate.admitted ≡ length second_refused.running)
    × (length second_refused.running ≤ 1)
admitted-Within_example =
    admitted-Within runner 1 0
      (then_turn (then_turn nothing (arrives 7 request)) (arrives 8 request))

only_first : second_refused.running ≡ 7 ∷ []
unfolding begin_run join_running
only_first = refl

read_body-eq_example : read_body 3 none (codes "ab" ∷ codes "cd" ∷ []) ≡ (
    if declared_over 3 none
    then none
    else if ltb 3 (length (concat (codes "ab" ∷ codes "cd" ∷ [])))
    then none
    else some (concat (codes "ab" ∷ codes "cd" ∷ [])))
read_body-eq_example = read_body-eq 3 none (codes "ab" ∷ codes "cd" ∷ [])

read_capped-eq_example :
    (concat (read_capped 3 0 false (codes "ab" ∷ codes "cd" ∷ [])).0
      ≡ take 3 (concat (codes "ab" ∷ codes "cd" ∷ [])))
    × ((read_capped 3 0 false (codes "ab" ∷ codes "cd" ∷ [])).1
        ≡ ltb 3 (length (concat (codes "ab" ∷ codes "cd" ∷ []))))
read_capped-eq_example = read_capped-eq 3 (codes "ab" ∷ codes "cd" ∷ [])

abbrev run_report : EntryReport
run_report = record {
  status = "passed";
  others_valid = true;
  parsed = some (SandboxStatus.passed, none);
}

run_passed :
    classify false false false (some run_report) (code 0) ≡ result SandboxStatus.passed none
unfolding classify
run_passed = refl

classify-Trusted_example : Trusted false false false (some run_report)
classify-Trusted_example = classify-Trusted false false false (some run_report) (code 0) run_passed
