-- ===== src/Sandbox/Admits.antt =====
-- The runs that the sandbox runner of src/autoswe/sandbox/service.py lets in, in any order of requests and
-- ends.
use autonomous_ai_software_e.Prelude.{
  ℕ, ◌+◌, ◌≤◌, ◌≡◌, refl, inl, inr, String, Option, none, some, List, [], ◌∷◌, arith, ◌==◌, leb,
  length, find, remove, Bool-cases, Option-cases,
}
use autonomous_ai_software_e.Validation.Text.{is_empty}
use autonomous_ai_software_e.Validation.Sanitize.{SourceFile, sanitize_files}
use autonomous_ai_software_e.Sandbox.{
  Gate, new_gate, try_enter, leave, Runner, run_limits, RunRequest, Began, refused, admitted, enter,
  check_files, authenticate, read_body, begin_run,
}

-- The gate, and the runs that the backend works on.
pub record Service : Type 0 where
  pub gate : Gate
  pub running : List ℕ

unfoldable pub join_running : ℕ → List ℕ → Gate × Began → Service
join_running id running (gate, refused code) = record { gate = gate; running = running }
join_running id running (gate, admitted files stack) = record {
  gate = gate;
  running = id ∷ running;
}

-- A request arrives, or one of the runs ends.
pub data Turn (r : Runner) (s : Service) : Service → Type 0 where
  arrives :
      (id : ℕ) (request : RunRequest)
      → Turn r s (join_running id s.running (begin_run r request s.gate))
  ends :
      (id n : ℕ)
      → find (λ i. i == id) s.running ≡ some n
      → Turn r s (record { gate = leave s.gate; running = remove (λ i. i == id) s.running })

pub data Served (r : Runner) (s : Service) : Service → Type 0 where
  nothing : Served r s s
  then_turn : {t u : Service} → Served r s t → Turn r t u → Served r s u

-- The gate counts the runs, and there are not too many.
record Counted (capacity : ℕ) (s : Service) : Type 0 where
  same : s.gate.capacity ≡ capacity
  counts : s.gate.admitted ≡ length s.running
  within : length s.running ≤ capacity

module _ (r : Runner) (capacity id : ℕ) (s : Service) (c : Counted capacity s) where
  refused-Counted : (code : ℕ) → Counted capacity (join_running id s.running (s.gate, refused code))
  unfolding join_running
  refused-Counted code = record { same = c.same; counts = c.counts; within = c.within }

  enter-Counted :
      (files : List SourceFile) (stack : String)
      → Counted capacity (join_running id s.running (enter files stack (try_enter s.gate)))
  unfolding join_running enter try_enter
  enter-Counted files stack = elim (Bool-cases (leb s.gate.capacity s.gate.admitted)) [
    | inl y ↦ rw y (record { same = c.same; counts = c.counts; within = c.within })
    | inr n ↦ rw n (record {
      same = c.same;
      counts = omega (arith, c.counts);
      within = ground (arith, c.same, c.counts, c.within);
    })
  ]

  check_files-Counted :
      (read : Option (List SourceFile × String))
      → Counted capacity (join_running id s.running (check_files r s.gate read))
  unfolding check_files
  check_files-Counted none = refused-Counted 422
  check_files-Counted (some (files, stack)) =
      elim (Bool-cases (is_empty (sanitize_files r.unicode r.size (run_limits r) files).1)) [
        | inl y ↦ rw (y, check_files) (enter-Counted _ stack)
        | inr n ↦ rw (n, check_files) (refused-Counted 422)
      ]

  begin_run-Counted :
      (request : RunRequest)
      → Counted capacity (join_running id s.running (begin_run r request s.gate))
  unfolding begin_run
  begin_run-Counted request = elim (Bool-cases (authenticate r request.authorization)) [
    | inr n ↦ rw (n, begin_run) (refused-Counted 401)
    | inl y ↦ elim (Option-cases (read_body r.max_bytes request.content_length request.chunks)) [
      | inl e ↦ rw (y, e, begin_run) (refused-Counted 413)
      | inr (body, e) ↦ rw (y, e, begin_run) (check_files-Counted (r.parse body))
    ]
  ]

length-remove :
    (id n : ℕ) (ids : List ℕ)
    → find (λ i. i == id) ids ≡ some n
    → length (remove (λ i. i == id) ids) + 1 ≡ length ids
unfolding find remove
length-remove id n [] h = cc
length-remove id n (i ∷ ids) h = ground (arith, length-remove id n ids)

Turn-Counted :
    (r : Runner) (capacity : ℕ) {s t : Service}
    → Counted capacity s
    → Turn r s t
    → Counted capacity t
unfolding leave
Turn-Counted r capacity {s} c (arrives id request) = begin_run-Counted r capacity id s c request
Turn-Counted r capacity {s} c (ends id n there) = record {
  same = c.same;
  counts = omega (arith, c.counts, length-remove id n s.running there);
  within = omega (arith, c.within, length-remove id n s.running there);
}

abbrev pub idle : ℕ → ℕ → Service
idle slots queue = record { gate = new_gate slots queue; running = [] }

Served-Counted :
    (r : Runner) (slots queue : ℕ) {s : Service}
    → Served r (idle slots queue) s
    → Counted (slots + queue) s
Served-Counted r slots queue nothing = record { same = refl; counts = refl; within = omega arith }
Served-Counted r slots queue (then_turn v t) =
    Turn-Counted r (slots + queue) (Served-Counted r slots queue v) t

-- Whatever requests arrive and in whatever order the runs end, the gate counts those that are let in and
-- have not ended, and they are never more than the slots and the queue.
pub admitted-Within :
    (r : Runner) (slots queue : ℕ) {s : Service}
    → Served r (idle slots queue) s
    → (s.gate.admitted ≡ length s.running) × (length s.running ≤ slots + queue)
admitted-Within r slots queue v = let c = Served-Counted r slots queue v in (c.counts, c.within)
