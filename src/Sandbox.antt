-- ===== src/Sandbox.antt =====
-- The sandbox runner of src/autoswe/sandbox/service.py: who may ask for a run, how much it may send, and how
-- many runs are let in. Bytes are numbers; a body is the chunks in which it arrives.
pub mod Outputs
pub mod Bodies
pub mod Verdicts
pub mod Admits
use autonomous_ai_software_e.Prelude.{
  ℕ, zero, suc, ◌+◌, ◌-◌, String, Bool, true, false, not, ◌||◌, Option, none, some, List, [], ◌∷◌,
  ◌++◌, ◌==◌, ltb, leb, if◌then◌else◌, length,
}
use autonomous_ai_software_e.Publishing.{lower}
use autonomous_ai_software_e.Validation.Text.{Text, is_empty, text_eq, codes}
use autonomous_ai_software_e.Validation.Path.{Unicode}
use autonomous_ai_software_e.Validation.Sanitize.{Limits, SourceFile, sanitize_files}

-- `_Gate`
pub record Gate : Type 0 where
  pub capacity : ℕ
  pub admitted : ℕ

abbrev pub new_gate : ℕ → ℕ → Gate
new_gate slots queue = record { capacity = slots + queue; admitted = 0 }

unfoldable pub try_enter : Gate → Gate × Bool
try_enter gate =
    if leb gate.capacity gate.admitted
    then (gate, false)
    else (record gate { admitted = gate.admitted + 1 }, true)

unfoldable pub leave : Gate → Gate
leave gate = record gate { admitted = gate.admitted - 1 }

-- The runner's settings, and what it takes from libraries: pydantic's reading of a body (`none` is a
-- ValidationError), what Python knows of Unicode, and the size of a text in UTF-8.
pub record Runner : Type 0 where
  pub token : Text
  pub max_bytes : ℕ
  pub parse : Text → Option (List SourceFile × String)
  pub unicode : Unicode
  pub size : Text → ℕ

abbrev pub run_limits : Runner → Limits
run_limits r = record { max_files = 500; max_file_bytes = 1000000; max_total_bytes = r.max_bytes }

-- `text.partition(" ")`: what stands before the first space, and after it.
unfoldable pub partition : Text → Text × Text
partition [] = ([], [])
partition (c ∷ cs) = let rest = partition cs in if c == 32 then ([], cs) else (c ∷ rest.0, rest.1)

-- Whether `authenticate` lets the request pass.
unfoldable pub authenticate : Runner → Option Text → Bool
unfolding partition lower text_eq
authenticate r none = false
authenticate r (some authorization) =
    let parts = partition authorization in
    if text_eq (lower parts.0) (codes "bearer") then text_eq parts.1 r.token else false

-- The loop over the chunks; `none` is the 413.
unfoldable pub collect : ℕ → ℕ → List Text → List Text → Option (List Text)
collect max size chunks [] = some chunks
collect max size chunks (chunk ∷ rest) =
    let more = collect max (size + length chunk) (chunks ++ chunk ∷ []) rest in
    if ltb max (size + length chunk) then none else more

-- `b"".join(chunks)`
unfoldable pub concat : List Text → Text
concat [] = []
concat (chunk ∷ chunks) = chunk ++ concat chunks

unfoldable pub join_body : Option (List Text) → Option Text
unfolding concat
join_body none = none
join_body (some chunks) = some (concat chunks)

-- `int(declared) > max_bytes`, of a header that is there and a number.
unfoldable pub declared_over : ℕ → Option ℕ → Bool
declared_over max none = false
declared_over max (some n) = ltb max n

unfoldable pub read_body : ℕ → Option ℕ → List Text → Option Text
unfolding collect join_body declared_over
read_body max declared chunks =
    if declared_over max declared then none else join_body (collect max 0 [] chunks)

pub record RunRequest : Type 0 where
  pub authorization : Option Text
  pub content_length : Option ℕ
  pub chunks : List Text

-- A request is refused with a status, or its files go to the backend.
pub data Began : Type 0 where
  refused : ℕ → Began
  admitted : List SourceFile → String → Began

unfoldable pub enter : List SourceFile → String → Gate × Bool → Gate × Began
enter files stack (gate, true) = (gate, admitted files stack)
enter files stack (gate, false) = (gate, refused 503)

unfoldable pub check_files : Runner → Gate → Option (List SourceFile × String) → Gate × Began
unfolding sanitize_files enter try_enter
check_files r gate none = (gate, refused 422)
check_files r gate (some (files, stack)) =
    let clean = sanitize_files r.unicode r.size (run_limits r) files in
    if is_empty clean.1 then enter clean.0 stack (try_enter gate) else (gate, refused 422)

-- `run` up to the call of the backend. When that has ended, in whatever way, `leave` follows.
unfoldable pub begin_run : Runner → RunRequest → Gate → Gate × Began
unfolding authenticate read_body check_files
begin_run r request gate =
    if authenticate r request.authorization
    then elim (read_body r.max_bytes request.content_length request.chunks) [
      | none ↦ (gate, refused 413)
      | some body ↦ check_files r gate (r.parse body)
    ]
    else (gate, refused 401)
