-- ===== src/Relations.antt =====
-- `normalise` of src/autoswe/pipeline/relations.py: which entities an entity may belong to. Of an entity the
-- name and the parents are read. `stack` has its top first, and `seen` is a set.
pub mod Reaches
pub mod Acyclic
pub mod Normalised
use autonomous_ai_software_e.Prelude.{
  ℕ, zero, suc, ◌+◌, String, Bool, true, false, not, ◌&&◌, Option, none, some, List, [], ◌∷◌, ◌++◌,
  map, if◌then◌else◌, str_eq, length,
}
use autonomous_ai_software_e.Repository.Statements.{contains}
use autonomous_ai_software_e.Orchestrator.Pipeline.{Dict, lookup, set_key}

pub record Entity : Type 0 where
  pub name : String
  pub belongs_to : List String

abbrev pub Kept : Type 0
Kept = Dict (List String)

-- `kept.get(name, [])`
unfoldable pub parents_in : Option (List String) → List String
parents_in none = []
parents_in (some parents) = parents

unfoldable pub parents_of : String → Kept → List String
unfolding lookup parents_in
parents_of name kept = parents_in (lookup name kept)

-- `stack.extend(names)`
unfoldable pub push : List String → List String → List String
push [] stack = stack
push (name ∷ names) stack = push names (name ∷ stack)

abbrev pub is_in : List String → String → Bool
is_in = contains str_eq

-- The loop of `reaches`, in at most so many turns.
unfoldable pub reaches : ℕ → String → List String → List String → Kept → Bool
unfolding parents_of push
reaches zero goal stack seen kept = false
reaches (suc fuel) goal [] seen kept = false
reaches (suc fuel) goal (name ∷ stack) seen kept = elim (str_eq name goal) [
  | true ↦ true
  | false ↦ elim (is_in seen name) [
    | true ↦ reaches fuel goal stack seen kept
    | false ↦ reaches fuel goal (push (parents_of name kept) stack) (name ∷ seen) kept
  ]
]

-- The parents of the names that are not seen; a name is pushed at most once for each.
unfoldable pub weight : List String → Kept → ℕ
weight seen [] = 0
weight seen ((name, parents) ∷ rest) =
    (if is_in seen name then 0 else length parents) + weight seen rest

abbrev pub turns : Kept → ℕ
turns kept = weight [] kept + 2

-- `parent in known and parent != entity.name and parent not in parents`
unfoldable pub usable : List String → String → List String → String → Bool
usable known name parents parent =
    is_in known parent && not (str_eq parent name) && not (is_in parents parent)

-- The parents that an entity keeps, after those that it has, and what is kept with them.
unfoldable pub add_parents :
    List String → String → List String → List String → Kept → List String × Kept
unfolding usable reaches weight set_key
add_parents known name [] parents kept = (parents, kept)
add_parents known name (parent ∷ rest) parents kept =
    elim (usable known name parents parent
      && not (reaches (turns kept) name (parent ∷ []) [] kept)) [
        | true ↦
            add_parents known name rest (parents ++ parent ∷ [])
              (set_key name (parents ++ parent ∷ []) kept)
        | false ↦ add_parents known name rest parents kept
      ]

-- `kept.setdefault(name, parents)`
unfoldable pub set_default : String → List String → Kept → Kept
unfolding lookup set_key
set_default name parents kept = elim (lookup name kept) [
  | none ↦ set_key name parents kept
  | some _ ↦ kept
]

unfoldable pub normalise_from : List String → List Entity → Kept → List Entity
unfolding add_parents set_default
normalise_from known [] kept = []
normalise_from known (e ∷ es) kept =
    let done = add_parents known e.name e.belongs_to [] kept in
    record e { belongs_to = done.0 } ∷ normalise_from known es (set_default e.name done.0 done.1)

unfoldable pub normalise : List Entity → List Entity
unfolding normalise_from
normalise entities = normalise_from (map (λ e. e.name) entities) entities []
