-- ===== src/Tests/Entities.antt =====
-- A loan of a book by a member, with relations that close a cycle and name nothing.
use autonomous_ai_software_e.Prelude.{◌≡◌, refl, true, List, [], ◌∷◌, map, All}
use autonomous_ai_software_e.Relations.{Entity, is_in, normalise}
use autonomous_ai_software_e.Relations.Acyclic.{Loop}
use autonomous_ai_software_e.Relations.Normalised.{Owns, names, Unlike, normalise-Acyclic}

abbrev loan : Entity
loan = record { name = "Loan"; belongs_to = "Member" ∷ "Book" ∷ "Member" ∷ "Shelf" ∷ [] }

abbrev member : Entity
member = record { name = "Member"; belongs_to = "Member" ∷ "Loan" ∷ [] }

abbrev book : Entity
book = record { name = "Book"; belongs_to = "Loan" ∷ "Member" ∷ [] }

abbrev entities : List Entity
entities = loan ∷ member ∷ book ∷ []

unlike : Unlike entities
unlike = (refl, (refl, (refl, tt)))

normalise-Acyclic_example :
    (¬ Loop (Owns (normalise entities)))
    × All (λ e. All (λ p. is_in (names entities) p ≡ true) e.belongs_to) (normalise entities)
normalise-Acyclic_example = normalise-Acyclic entities unlike

kept_relations :
    map (λ e. e.belongs_to) (normalise entities)
    ≡ ("Member" ∷ "Book" ∷ []) ∷ [] ∷ ("Member" ∷ []) ∷ []
unfolding normalise
kept_relations = refl
