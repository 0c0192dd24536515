-- ===== src/Tests/Principals.antt =====
-- Two configured keys, and one of them presented.
use autonomous_ai_software_e.Prelude.{ℕ, ◌≡◌, refl, Bool, false, some, none, [], ◌∷◌, ◌==◌}
use autonomous_ai_software_e.Validation.Text.{Text, codes, text_eq}
use autonomous_ai_software_e.Security.{Keys, parsed_api_keys, authenticate_key, extract_api_key}
use autonomous_ai_software_e.Security.Accepts.{principal_for, authenticate_key-eq}

abbrev space : ℕ → Bool
space c = c == b' '

abbrev raw : Text
raw = codes "ann: 0123456789abcdef, bob:fedcba9876543210"

abbrev keys : Keys
keys = (codes "0123456789abcdef", codes "ann") ∷ (codes "fedcba9876543210", codes "bob") ∷ []

abbrev itself : Text → Text
itself t = t

parsed : parsed_api_keys space raw ≡ some keys
unfolding parsed_api_keys
parsed = refl

authenticate_key-eq_example :
    authenticate_key itself false keys (some (codes "fedcba9876543210"))
    ≡ principal_for (codes "fedcba9876543210") keys
authenticate_key-eq_example =
    authenticate_key-eq itself (λ a b. refl) space raw (codes "fedcba9876543210") parsed refl

is_bob : principal_for (codes "fedcba9876543210") keys ≡ some (codes "bob")
unfolding text_eq
is_bob = refl

from_header :
    extract_api_key space (some (codes "Bearer fedcba9876543210")) none
    ≡ some (codes "fedcba9876543210")
unfolding extract_api_key text_eq
from_header = refl

too_short : parsed_api_keys space (codes "ann:short") ≡ none
unfolding parsed_api_keys
too_short = refl
