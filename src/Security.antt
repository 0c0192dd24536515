-- ===== src/Security.antt =====
-- The API keys: src/autoswe/security.py, and `parsed_api_keys` of src/autoswe/config.py. The SHA-256 digest
-- and what Python knows of white space are parameters; a text is its code points.
pub mod Accepts
use autonomous_ai_software_e.Prelude.{
  ℕ, String, Bool, true, false, not, ◌||◌, Option, none, some, List, [], ◌∷◌, ◌==◌, ltb,
  if◌then◌else◌, length,
}
use autonomous_ai_software_e.Publishing.{lower}
use autonomous_ai_software_e.Validation.Text.{Text, is_empty, text_eq, codes, strip, split}

-- The dictionary of keys to principals.
abbrev pub Keys : Type 0
Keys = List (Text × Text)

unfoldable pub put_key : Text → Text → Keys → Keys
unfolding text_eq
put_key key principal [] = (key, principal) ∷ []
put_key key principal ((k, p) ∷ rest) =
    if text_eq k key then (key, principal) ∷ rest else (k, p) ∷ put_key key principal rest

-- `entry.partition(":")`; `none` when there is no separator.
unfoldable pub cut_at : ℕ → Text → Option (Text × Text)
cut_at sep [] = none
cut_at sep (c ∷ cs) =
    if c == sep
    then some ([], cs)
    else elim (cut_at sep cs) [ none ↦ none | some (before, after) ↦ some (c ∷ before, after) ]

module _ (space : ℕ → Bool) where
  -- One stripped entry, `none` is the ValueError.
  unfoldable pub read_entry : Option (Text × Text) → Keys → Option Keys
  unfolding strip put_key
  read_entry none keys = none
  read_entry (some (principal, key)) keys =
      if is_empty (strip space principal) || ltb (length (strip space key)) 16
      then none
      else some (put_key (strip space key) (strip space principal) keys)

  unfoldable pub read_entries : List Text → Keys → Option Keys
  unfolding read_entry cut_at
  read_entries [] keys = some keys
  read_entries (part ∷ rest) keys =
      if is_empty (strip space part)
      then read_entries rest keys
      else elim (read_entry (cut_at 58 (strip space part)) keys) [
        | none ↦ none
        | some more ↦ read_entries rest more
      ]

  unfoldable pub parsed_api_keys : Text → Option Keys
  unfolding read_entries split
  parsed_api_keys raw = read_entries (split 44 raw) []

  -- A bearer token, where the scheme is that.
  unfoldable pub bearer : Option (Text × Text) → Option Text
  unfolding lower strip
  bearer none = none
  bearer (some (scheme, credentials)) =
      if text_eq (lower scheme) (codes "bearer")
      then (if is_empty (strip space credentials) then none else some (strip space credentials))
      else none

  unfoldable pub from_authorization : Option Text → Option Text
  unfolding bearer cut_at
  from_authorization none = none
  from_authorization (some authorization) = bearer (cut_at 32 authorization)

  unfoldable pub extract_api_key : Option Text → Option Text → Option Text
  unfolding from_authorization strip
  extract_api_key authorization none = from_authorization authorization
  extract_api_key authorization (some key) =
      if is_empty key then from_authorization authorization else some (strip space key)

abbrev pub anonymous : Text
anonymous = codes "anonymous"

-- `Principal(match) if match else None`
unfoldable pub principal_of : Option Text → Option Text
principal_of none = none
principal_of (some name) = if is_empty name then none else some name

module _ (digest : Text → Text) where
  -- `self._entries`
  abbrev pub entries_of : Keys → List (Text × Text)
  entries_of [] = []
  entries_of ((key, principal) ∷ rest) = (digest key, principal) ∷ entries_of rest

  -- The loop over the entries, which does not stop at a match.
  unfoldable pub last_match : Text → List (Text × Text) → Option Text → Option Text
  unfolding text_eq
  last_match candidate [] match = match
  last_match candidate ((d, principal) ∷ rest) match =
      last_match candidate rest (if text_eq d candidate then some principal else match)

  unfoldable pub authenticate_key : Bool → Keys → Option Text → Option Text
  unfolding last_match principal_of
  authenticate_key true keys presented = some anonymous
  authenticate_key false keys none = none
  authenticate_key false keys (some key) =
      if is_empty key then none else principal_of (last_match (digest key) (entries_of keys) none)
