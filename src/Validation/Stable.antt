-- ===== src/Validation/Stable.antt =====
-- What `normalize_path` of src/autoswe/pipeline/validation.py lets through.
use autonomous_ai_software_e.Prelude.{
  ◌≤◌, ◌≡◌, refl, ap, ◌∙◌, inl, inr, false, Option, none, some, List, [], ◌∷◌, ◌||◌, ◌==◌,
  if◌then◌else◌, length, arith, Bool-cases,
}
use autonomous_ai_software_e.Validation.Text.{
  Text, codes, is_empty, text_eq, any, strip, strip_idem, split, join, join-split,
}
use autonomous_ai_software_e.Validation.Path.{
  Unicode, invalid_char, unsafe_segment, max_path_depth, checked_path, normalize_path,
}

checked_path-eq-some :
    (u : Unicode) (t : Text) {r : Text} → checked_path u t ≡ some r → r ≡ join b'/' (split b'/' t)
unfolding checked_path
checked_path-eq-some u t h = ground arith

normalize-checked :
    (u : Unicode) (raw : Text) → normalize_path u raw ≡ checked_path u (strip u.is_space raw)
unfolding normalize_path
normalize-checked u raw = refl

-- A path that is accepted is the given one without the white space at its ends, and is accepted again
-- unchanged: the second check of packaging and of the sandbox drops no stored file.
pub normalize_path-stable :
    (u : Unicode) (raw : Text) {r : Text}
    → normalize_path u raw ≡ some r
    → (r ≡ strip u.is_space raw) × (normalize_path u r ≡ some r)
normalize_path-stable u raw {r} h =
    let checked : checked_path u (strip u.is_space raw) ≡ some r = rw normalize-checked at h in
    let same : r ≡ strip u.is_space raw =
      checked_path-eq-some u (strip u.is_space raw) checked
      ∙ join-split b'/' (strip u.is_space raw) in
    (
      same,
      normalize-checked u r
          ∙ ap (checked_path u) (ap (strip u.is_space) same ∙ strip_idem u.is_space raw)
          ∙ checked,
    )

-- How an archive or a sandbox follows a path from its root: an empty part and "." stay, ".." goes to
-- the parent, and out of the root it fails.
pub data Part : Type 0 where
  stay up : Part
  down : Text → Part

pub read_part : Text → Part
unfolding text_eq
read_part p =
    if is_empty p || text_eq p (codes ".")
    then stay
    else if text_eq p (codes "..")
    then up
    else down p

up_from : List Text → (List Text → Option (List Text)) → Option (List Text)
up_from [] k = none
up_from (d ∷ ds) k = k ds

pub follow : List Text → List Text → Option (List Text)
unfolding read_part up_from
follow [] dirs = some dirs
follow (p ∷ ps) dirs = elim (read_part p) [
  | stay ↦ follow ps dirs
  | up ↦ up_from dirs (follow ps)
  | down d ↦ follow ps (d ∷ dirs)
]

abbrev onto : List Text → List Text → List Text
onto [] dirs = dirs
onto (p ∷ ps) dirs = onto ps (p ∷ dirs)

safe-down : (u : Unicode) (p : Text) → unsafe_segment u p ≡ false → read_part p ≡ down p
unfolding unsafe_segment read_part
safe-down u [] h = cc
safe-down u (c ∷ cs) h = ground arith

follow-safe :
    (u : Unicode) (ps dirs : List Text)
    → any (unsafe_segment u) ps ≡ false
    → follow ps dirs ≡ some (onto ps dirs)
unfolding follow any
follow-safe u [] dirs h = refl
follow-safe u (p ∷ ps) dirs h = elim (Bool-cases (unsafe_segment u p)) [
  | inl y ↦ cc (rw y at h)
  | inr n ↦ rw (safe-down u p n, follow) (follow-safe u ps (p ∷ dirs) (rw n at h))
]

checked_path-parts :
    (u : Unicode) (t : Text) {r : Text}
    → checked_path u t ≡ some r
    → (any (unsafe_segment u) (split b'/' t) ≡ false)
      × (length (split b'/' t) ≤ max_path_depth)
      × (any (λ c. c == 0x5c) t ≡ false)
      × (any invalid_char t ≡ false)
unfolding checked_path
checked_path-parts u t h = ground arith

-- What a path that was accepted cannot do. It goes down from the root once for each of its parts, of
-- which there are at most 8, and never up; it holds no separator of Windows and no character that
-- Windows cannot store.
pub record Contained (r : Text) : Type 0 where
  pub descends : (dirs : List Text) → follow (split b'/' r) dirs ≡ some (onto (split b'/' r) dirs)
  pub shallow : length (split b'/' r) ≤ max_path_depth
  pub no_backslash : any (λ c. c == 0x5c) r ≡ false
  pub storable : any invalid_char r ≡ false

-- Every path that `normalize_path` returns is contained in the directory it is extracted to.
pub normalize_path-Contained :
    (u : Unicode) (raw : Text) {r : Text} → normalize_path u raw ≡ some r → Contained r
normalize_path-Contained u raw {r} h =
    let (same, again) = normalize_path-stable u raw h in
    let checked : checked_path u (strip u.is_space raw) ≡ some r = rw normalize-checked at h in
    let (safe, shallow, slash, chars) = checked_path-parts u (strip u.is_space raw) checked in
    rw same (record {
      descends = λ dirs. follow-safe u (split b'/' (strip u.is_space raw)) dirs safe;
      shallow = shallow;
      no_backslash = slash;
      storable = chars;
    })
