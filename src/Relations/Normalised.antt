-- ===== src/Relations/Normalised.antt =====
-- The result of `normalise` of src/autoswe/pipeline/relations.py.
use autonomous_ai_software_e.Prelude.{
  ◌≡◌, refl, sym, ap, ◌∙◌, inl, inr, ◌⊎◌, String, Bool, true, false, not, ◌&&◌, List, [], ◌∷◌, ◌++◌,
  map, arith, str_eq, eq_iff, eq_refl, if◌then◌else◌, All, All-append, Bool-cases, Option-cases,
  &&-elim,
}
use autonomous_ai_software_e.Orchestrator.Pipeline.{lookup, set_key}
use autonomous_ai_software_e.Relations.{
  Entity, Kept, parents_in, parents_of, is_in, reaches, turns, usable, add_parents, set_default,
  normalise_from, normalise,
}
use autonomous_ai_software_e.Relations.Reaches.{Edge, not_reaches-Walk}
use autonomous_ai_software_e.Relations.Acyclic.{
  Loop, Loop-map, Added-Loop, set_key-Added, parents-set_key_self, parents-set_key_other,
}

-- An entity of the list belongs to a parent.
abbrev pub Owns : List Entity → String → String → Type 0
Owns [] a b = ⊥
Owns (e ∷ es) a b = ((e.name ≡ a) × (is_in e.belongs_to b ≡ true)) ⊎ Owns es a b

abbrev pub names : List Entity → List String
names es = map (λ e. e.name) es

abbrev pub Unlike : List Entity → Type 0
Unlike [] = Unit
Unlike (e ∷ es) = (is_in (names es) e.name ≡ false) × Unlike es

abbrev Known : List String → List String → Type 0
Known known = All (λ p. is_in known p ≡ true)

-- What is kept when an entity's parents have been looked at.
record Looked (known : List String) (name : String) (kept : Kept) (done : List String × Kept)
    : Type 0 where
  no_loop : Loop (Edge done.1) → ⊥
  own : parents_of name done.1 ≡ done.0
  others : (a : String) → str_eq name a ≡ false → parents_of a done.1 ≡ parents_of a kept
  all_known : Known known done.0

takes : List String → String → List String → Kept → String → Bool
takes known name parents kept parent =
    usable known name parents parent && not (reaches (turns kept) name (parent ∷ []) [] kept)

taken-known :
    (known : List String) (name : String) (parents : List String) (kept : Kept) (parent : String)
    → takes known name parents kept parent ≡ true
    → (is_in known parent ≡ true) × (reaches (turns kept) name (parent ∷ []) [] kept ≡ false)
unfolding takes usable
taken-known known name parents kept parent h =
    let (u, r) =
      &&-elim (usable known name parents parent)
        (not (reaches (turns kept) name (parent ∷ []) [] kept)) h in
    let (i, rest) =
      &&-elim (is_in known parent && not (str_eq parent name)) (not (is_in parents parent)) u in
    ((&&-elim (is_in known parent) (not (str_eq parent name)) i).0, ground arith)

add_parents-Looked :
    (known : List String) (name : String) (rest parents : List String) (kept : Kept)
    → parents_of name kept ≡ parents
    → Known known parents
    → (Loop (Edge kept) → ⊥)
    → Looked known name kept (add_parents known name rest parents kept)
unfolding add_parents takes
add_parents-Looked known name [] parents kept same all no_loop = record {
  no_loop = no_loop;
  own = same;
  others = λ a h. refl;
  all_known = all;
}
add_parents-Looked known name (parent ∷ rest) parents kept same all no_loop =
    elim (Bool-cases (takes known name parents kept parent)) [
      | inr n ↦
          rw (n, add_parents) (add_parents-Looked known name rest parents kept same all no_loop)
      | inl y ↦
          let (is_known, apart) = taken-known known name parents kept parent y in
          let more = parents ++ parent ∷ [] in
          let next =
            add_parents-Looked known name rest more (set_key name more kept)
              (parents-set_key_self name more kept)
              (All-append (λ p. is_in known p ≡ true) parents (parent ∷ []) all (is_known, tt))
              (λ l.
                Added-Loop (Edge kept) name parent (not_reaches-Walk kept name parent apart) no_loop
                  (Loop-map (set_key-Added name parent parents kept same) l)) in
          rw (y, add_parents)
            (record {
              no_loop = next.no_loop;
              own = next.own;
              others = λ a h. next.others a h ∙ parents-set_key_other name a more kept h;
              all_known = next.all_known;
            })
    ]

-- An entry of no parents changes nobody's parents.
parents-set_default :
    (name : String) (parents : List String) (kept : Kept)
    → parents_of name kept ≡ parents
    → (a : String) → parents_of a (set_default name parents kept) ≡ parents_of a kept
unfolding set_default parents_of parents_in
parents-set_default name parents kept same a = elim (Option-cases (lookup name kept)) [
  | inr (v, e) ↦ rw (e, set_default) refl
  | inl e ↦
      rw (e, set_default)
        (elim (Bool-cases (str_eq name a)) [
          | inr n ↦ parents-set_key_other name a parents kept n
          | inl y ↦ rw (← (eq_iff name a).0 y) (parents-set_key_self name parents kept ∙ sym same)
        ])
]

either : (b : Bool) → (if b then true else true) ≡ true
either true = refl
either false = refl

other_name :
    (n a : String) (ns : List String) → is_in ns n ≡ false → is_in ns a ≡ true → str_eq n a ≡ false
other_name n a ns h k = elim (Bool-cases (str_eq n a)) [
  | inr m ↦ m
  | inl y ↦ cc (h, k, ap (is_in ns) ((eq_iff n a).0 y))
]

record KeptAll (known : List String) (es : List Entity) (kept : Kept) (result : List Entity)
    : Type 0 where
  final : Kept
  no_loop : Loop (Edge final) → ⊥
  owned : (a b : String) → Owns result a b → Edge final a b
  others : (a : String) → is_in (names es) a ≡ false → parents_of a final ≡ parents_of a kept
  all_known : All (λ e. Known known e.belongs_to) result

normalise_from-KeptAll :
    (known : List String) (es : List Entity) (kept : Kept)
    → Unlike es
    → ((a : String) → is_in (names es) a ≡ true → parents_of a kept ≡ [])
    → (Loop (Edge kept) → ⊥)
    → KeptAll known es kept (normalise_from known es kept)
unfolding normalise_from
normalise_from-KeptAll known [] kept unlike fresh no_loop = record {
  final = kept;
  no_loop = no_loop;
  owned = λ a b o. absurd o;
  others = λ a h. refl;
  all_known = tt;
}
normalise_from-KeptAll known (e ∷ es) kept unlike fresh no_loop =
    let done = add_parents known e.name e.belongs_to [] kept in
    let after = set_default e.name done.0 done.1 in
    let looked =
      add_parents-Looked known e.name e.belongs_to [] kept (fresh e.name (rw (eq_refl e.name) refl))
        tt no_loop in
    let same = parents-set_default e.name done.0 done.1 looked.own in
    let rest =
      normalise_from-KeptAll known es after unlike.1
        (λ a h.
          same a
          ∙ looked.others a (other_name e.name a (names es) unlike.0 h)
          ∙ fresh a (rw h (either (str_eq e.name a))))
        (λ l. looked.no_loop (Loop-map (λ x y r. rw (← same x) r) l)) in
    record {
      final = rest.final;
      no_loop = rest.no_loop;
      owned = λ a b o. elim o [
        | inr later ↦ rest.owned a b later
        | inl (n, i) ↦ rw (← n) (rw (rest.others e.name unlike.0 ∙ same e.name ∙ looked.own) i)
      ];
      others = λ a h. rest.others a (ground arith) ∙ same a ∙ looked.others a (ground arith);
      all_known = (looked.all_known, rest.all_known);
    }

-- When no two entities have one name, the relations that are kept have no cycle, not even of an entity
-- with itself, and every parent that is kept is the name of an entity.
pub normalise-Acyclic :
    (es : List Entity)
    → Unlike es
    → (¬ Loop (Owns (normalise es)))
      × All (λ e. All (λ p. is_in (names es) p ≡ true) e.belongs_to) (normalise es)
unfolding normalise parents_of parents_in lookup
normalise-Acyclic es unlike =
    let kept =
      normalise_from-KeptAll (names es) es [] unlike (λ a h. refl) (λ l. no_edge l.0 l.1 l.2) in
    (λ l. kept.no_loop (Loop-map kept.owned l), kept.all_known)
  where
    no_edge : (a b : String) → Edge [] a b → ⊥
    no_edge a b e = cc
