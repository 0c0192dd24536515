-- ===== src/Relations/Acyclic.antt =====
-- What `normalise` of src/autoswe/pipeline/relations.py keeps has no cycle.
use autonomous_ai_software_e.Prelude.{
  ◌≡◌, refl, sym, ◌∙◌, inl, inr, ◌⊎◌, String, true, false, ◌||◌, some, List, [], ◌∷◌, ◌++◌, arith,
  str_eq, eq_iff, eq_refl, Bool-cases,
}
use autonomous_ai_software_e.Orchestrator.Pipeline.{lookup, set_key}
use autonomous_ai_software_e.Relations.{Kept, parents_in, parents_of, is_in}
use autonomous_ai_software_e.Relations.Reaches.{Walk, stop, step, Edge}

-- An edge that is followed back to where it starts.
abbrev pub Loop : (String → String → Type 0) → Type 0
Loop R = (a : String) × (b : String) × R a b × Walk R b a

-- A relation with one more edge.
pub data Added (R : String → String → Type 0) (n p : String) : String → String → Type 0 where
  old : {a b : String} → R a b → Added R n p a b
  new : Added R n p n p

module _ (R : String → String → Type 0) where
  walk_on : {a b c : String} → Walk R a b → Walk R b c → Walk R a c
  walk_on stop w = w
  walk_on (step r v) w = step r (walk_on v w)

  Walk-map :
      (S : String → String → Type 0) {a b : String}
      → ((x y : String) → R x y → S x y)
      → Walk R a b
      → Walk S a b
  Walk-map S f stop = stop
  Walk-map S f (step r w) = step (f _ _ r) (Walk-map S f w)

  module _ (n p : String) (apart : Walk R p n → ⊥) where
    -- A way with the new edge goes to the child without it, and on from the parent without it.
    Added-Walk : {a b : String} → Walk (Added R n p) a b → Walk R a b ⊎ (Walk R a n × Walk R p b)
    Added-Walk stop = inl stop
    Added-Walk (step (old r) w) = elim (Added-Walk w) [
      | inl v ↦ inl (step r v)
      | inr (v, u) ↦ inr (step r v, u)
    ]
    Added-Walk (step new w) = elim (Added-Walk w) [
      | inl v ↦ inr (stop, v)
      | inr (v, u) ↦ inr (stop, u)
    ]

    pub Added-Loop : (Loop R → ⊥) → Loop (Added R n p) → ⊥
    Added-Loop none_before (a, b, old r, w) = elim (Added-Walk w) [
      | inl v ↦ none_before (a, b, r, v)
      | inr (v, u) ↦ apart (walk_on u (step r v))
    ]
    Added-Loop none_before (a, b, new, w) = elim (Added-Walk w) [
      | inl v ↦ apart v
      | inr (v, u) ↦ apart v
    ]

pub Loop-map : {R S : String → String → Type 0} → ((x y : String) → R x y → S x y) → Loop R → Loop S
Loop-map {R} {S} f (a, b, r, w) = (a, b, f a b r, Walk-map R S f w)

lookup-set_key_self : (k : String) (v : List String) (d : Kept) → lookup k (set_key k v d) ≡ some v
unfolding lookup set_key
lookup-set_key_self k v [] = rw (eq_refl k) refl
lookup-set_key_self k v ((q, u) ∷ rest) = elim (Bool-cases (str_eq q k)) [
  | inl y ↦ rw (y, lookup) (rw (eq_refl k) refl)
  | inr n ↦ rw (n, lookup) (rw n (lookup-set_key_self k v rest))
]

lookup-set_key_other :
    (k j : String) (v : List String) (d : Kept)
    → str_eq k j ≡ false
    → lookup j (set_key k v d) ≡ lookup j d
unfolding lookup set_key
lookup-set_key_other k j v [] h = rw h refl
lookup-set_key_other k j v ((q, u) ∷ rest) h =
    ground (arith, lookup-set_key_other k j v rest h, eq_iff q k, h)

is_in-append : (xs ys : List String) (x : String) → is_in (xs ++ ys) x ≡ (is_in xs x || is_in ys x)
is_in-append [] ys x = refl
is_in-append (y ∷ xs) ys x = ground (arith, is_in-append xs ys x)

pub parents-set_key_self :
    (n : String) (v : List String) (k : Kept) → parents_of n (set_key n v k) ≡ v
unfolding parents_of parents_in
parents-set_key_self n v k = rw (lookup-set_key_self n v k) refl

pub parents-set_key_other :
    (n a : String) (v : List String) (k : Kept)
    → str_eq n a ≡ false
    → parents_of a (set_key n v k) ≡ parents_of a k
unfolding parents_of
parents-set_key_other n a v k h = rw (lookup-set_key_other n a v k h) refl

-- One more parent is one more edge.
pub set_key-Added :
    (n p : String) (parents : List String) (kept : Kept)
    → parents_of n kept ≡ parents
    → (a b : String) → Edge (set_key n (parents ++ p ∷ []) kept) a b
    → Added (Edge kept) n p a b
set_key-Added n p parents kept same a b e = elim (Bool-cases (str_eq n a)) [
  | inr m ↦ old (rw (← parents-set_key_other n a (parents ++ p ∷ []) kept m) e)
  | inl y ↦ rw (← (eq_iff n a).0 y) (at_child (rw (← (eq_iff n a).0 y) at e))
]
  where
    at_child : Edge (set_key n (parents ++ p ∷ []) kept) n b → Added (Edge kept) n p n b
    at_child f =
        let either : (is_in parents b || is_in (p ∷ []) b) ≡ true =
          sym (is_in-append parents (p ∷ []) b)
          ∙ rw (parents-set_key_self n (parents ++ p ∷ []) kept) at f in
        elim (Bool-cases (is_in parents b)) [
          | inl i ↦ old (rw same i)
          | inr i ↦ let hit : str_eq p b ≡ true = ground arith in rw (← (eq_iff p b).0 hit) new
        ]
