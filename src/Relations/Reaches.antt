-- ===== src/Relations/Reaches.antt =====
-- The search `reaches` of src/autoswe/pipeline/relations.py finds every way to its goal.
use autonomous_ai_software_e.Prelude.{
  ℕ, zero, suc, ◌+◌, ◌≤◌, ◌<◌, ◌≡◌, refl, inl, inr, String, true, false, ◌||◌, List, [], ◌∷◌, arith,
  str_eq, eq_iff, eq_refl, length, Bool-cases,
}
use autonomous_ai_software_e.Orchestrator.Pipeline.{lookup}
use autonomous_ai_software_e.Relations.{
  Kept, parents_in, parents_of, push, is_in, reaches, weight, turns,
}

-- A way along the edges of a relation.
pub data Walk (R : String → String → Type 0) : String → String → Type 0 where
  stop : {a : String} → Walk R a a
  step : {a b c : String} → R a b → Walk R b c → Walk R a c

-- An edge from a child to a parent that is kept.
abbrev pub Edge : Kept → String → String → Type 0
Edge kept a b = is_in (parents_of a kept) b ≡ true

is_in-push :
    (names stack : List String) (x : String)
    → is_in (push names stack) x ≡ (is_in names x || is_in stack x)
unfolding push
is_in-push [] stack x = refl
is_in-push (name ∷ names) stack x = ground (arith, is_in-push names (name ∷ stack) x)

length-push : (names stack : List String) → length (push names stack) ≡ length names + length stack
unfolding push
length-push [] stack = omega arith
length-push (name ∷ names) stack = omega (arith, length-push names (name ∷ stack))

weight_mono :
    (name : String) (seen : List String) (kept : Kept)
    → weight (name ∷ seen) kept ≤ weight seen kept
unfolding weight
weight_mono name seen [] = omega arith
weight_mono name seen ((k, parents) ∷ rest) = ground (arith, weight_mono name seen rest)

-- A name that is seen now gives up what its parents weigh.
weight-seen :
    (name : String) (seen : List String) (kept : Kept)
    → is_in seen name ≡ false
    → length (parents_of name kept) + weight (name ∷ seen) kept ≤ weight seen kept
unfolding weight parents_of lookup parents_in
weight-seen name seen [] h = omega arith
weight-seen name seen ((k, parents) ∷ rest) h = elim (Bool-cases (str_eq k name)) [
  | inl y ↦
      let same = (eq_iff k name).0 y in
      rw (y, parents_in) (rw (same, h, eq_refl name) (omega (arith, weight_mono name seen rest)))
  | inr n ↦ ground (arith, weight-seen name seen rest h, eq_iff k name, eq_iff name k)
]

module _ (kept : Kept) (goal : String) where
  -- What the search has left to do: the goal is not among the names that it has seen, and their parents
  -- are seen or wait.
  record Open (stack seen : List String) : Type 0 where
    missed : is_in seen goal ≡ false
    closed :
        (a b : String)
        → is_in seen a ≡ true
        → Edge kept a b
        → (is_in seen b || is_in stack b) ≡ true

  ends_seen :
      {seen : List String}
      → Open [] seen
      → {x : String} → Walk (Edge kept) x goal
      → is_in seen x ≡ true
      → ⊥
  ends_seen o stop h = cc (o.missed, h)
  ends_seen o {x} (step {b = b} e w) h = let next = o.closed x b h e in ends_seen o w (ground arith)

  pop_seen :
      (name : String) (stack seen : List String)
      → is_in seen name ≡ true
      → Open (name ∷ stack) seen
      → Open stack seen
  pop_seen name stack seen s o = record {
    missed = o.missed;
    closed = λ a b h e. ground (arith, o.closed a b h e, eq_iff name b);
  }

  expand :
      (name : String) (stack seen : List String)
      → str_eq name goal ≡ false
      → Open (name ∷ stack) seen
      → Open (push (parents_of name kept) stack) (name ∷ seen)
  expand name stack seen other o = record {
    missed = ground (arith, o.missed);
    closed = λ a b h e. elim (Bool-cases (str_eq name a)) [
      | inl y ↦
          let same : Edge kept name b = rw ((eq_iff name a).0 y) e in
          rw (is_in-push (parents_of name kept) stack b) (ground (arith, same))
      | inr n ↦
          let before = o.closed a b (rw n at h) e in
          rw (is_in-push (parents_of name kept) stack b) (ground (arith, before))
    ];
  }

  -- With enough turns, a search that fails has left no way from what it has seen or what waits.
  reaches-Walk :
      (fuel : ℕ) (stack seen : List String)
      → length stack + weight seen kept < fuel
      → Open stack seen
      → reaches fuel goal stack seen kept ≡ false
      → (x : String) → (is_in seen x || is_in stack x) ≡ true
      → Walk (Edge kept) x goal
      → ⊥
  unfolding reaches
  reaches-Walk zero stack seen enough o h x there w = omega arith
  reaches-Walk (suc fuel) [] seen enough o h x there w = ends_seen o w (ground (arith, there))
  reaches-Walk (suc fuel) (name ∷ stack) seen enough o h x there w =
      elim (Bool-cases (str_eq name goal)) [
        | inl y ↦ cc (rw (y, reaches) at h)
        | inr n ↦ elim (Bool-cases (is_in seen name)) [
          | inl s ↦
              reaches-Walk fuel stack seen (omega arith) (pop_seen name stack seen s o)
                (rw (n, s, reaches) at h) x (ground (arith, there, eq_iff name x)) w
          | inr s ↦
              reaches-Walk fuel (push (parents_of name kept) stack) (name ∷ seen)
                (omega
                  (arith, length-push (parents_of name kept) stack, weight-seen name seen kept s))
                (expand name stack seen n o) (rw (n, s, reaches) at h) x
                (rw (is_in-push (parents_of name kept) stack x) (ground (arith, there))) w
        ]
      ]

  -- A search that fails has found out that there is no way.
  pub not_reaches-Walk :
      (start : String)
      → reaches (turns kept) goal (start ∷ []) [] kept ≡ false
      → Walk (Edge kept) start goal
      → ⊥
  not_reaches-Walk start h w =
      reaches-Walk (turns kept) (start ∷ []) [] (omega arith)
        (record { missed = refl; closed = λ a b h e. cc }) h start (rw (eq_refl start) refl) w
