-- ===== src/Validation/Intake.antt =====
-- What `sanitize_files` of src/autoswe/pipeline/validation.py accepts: it is within the limits.
use autonomous_ai_software_e.Prelude.{
  ℕ, suc, ◌+◌, ◌≤◌, ◌≡◌, refl, sym, ◌∙◌, inl, inr, true, false, none, some, List, [], ◌∷◌, ltb, leb,
  length, arith, sum_by, All, Bool-cases, Option-cases, if_cases, ◌==◌, &&-elim,
}
use autonomous_ai_software_e.Validation.Text.{Text, text_eq}
use autonomous_ai_software_e.Validation.Path.{Unicode, normalize_path, path_key}
use autonomous_ai_software_e.Validation.Stable.{normalize_path-stable}
use autonomous_ai_software_e.Validation.Sanitize.{
  Limits, SourceFile, Accepted, get, put, values, Intake, start, report, stop, insert_file,
  place_file, take_file, take_files, sanitize_files,
}

text_eq→eq : (a b : Text) → text_eq a b ≡ true → a ≡ b
unfolding text_eq
text_eq→eq [] [] h = refl
text_eq→eq [] (d ∷ ds) h = cc
text_eq→eq (c ∷ cs) [] h = cc
text_eq→eq (c ∷ cs) (d ∷ ds) h =
    let (p, q) = &&-elim (c == d) (text_eq cs ds) h in
    let same : c ≡ d = ground arith in cc (same, text_eq→eq cs ds q)

abbrev size_of : (Text → ℕ) → Text × SourceFile → ℕ
size_of size (k, f) = size f.content

module _ (size : Text → ℕ) where
  length-put_new :
      (key : Text) (f : SourceFile) (a : Accepted)
      → get key a ≡ none
      → length (put key f a) ≡ suc (length a)
  unfolding get put
  length-put_new key f [] h = refl
  length-put_new key f ((k, g) ∷ rest) h = ground (arith, length-put_new key f rest)

  length-put_old :
      (key : Text) (f : SourceFile) (a : Accepted) {old : SourceFile}
      → get key a ≡ some old
      → length (put key f a) ≡ length a
  unfolding get put
  length-put_old key f [] h = cc
  length-put_old key f ((k, g) ∷ rest) {old} h =
      ground (arith, length-put_old key f rest {old = old})

  sum-put_new :
      (key : Text) (f : SourceFile) (a : Accepted)
      → get key a ≡ none
      → sum_by (size_of size) (put key f a) ≡ sum_by (size_of size) a + size f.content
  unfolding get put
  sum-put_new key f [] h = omega arith
  sum-put_new key f ((k, g) ∷ rest) h = ground (arith, sum-put_new key f rest)

  sum-put_old :
      (key : Text) (f : SourceFile) (a : Accepted) {old : SourceFile}
      → get key a ≡ some old
      → sum_by (size_of size) (put key f a) + size old.content
        ≡ sum_by (size_of size) a + size f.content
  unfolding get put
  sum-put_old key f [] h = cc
  sum-put_old key f ((k, g) ∷ rest) {old} h = ground (arith, sum-put_old key f rest {old = old})

le-sum_get :
    (size : Text → ℕ) (key : Text) (a : Accepted) {old : SourceFile}
    → get key a ≡ some old
    → size old.content ≤ sum_by (size_of size) a
unfolding get
le-sum_get size key [] h = cc
le-sum_get size key ((k, g) ∷ rest) {old} h = ground (arith, le-sum_get size key rest {old = old})

All-put {κ} :
    (P : Text × SourceFile → Type κ) (key : Text) (f : SourceFile) (a : Accepted)
    → P (key, f)
    → All P a
    → All P (put key f a)
unfolding put
All-put P key f [] p h = (p, tt)
All-put P key f ((k, g) ∷ rest) p h = elim (Bool-cases (text_eq k key)) [
  | inl y ↦ rw y (p, h.1)
  | inr n ↦ rw n (h.0, All-put P key f rest p h.1)
]

-- No two entries have one key.
pub NoRepeat : Accepted → Type 0
NoRepeat [] = Unit
NoRepeat ((k, f) ∷ rest) = (get k rest ≡ none) × NoRepeat rest

get-put_other :
    (key k : Text) (f : SourceFile) (a : Accepted)
    → text_eq key k ≡ false
    → get k a ≡ none
    → get k (put key f a) ≡ none
unfolding get put
get-put_other key k f [] n h = ground arith
get-put_other key k f ((j, g) ∷ rest) n h =
    ground (arith, text_eq→eq j key, get-put_other key k f rest n)

text_eq-sym : (a b : Text) → text_eq a b ≡ text_eq b a
unfolding text_eq
text_eq-sym [] [] = refl
text_eq-sym [] (d ∷ ds) = refl
text_eq-sym (c ∷ cs) [] = refl
text_eq-sym (c ∷ cs) (d ∷ ds) = ground (arith, text_eq-sym cs ds)

NoRepeat-put : (key : Text) (f : SourceFile) (a : Accepted) → NoRepeat a → NoRepeat (put key f a)
unfolding NoRepeat put
NoRepeat-put key f [] h = (unfold get in refl, tt)
NoRepeat-put key f ((k, g) ∷ rest) h = elim (Bool-cases (text_eq k key)) [
  | inl y ↦ rw y (rw (← text_eq→eq k key y) h.0, h.1)
  | inr n ↦
      rw n (get-put_other key k f rest (text_eq-sym key k ∙ n) h.0, NoRepeat-put key f rest h.1)
]

module _ (u : Unicode) (size : Text → ℕ) (limits : Limits) where
  -- What is known of an accepted file.
  pub record IsFit (entry : Text × SourceFile) : Type 0 where
    pub keyed : entry.0 ≡ path_key u entry.1.path
    pub safe : normalize_path u entry.1.path ≡ some entry.1.path
    pub small : size entry.1.content ≤ limits.max_file_bytes

  pub record Within (a : Accepted) : Type 0 where
    pub few : length a ≤ limits.max_files
    pub light : sum_by (size_of size) a ≤ limits.max_total_bytes
    pub fit : All IsFit a
    pub apart : NoRepeat a

  -- The loop's invariant; after a `break` the running total is not used again.
  record Holds (s : Intake u size limits) : Type 0 where
    within : Within s.accepted
    counted : s.stopped ≡ false → s.total ≡ sum_by (size_of size) s.accepted
    running : s.stopped ≡ false → s.total ≤ limits.max_total_bytes

  insert-Holds :
      (key path : Text) (file : SourceFile) (s : Intake u size limits)
      → Within s.accepted
      → IsFit (key, record file { path = path })
      → s.stopped ≡ false
      → length (put key (record file { path = path }) s.accepted) ≤ limits.max_files
      → sum_by (size_of size) (put key (record file { path = path }) s.accepted)
        ≡ s.total + size file.content
      → Holds (insert_file u size limits key path file s)
  unfolding insert_file report stop
  insert-Holds key path file s w fit live few sum =
      elim (Bool-cases (ltb limits.max_total_bytes (s.total + size file.content))) [
        | inl y ↦ rw (y, insert_file) (record { within = w; counted = λ e. cc; running = λ e. cc })
        | inr n ↦
            let room : s.total + size file.content ≤ limits.max_total_bytes = ground arith in
            rw (n, insert_file)
              (record {
                within = record {
                  few = few;
                  light = omega (arith, sum, room);
                  fit = All-put IsFit key (record file { path = path }) s.accepted fit w.fit;
                  apart = NoRepeat-put key (record file { path = path }) s.accepted w.apart;
                };
                counted = λ e. sym sum;
                running = λ e. room;
              })
      ]

  replace-Holds :
      (key path : Text) (file old : SourceFile) (s : Intake u size limits)
      → Holds s
      → IsFit (key, record file { path = path })
      → s.stopped ≡ false
      → get key s.accepted ≡ some old
      → Holds (place_file u size limits key path file (some old) s)
  unfolding place_file report
  replace-Holds key path file old s h fit live e =
      insert-Holds key path file _ h.within fit live
        (omega
          (arith, h.within.few, length-put_old size key (record file { path = path }) s.accepted e))
        (omega (
          arith,
          h.counted live,
          le-sum_get size key s.accepted e,
          sum-put_old size key (record file { path = path }) s.accepted e,
        ))

  add-Holds :
      (key path : Text) (file : SourceFile) (s : Intake u size limits)
      → Holds s
      → IsFit (key, record file { path = path })
      → s.stopped ≡ false
      → get key s.accepted ≡ none
      → Holds (place_file u size limits key path file none s)
  unfolding place_file report stop
  add-Holds key path file s h fit live e =
      elim (Bool-cases (leb limits.max_files (length s.accepted))) [
        | inl y ↦
            rw (y, place_file) (record { within = h.within; counted = λ q. cc; running = λ q. cc })
        | inr n ↦
            let fewer : suc (length s.accepted) ≤ limits.max_files = ground arith in
            rw (n, place_file)
              (insert-Holds key path file s h.within fit live
                (omega (
                  arith,
                  fewer,
                  length-put_new size key (record file { path = path }) s.accepted e,
                ))
                (omega (
                  arith,
                  h.counted live,
                  sum-put_new size key (record file { path = path }) s.accepted e,
                )))
      ]

  take_file-Holds :
      (file : SourceFile) (s : Intake u size limits)
      → Holds s
      → s.stopped ≡ false
      → Holds (take_file u size limits file (normalize_path u file.path) s)
  unfolding take_file report
  take_file-Holds file s h live = elim (Option-cases (normalize_path u file.path)) [
    | inl e ↦
        rw (e, take_file) (record { within = h.within; counted = h.counted; running = h.running })
    | inr (path, e) ↦ elim (Bool-cases (ltb limits.max_file_bytes (size file.content))) [
      | inl y ↦
          rw (e, take_file)
            (rw y (record { within = h.within; counted = h.counted; running = h.running }))
      | inr n ↦ rw (e, take_file) (rw n (placed path (fits path e (ground arith))))
    ]
  ]
    where
      fits :
          (path : Text)
          → normalize_path u file.path ≡ some path
          → size file.content ≤ limits.max_file_bytes
          → IsFit (path_key u path, record file { path = path })
      fits path e le = record {
        keyed = refl;
        safe = (normalize_path-stable u file.path e).1;
        small = le;
      }

      placed :
          (path : Text)
          → IsFit (path_key u path, record file { path = path })
          → Holds (
              place_file u size limits
                (path_key u path)
                path
                file
                (get (path_key u path) s.accepted)
                s)
      placed path fit = elim (Option-cases (get (path_key u path) s.accepted)) [
        | inl e ↦ rw e (add-Holds (path_key u path) path file s h fit live e)
        | inr (old, e) ↦ rw e (replace-Holds (path_key u path) path file old s h fit live e)
      ]

  take_files-Holds :
      (files : List SourceFile) (s : Intake u size limits)
      → Holds s
      → Holds (take_files u size limits files s)
  unfolding take_files
  take_files-Holds [] s h = h
  take_files-Holds (f ∷ fs) s h =
      if_cases Holds s.stopped s _ (λ y. h) (λ n. take_files-Holds fs _ (take_file-Holds f s h n))

  -- Whatever files a model or a caller hands in, those that are accepted are at most as many as the
  -- limit says, each and all together within the limits on bytes, on safe normalised paths, and no two
  -- of them fall together on a case-insensitive file system.
  pub sanitize_files-Within :
      (files : List SourceFile)
      → (a : Accepted) × (values a ≡ (sanitize_files u size limits files).0) × Within a
  unfolding sanitize_files
  sanitize_files-Within files = (
    (take_files u size limits files (start u size limits)).accepted,
    refl,
    (take_files-Holds files (start u size limits) begin).within,
  )
    where
      begin : Holds (start u size limits)
      begin = record {
        within = record {
          few = omega arith;
          light = omega arith;
          fit = tt;
          apart = unfold NoRepeat in tt;
        };
        counted = λ e. refl;
        running = λ e. omega arith;
      }
