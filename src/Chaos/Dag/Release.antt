-- ===== src/Chaos/Dag/Release.antt =====
-- The inner loop of Kahn's algorithm in `validate_dag` of tools/chaos_lab/model.py: what lowering
-- the counters of a task's children keeps.
use helix_grid.Prelude.{
  ℕ, suc, ◌+◌, ◌-◌, ◌≤◌, ◌≡◌, ◌≢◌, refl, sym, ◌∙◌, String, text_eq, text_eq_iff, text_le, mem_text,
  true, false, List, [], ◌∷◌, ◌++◌, Option, none, some, if◌then◌else◌, arith, inl, inr, Bool-cases,
  All, All-append,
}
use helix_grid.Prelude.Dict.{Dict, lookup, lookup-update_ne}
use helix_grid.Prelude.Sorting.{sort, sort-All}
use helix_grid.Chaos.Types.{Task}
use helix_grid.Chaos.Dag.{task_ids, release, release_all, has_come_to_zero}
use helix_grid.Chaos.Dag.Members.{IsDistinct, IsDistinct-append, sort-IsDistinct, mem_text-All}

-- How many of the ids are not done
abbrev pub missing : List String → List String → ℕ
missing done [] = 0
missing done (d ∷ ds) = if mem_text d done then missing done ds else suc (missing done ds)

-- 1 for an id that waits to be lowered
abbrev pub pending : String → List String → ℕ
pending id cs = if mem_text id cs then 1 else 0

abbrev pub IsZero : Dict ℕ → String → Type 0
IsZero degrees id = lookup id degrees ≡ some 0

-- The counters count at least the dependencies that are not done, and one more for a task whose
-- counter is still to be lowered; what is ready or done has come to 0, and is listed once.
pub record IsCounted (tasks : List Task) (done cs : List String) (degrees : Dict ℕ)
    (ready : List String) : Type 0 where
  pub bounded :
      All
        (λ t.
          (n : ℕ) → lookup t.id degrees ≡ some n → missing done t.depends_on + pending t.id cs ≤ n)
        tasks
  pub ready_zero : All (IsZero degrees) ready
  pub done_zero : All (IsZero degrees) done
  pub ready_new : All (λ id. mem_text id done ≡ false) ready
  pub ready_known : All (λ id. mem_text id (task_ids tasks) ≡ true) ready
  pub distinct : IsDistinct ready

-- A known id is that of a task, with what all tasks satisfy.
pub task_of :
    (P : Task → Type 0) (id : String) (ts : List Task)
    → All P ts
    → mem_text id (task_ids ts) ≡ true
    → (t : Task) × (t.id ≡ id) × P t
unfolding task_ids
task_of P id [] h there = absurd (ground (arith, there))
task_of P id (t ∷ ts) h there = elim (Bool-cases (text_eq id t.id)) [
  | inl same ↦ (t, sym ((text_eq_iff id t.id).0 same), h.0)
  | inr other ↦ task_of P id ts h.1 (ground (arith, other, there))
]

-- An id that waits has not come to 0.
pending-nonzero :
    {tasks : List Task} {done cs ready : List String} {degrees : Dict ℕ}
    → IsCounted tasks done cs degrees ready
    → (c : String) → mem_text c cs ≡ true
    → mem_text c (task_ids tasks) ≡ true
    → lookup c degrees ≢ some 0
pending-nonzero {tasks} {done} {cs} {ready} {degrees} k c waits known at_zero =
    let (t, same, bound) =
      task_of
        (λ t.
          (n : ℕ) → lookup t.id degrees ≡ some n → missing done t.depends_on + pending t.id cs ≤ n)
        c tasks k.bounded known in
    let room = bound 0 (rw same at_zero) in ground (arith, room, waits, same)

-- What has come to 0 is not `c`, which has not.
apart :
    (degrees : Dict ℕ) (c : String) (xs : List String)
    → lookup c degrees ≢ some 0
    → All (IsZero degrees) xs
    → All (λ x. text_eq c x ≡ false) xs
apart degrees c [] nonzero h = tt
apart degrees c (x ∷ xs) nonzero h =
    (ground (arith, nonzero, h.0, text_eq_iff c x), apart degrees c xs nonzero h.1)

-- What a counter was before the one of `c` was lowered
lookup-release :
    (c j : String) (degrees : Dict ℕ) (n : ℕ)
    → lookup j (release c degrees) ≡ some n
    → (k : ℕ) × (lookup j degrees ≡ some k) × (n ≡ (if text_eq c j then k - 1 else k))
unfolding release
lookup-release c j [] n h = absurd (ground (arith, h))
lookup-release c j ((i, w) ∷ degrees) n h = elim (Bool-cases (text_eq i c)) [
  | inl at_c ↦ elim (Bool-cases (text_eq i j)) [
    | inl at_j ↦ (
      w,
      rw at_j refl,
      ground (arith, h, at_c, at_j, text_eq_iff i c, text_eq_iff i j, text_eq_iff c j),
    )
    | inr other ↦ (
      n,
      ground (arith, h, at_c, other),
      ground (arith, at_c, other, text_eq_iff i c, text_eq_iff i j, text_eq_iff c j),
    )
  ]
  | inr not_c ↦ elim (Bool-cases (text_eq i j)) [
    | inl at_j ↦ (
      w,
      rw at_j refl,
      ground (arith, h, not_c, at_j, text_eq_iff i c, text_eq_iff i j, text_eq_iff c j),
    )
    | inr other ↦
        (let (k, before, eq) = lookup-release c j degrees n (ground (arith, h, not_c, other)) in
          (k, rw other before, eq))
  ]
]

release-IsZero :
    (c : String) (degrees : Dict ℕ) (xs : List String)
    → All (λ x. text_eq c x ≡ false) xs
    → All (IsZero degrees) xs
    → All (IsZero (release c degrees)) xs
unfolding release
release-IsZero c degrees [] h k = tt
release-IsZero c degrees (x ∷ xs) h k =
    (lookup-update_ne c x (λ n. n - 1) degrees h.0 ∙ k.0, release-IsZero c degrees xs h.1 k.1)

release-bounded :
    (c : String) (cs done : List String) (degrees : Dict ℕ) (ts : List Task)
    → mem_text c cs ≡ false
    → All
        (λ t.
          (n : ℕ)
          → lookup t.id degrees ≡ some n
          → missing done t.depends_on + pending t.id (c ∷ cs) ≤ n)
        ts
    → All
        (λ t.
          (n : ℕ)
          → lookup t.id (release c degrees) ≡ some n
          → missing done t.depends_on + pending t.id cs ≤ n)
        ts
release-bounded c cs done degrees [] once h = tt
release-bounded c cs done degrees (t ∷ ts) once h = (
  (λ n found.
      let (k, before, lower) = lookup-release c t.id degrees n found in
      let room = h.0 k before in
      ground (arith, room, lower, once, text_eq_iff c t.id, text_eq_iff t.id c)),
  release-bounded c cs done degrees ts once h.1,
)

abbrev pub next_ready : String → Dict ℕ → List String → List String
next_ready c left ready =
    if has_come_to_zero (lookup c left) then sort text_le (ready ++ c ∷ []) else ready

come_to_zero : (o : Option ℕ) → has_come_to_zero o ≡ true → o ≡ some 0
come_to_zero none h = absurd (ground (arith, h))
come_to_zero (some n) h = ground (arith, h)

-- One child is lowered, and listed if it has come to 0.
release-IsCounted :
    {tasks : List Task} {done ready : List String} {degrees : Dict ℕ} (c : String)
    (cs : List String)
    → IsCounted tasks done (c ∷ cs) degrees ready
    → mem_text c cs ≡ false
    → mem_text c (task_ids tasks) ≡ true
    → IsCounted tasks done cs (release c degrees) (next_ready c (release c degrees) ready)
release-IsCounted {tasks} {done} {ready} {degrees} c cs k once known =
    let nonzero = pending-nonzero k c (ground (arith, text_eq_iff c c)) known in
    let off_ready = apart degrees c ready nonzero k.ready_zero in
    let off_done = apart degrees c done nonzero k.done_zero in
    let bounded = release-bounded c cs done degrees tasks once k.bounded in
    let ready_zero = release-IsZero c degrees ready off_ready k.ready_zero in
    let done_zero = release-IsZero c degrees done off_done k.done_zero in
    elim (Bool-cases (has_come_to_zero (lookup c (release c degrees)))) [
      | inl reached ↦ rw reached (record {
        bounded = bounded;
        done_zero = done_zero;
        ready_zero =
            sort-All text_le _ (ready ++ c ∷ [])
              (All-append _ ready (c ∷ []) ready_zero (come_to_zero _ reached, tt));
        ready_new =
            sort-All text_le _ (ready ++ c ∷ [])
              (All-append _ ready (c ∷ []) k.ready_new (mem_text-All c done off_done, tt));
        ready_known =
            sort-All text_le _ (ready ++ c ∷ [])
              (All-append _ ready (c ∷ []) k.ready_known (known, tt));
        distinct =
            sort-IsDistinct (ready ++ c ∷ [])
              (IsDistinct-append ready c k.distinct (mem_text-All c ready off_ready));
      })
      | inr above ↦ rw above (record {
        bounded = bounded;
        done_zero = done_zero;
        ready_zero = ready_zero;
        ready_new = k.ready_new;
        ready_known = k.ready_known;
        distinct = k.distinct;
      })
    ]

-- All children are lowered.
pub release_all-IsCounted :
    {tasks : List Task} {done : List String} (cs : List String) (degrees : Dict ℕ)
    (ready : List String)
    → IsCounted tasks done cs degrees ready
    → IsDistinct cs
    → All (λ c. mem_text c (task_ids tasks) ≡ true) cs
    → IsCounted tasks done [] (release_all cs degrees ready).0 (release_all cs degrees ready).1
unfolding release_all
release_all-IsCounted [] degrees ready k distinct known = k
release_all-IsCounted (c ∷ cs) degrees ready k distinct known =
    release_all-IsCounted cs (release c degrees) (next_ready c (release c degrees) ready)
      (release-IsCounted c cs k distinct.0 known.0) distinct.1 known.1
