-- ===== src/Index/Plan/Reference.antt =====
-- The plan of src/zglab_rag/indexing/planner.py, described list by list.
use zglab_rag.Prelude.{
  ◌≡◌, refl, sym, ap, ◌∙◌, inl, inr, Bool, true, false, ◌||◌, Bool-cases, Option, none, some, List,
  [], ◌∷◌, map, Text, beq_comm, text_eq, if◌then◌else◌, contains, keep, arith,
}
use zglab_rag.Prelude.Dict.{Dict, lookup}
use zglab_rag.Index.Plan.{
  KnowledgeChunk, EmbeddingProfile, PlannedChunk, StoredChunkState, IndexPlan, Change, is_new,
  is_changed, is_unchanged, added, add, by_chunk_id, planned, classify, gone, plan_from,
  build_index_plan,
}

abbrev pub ids : List KnowledgeChunk → List Text
ids chunks = map (λ c. c.chunk_id) chunks

abbrev pub has_duplicates : List Text → Bool
has_duplicates [] = false
has_duplicates (x ∷ xs) = contains x xs || has_duplicates xs

abbrev pub same_change : Change → Change → Bool
same_change is_new is_new = true
same_change is_changed is_changed = true
same_change is_unchanged is_unchanged = true
same_change a b = false

module _ (sha256 : Text → Text) (profile : EmbeddingProfile) (force_rebuild : Bool) where
  abbrev pub goes_to : Dict Text StoredChunkState → Change → KnowledgeChunk → Bool
  goes_to stored change c = same_change change (
      classify sha256 profile force_rebuild (planned sha256 profile force_rebuild c)
        (lookup c.chunk_id stored))

  -- Each list as a selection of the chunks, or of the stored states.
  abbrev pub selected : Dict Text StoredChunkState → List Text → List KnowledgeChunk → IndexPlan
  selected stored current chunks = record {
    new = map (planned sha256 profile force_rebuild) (keep (goes_to stored is_new) chunks);
    changed = map (planned sha256 profile force_rebuild) (keep (goes_to stored is_changed) chunks);
    unchanged =
        map (planned sha256 profile force_rebuild) (keep (goes_to stored is_unchanged) chunks);
    deleted = gone stored current;
  }

-- The ids that the loop has in `current` at its end.
abbrev pub onto : List Text → List Text → List Text
onto [] current = current
onto (x ∷ xs) current = onto xs (x ∷ current)

abbrev pub clash : List Text → List Text → Bool
clash current [] = false
clash current (x ∷ xs) = contains x current || clash (x ∷ current) xs

contains-onto :
    (k : Text) (xs current : List Text)
    → contains k (onto xs current) ≡ contains k xs || contains k current
contains-onto k [] current = refl
contains-onto k (x ∷ xs) current = ground (arith, contains-onto k xs (x ∷ current))

clash_cons :
    (x : Text) (current xs : List Text) → clash (x ∷ current) xs ≡ contains x xs || clash current xs
clash_cons x current [] = refl
clash_cons x current (y ∷ ys) = ground (
  arith,
  beq_comm x y,
  clash_cons y (x ∷ current) ys,
  clash_cons x current ys,
  clash_cons y current ys,
)

clash-nil : (xs : List Text) → clash [] xs ≡ has_duplicates xs
clash-nil [] = refl
clash-nil (x ∷ xs) = ground (arith, clash_cons x [] xs, clash-nil xs)

added_if :
    (p q : Bool) (change : Change) (item : PlannedChunk) (rest : Option IndexPlan)
    (plan : IndexPlan)
    → rest ≡ (if q then none else some plan)
    → (if p then none else added change item rest)
      ≡ (if p || q then none else some (add change item plan))
added_if true q change item rest plan h = refl
added_if false true change item rest plan h = ap (added change item) h
added_if false false change item rest plan h = ap (added change item) h

keep_same :
    (stored : Dict Text StoredChunkState) (xs ys : List Text)
    → ((k : Text) → contains k xs ≡ contains k ys)
    → gone stored xs ≡ gone stored ys
keep_same [] xs ys h = refl
keep_same (e ∷ es) xs ys h = elim (Bool-cases (contains e.0 xs)) [
  | inl t ↦ rw (sym (h e.0), t) (keep_same es xs ys h)
  | inr t ↦ rw (sym (h e.0), t) (ap (λ l. e.1 ∷ l) (keep_same es xs ys h))
]

module _ (f : KnowledgeChunk → PlannedChunk) (c : KnowledgeChunk) (n m u : List KnowledgeChunk)
    (d : List StoredChunkState) where
  selected_cons :
      (change : Change)
      → add change
          (f c)
          (record { new = map f n; changed = map f m; unchanged = map f u; deleted = d })
        ≡ record {
          new = map f (if same_change is_new change then c ∷ n else n);
          changed = map f (if same_change is_changed change then c ∷ m else m);
          unchanged = map f (if same_change is_unchanged change then c ∷ u else u);
          deleted = d;
        }
  selected_cons is_new = refl
  selected_cons is_changed = refl
  selected_cons is_unchanged = refl

module _ (sha256 : Text → Text) (profile : EmbeddingProfile) (force_rebuild : Bool) where
  plan_from_lem :
      (stored : Dict Text StoredChunkState) (current : List Text) (chunks : List KnowledgeChunk)
      → plan_from sha256 profile force_rebuild stored current chunks ≡ (
          if clash current (ids chunks)
          then none
          else some
              (selected sha256 profile force_rebuild stored (onto (ids chunks) current) chunks))
  unfolding plan_from
  plan_from_lem stored current [] = refl
  plan_from_lem stored current (c ∷ cs) =
      let item = planned sha256 profile force_rebuild c in
      let change = classify sha256 profile force_rebuild item (lookup c.chunk_id stored) in
      let pick : Change → List KnowledgeChunk =
        λ k. keep (goes_to sha256 profile force_rebuild stored k) cs in
      let left = gone stored (onto (ids cs) (c.chunk_id ∷ current)) in
      added_if (contains c.chunk_id current) (clash (c.chunk_id ∷ current) (ids cs)) change item
        (plan_from sha256 profile force_rebuild stored (c.chunk_id ∷ current) cs)
        (selected sha256 profile force_rebuild stored (onto (ids cs) (c.chunk_id ∷ current)) cs)
        (plan_from_lem stored (c.chunk_id ∷ current) cs)
      ∙ ap
          (λ p.
            if contains c.chunk_id current || clash (c.chunk_id ∷ current) (ids cs)
            then none
            else some p)
          (selected_cons (planned sha256 profile force_rebuild) c (pick is_new) (pick is_changed)
            (pick is_unchanged) left change)

  -- The plan is an error exactly when two chunks have one id. Otherwise `new`, `changed` and `unchanged` are
  -- the planned chunks of that class, in the order of the chunks, so each chunk is in exactly one of them,
  -- and `deleted` are the stored states whose chunk is not among them.
  pub build_index_plan-selected :
      (chunks : List KnowledgeChunk) (states : List StoredChunkState)
      → build_index_plan sha256 profile force_rebuild chunks states ≡ (
          if has_duplicates (ids chunks)
          then none
          else some
              (selected sha256 profile force_rebuild (by_chunk_id states) (ids chunks) chunks))
  unfolding build_index_plan
  build_index_plan-selected chunks states =
      plan_from_lem (by_chunk_id states) [] chunks
      ∙ ap
          (λ b.
            if b
            then none
            else some (
                selected sha256 profile force_rebuild (by_chunk_id states) (onto (ids chunks) [])
                  chunks))
          (clash-nil (ids chunks))
      ∙ ap
          (λ d.
            if has_duplicates (ids chunks)
            then none
            else some
                (record (selected sha256 profile force_rebuild (by_chunk_id states) (ids chunks)
                  chunks) { deleted = d }))
          (keep_same (by_chunk_id states) (onto (ids chunks) []) (ids chunks)
            (λ k. ground (arith, contains-onto k (ids chunks) [])))
