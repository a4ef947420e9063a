-- ===== src/Index/Plan/Described.antt =====
-- The plan of src/zglab_rag/indexing/planner.py, described by what is stored of each chunk.
use zglab_rag.Prelude.{
  ◌≡◌, refl, sym, ap, ◌∙◌, inl, inr, Bool, true, false, ◌&&◌, ◌||◌, not, Bool-cases, Option, none,
  some, List, [], ◌∷◌, map, Text, ◌==◌, text_eq, if◌then◌else◌, contains, keep, arith,
}
use zglab_rag.Prelude.Dict.{Dict, lookup, lookup-insert}
use zglab_rag.Index.Plan.{
  KnowledgeChunk, EmbeddingProfile, PlannedChunk, StoredChunkState, IndexPlan, is_new, is_changed,
  is_unchanged, is_some_of, Change, collect, by_chunk_id, classify, planned, compose_document_text,
  build_index_plan,
}
use zglab_rag.Index.Plan.Reference.{
  ids, has_duplicates, same_change, goes_to, selected, build_index_plan-selected,
}

abbrev or_else : Option StoredChunkState → Option StoredChunkState → Option StoredChunkState
or_else none o = o
or_else (some s) o = some s

-- The last of the states that has the id.
abbrev pub last_state : Text → List StoredChunkState → Option StoredChunkState
last_state k [] = none
last_state k (s ∷ ss) = or_else (last_state k ss) (if s.chunk_id == k then some s else none)

abbrev pub holds : Option Text → Text → Bool
holds none t = false
holds (some s) t = s == t

abbrev pub is_stored : Option StoredChunkState → Bool
is_stored none = false
is_stored (some s) = true

-- The state is of the profile and of the hash.
abbrev pub is_up_to_date : Text → Text → Option StoredChunkState → Bool
is_up_to_date profile_id hash none = false
is_up_to_date profile_id hash (some s) =
    holds s.embedding_profile_id profile_id && holds s.embedding_input_hash hash

or_else_assoc :
    (a b c : Option StoredChunkState) → or_else (or_else a b) c ≡ or_else a (or_else b c)
or_else_assoc none b c = refl
or_else_assoc (some s) b c = refl

found_or :
    (b : Bool) (s : StoredChunkState) (o : Option StoredChunkState)
    → (if b then some s else o) ≡ or_else (if b then some s else none) o
found_or true s o = refl
found_or false s o = refl

lookup-collect :
    (k : Text) (ss : List StoredChunkState) (d : Dict Text StoredChunkState)
    → lookup k (collect d ss) ≡ or_else (last_state k ss) (lookup k d)
lookup-collect k [] d = refl
lookup-collect k (s ∷ ss) d =
    lookup-collect k ss _
    ∙ ap (or_else (last_state k ss))
        (lookup-insert s.chunk_id k s d ∙ found_or (s.chunk_id == k) s (lookup k d))
    ∙ sym (or_else_assoc (last_state k ss) (if s.chunk_id == k then some s else none) (lookup k d))

or_else-none : (o : Option StoredChunkState) → or_else o none ≡ o
or_else-none none = refl
or_else-none (some s) = refl

lookup-by_chunk_id :
    (k : Text) (ss : List StoredChunkState) → lookup k (by_chunk_id ss) ≡ last_state k ss
unfolding lookup
lookup-by_chunk_id k ss = lookup-collect k ss [] ∙ or_else-none (last_state k ss)

keep_alike :
    {A : Type 0} (p q : A → Bool) (xs : List A) → ((x : A) → p x ≡ q x) → keep p xs ≡ keep q xs
keep_alike p q [] h = refl
keep_alike p q (x ∷ xs) h = elim (Bool-cases (q x)) [
  | inl e ↦ rw (h x, e) (ap (λ l. x ∷ l) (keep_alike p q xs h))
  | inr e ↦ rw (h x, e) (keep_alike p q xs h)
]

holds_comm : (o : Option Text) (t : Text) → holds o t ≡ is_some_of t o
holds_comm none t = refl
holds_comm (some s) t = refl

module _ (sha256 : Text → Text) (profile : EmbeddingProfile) (force_rebuild : Bool) where
  abbrev pub text_of : KnowledgeChunk → Text
  text_of c = compose_document_text c profile.composition

  abbrev pub item_of : KnowledgeChunk → PlannedChunk
  item_of c = record {
    chunk = c;
    embedding_text = text_of c;
    embedding_input_hash = sha256 (text_of c);
  }

  module _ (states : List StoredChunkState) where
    abbrev pub stored : KnowledgeChunk → Bool
    stored c = is_stored (last_state c.chunk_id states)

    abbrev pub up_to_date : KnowledgeChunk → Bool
    up_to_date c =
        is_up_to_date profile.profile_id (sha256 (text_of c)) (last_state c.chunk_id states)

    -- The plan for the chunks.
    abbrev pub described : List KnowledgeChunk → IndexPlan
    described chunks = record {
      new = map item_of (keep (λ c. not (stored c)) chunks);
      changed = map item_of (keep (λ c. stored c && (force_rebuild || not (up_to_date c))) chunks);
      unchanged = map item_of (keep (λ c. not force_rebuild && up_to_date c) chunks);
      deleted = map (λ e. e.1) (keep (λ e. not (contains e.0 (ids chunks))) (by_chunk_id states));
    }

  module _ (c : KnowledgeChunk) where
    abbrev change : Option StoredChunkState → Change
    change o = classify sha256 profile force_rebuild (planned sha256 profile force_rebuild c) o

    classify-is_new :
        (o : Option StoredChunkState) → same_change is_new (change o) ≡ not (is_stored o)
    classify-is_new none = refl
    classify-is_new (some s) = ground arith

    classify-is_changed :
        (o : Option StoredChunkState)
        → same_change is_changed (change o)
          ≡ is_stored o
            && (force_rebuild || not (is_up_to_date profile.profile_id (sha256 (text_of c)) o))
    classify-is_changed none = refl
    classify-is_changed (some s) = ground (
      arith,
      holds_comm s.embedding_profile_id profile.profile_id,
      holds_comm s.embedding_input_hash (sha256 (text_of c)),
    )

    classify-is_unchanged :
        (o : Option StoredChunkState)
        → same_change is_unchanged (change o)
          ≡ not force_rebuild && is_up_to_date profile.profile_id (sha256 (text_of c)) o
    classify-is_unchanged none = ground arith
    classify-is_unchanged (some s) = ground (
      arith,
      holds_comm s.embedding_profile_id profile.profile_id,
      holds_comm s.embedding_input_hash (sha256 (text_of c)),
    )

  abbrev as_plan :
      (KnowledgeChunk → PlannedChunk)
      → List StoredChunkState
      → List KnowledgeChunk
      → List KnowledgeChunk
      → List KnowledgeChunk
      → IndexPlan
  as_plan f d n m u = record { new = map f n; changed = map f m; unchanged = map f u; deleted = d }

  same_lists :
      (f : KnowledgeChunk → PlannedChunk) (n m u n' m' u' : List KnowledgeChunk)
      (d : List StoredChunkState)
      → n ≡ n'
      → m ≡ m'
      → u ≡ u'
      → as_plan f d n m u ≡ as_plan f d n' m' u'
  same_lists f n m u n' m' u' d hn hm hu = rw (hn, hm, hu) refl

  selected-described :
      (states : List StoredChunkState) (chunks : List KnowledgeChunk)
      → selected sha256 profile force_rebuild (by_chunk_id states) (ids chunks) chunks
        ≡ described states chunks
  selected-described states chunks =
      same_lists item_of _ _ _ _ _ _
        (selected sha256 profile force_rebuild (by_chunk_id states) (ids chunks) chunks).deleted
        (keep_alike (goes_to sha256 profile force_rebuild (by_chunk_id states) is_new)
          (λ c. not (stored states c)) chunks
          (λ c.
            ap (λ o. same_change is_new (change c o)) (lookup-by_chunk_id c.chunk_id states)
            ∙ classify-is_new c (last_state c.chunk_id states)))
        (keep_alike (goes_to sha256 profile force_rebuild (by_chunk_id states) is_changed)
          (λ c. stored states c && (force_rebuild || not (up_to_date states c))) chunks
          (λ c.
            ap (λ o. same_change is_changed (change c o)) (lookup-by_chunk_id c.chunk_id states)
            ∙ classify-is_changed c (last_state c.chunk_id states)))
        (keep_alike (goes_to sha256 profile force_rebuild (by_chunk_id states) is_unchanged)
          (λ c. not force_rebuild && up_to_date states c) chunks
          (λ c.
            ap (λ o. same_change is_unchanged (change c o)) (lookup-by_chunk_id c.chunk_id states)
            ∙ classify-is_unchanged c (last_state c.chunk_id states)))

  -- The plan is an error exactly when two chunks have one id. Otherwise, with the last of the stored states
  -- of a chunk's id as its state: `new` are the chunks with no state, `unchanged` those whose state is of
  -- the profile and of the hash of their text, if no rebuild is forced, and `changed` those with any other
  -- state, each in the order of the chunks, with its text and the hash of it; `deleted` are the states of
  -- the stored ids that no chunk has.
  pub build_index_plan-described :
      (chunks : List KnowledgeChunk) (states : List StoredChunkState)
      → build_index_plan sha256 profile force_rebuild chunks states
        ≡ (if has_duplicates (ids chunks) then none else some (described states chunks))
  build_index_plan-described chunks states =
      build_index_plan-selected sha256 profile force_rebuild chunks states
      ∙ ap (λ x. if has_duplicates (ids chunks) then none else some x)
          (selected-described states chunks)
