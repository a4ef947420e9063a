-- ===== src/Index/Store/Chosen.antt =====
-- What the plan of src/zglab_rag/indexing/planner.py says of each chunk, and of its stored state.
use zglab_rag.Prelude.{
  ◌≡◌, refl, ap, ◌∙◌, ◌⊎◌, inl, inr, Bool, true, false, Bool-cases, Option-cases, and_true,
  or_right, Option, none, some, List, [], ◌∷◌, ◌++◌, map, Text, ◌==◌, text_eq, beq_refl, beq_comm,
  if◌then◌else◌, contains, contains-append, map-append, keep, All, All-append, arith,
}
use zglab_rag.Prelude.Dict.{Dict, lookup}
use zglab_rag.Prelude.Entries.{AllEntries, lookup-AllEntries, All-weaken, All-both, All-keep}
use zglab_rag.Index.Plan.{
  KnowledgeChunk, EmbeddingProfile, PlannedChunk, StoredChunkState, Change, is_new, is_changed,
  is_unchanged, needs_embedding, by_chunk_id, planned, is_current, classify,
}
use zglab_rag.Index.Plan.Collected.{by_chunk_id-AllEntries}
use zglab_rag.Index.Plan.Reference.{ids, has_duplicates, same_change, goes_to, selected}
use zglab_rag.Index.Store.{
  EmbeddingState, IndexDb, profile_of, hash_of, joined, is_of, stored_chunk_states,
}
use zglab_rag.Index.Store.Embedded.{item_ids}

-- Every chunk has its id among the ids.
pub has_id : (cs : List KnowledgeChunk) → All (λ c. contains c.chunk_id (ids cs) ≡ true) cs
has_id [] = tt
has_id (c ∷ cs) = (
  rw (beq_refl c.chunk_id) refl,
  All-weaken (λ d. contains d.chunk_id (ids cs) ≡ true)
      (λ d. contains d.chunk_id (ids (c ∷ cs)) ≡ true) cs (λ d h. ground (arith, h)) (has_id cs),
)

no_other :
    (k : Text) (cs : List KnowledgeChunk)
    → contains k (ids cs) ≡ false
    → All (λ c. (c.chunk_id == k) ≡ false) cs
no_other k [] h = tt
no_other k (c ∷ cs) h =
    (ground (arith, h, beq_comm c.chunk_id k), no_other k cs (ground (arith, h)))

-- With no id twice, a chunk is the only one of its id.
pub only_one :
    (cs : List KnowledgeChunk)
    → has_duplicates (ids cs) ≡ false
    → All (λ c. All (λ d. (d.chunk_id == c.chunk_id) ≡ true → d ≡ c) cs) cs
only_one [] h = tt
only_one (c ∷ cs) h =
    let n = no_other c.chunk_id cs (ground (arith, h)) in
    (
      (
        λ e. refl,
        All-weaken (λ d. (d.chunk_id == c.chunk_id) ≡ false)
            (λ d. (d.chunk_id == c.chunk_id) ≡ true → d ≡ c) cs (λ d e t. cc (e, t)) n,
      ),
      All-weaken
          (λ x.
            ((x.chunk_id == c.chunk_id) ≡ false)
            × All (λ d. (d.chunk_id == x.chunk_id) ≡ true → d ≡ x) cs)
          (λ x. All (λ d. (d.chunk_id == x.chunk_id) ≡ true → d ≡ x) (c ∷ cs)) cs
          (λ x p. (λ t. cc (t, p.0, beq_comm c.chunk_id x.chunk_id), p.1))
          (All-both (λ x. (x.chunk_id == c.chunk_id) ≡ false)
            (λ x. All (λ d. (d.chunk_id == x.chunk_id) ≡ true → d ≡ x) cs) cs n
            (only_one cs (ground (arith, h)))),
    )

-- A chunk that is kept has its id among those kept.
kept_id :
    (p : KnowledgeChunk → Bool) (cs : List KnowledgeChunk)
    → All (λ c. p c ≡ true → contains c.chunk_id (ids (keep p cs)) ≡ true) cs
kept_id p [] = tt
kept_id p (c ∷ cs) = (
  λ e. rw (e, beq_refl c.chunk_id) refl,
  All-weaken (λ d. p d ≡ true → contains d.chunk_id (ids (keep p cs)) ≡ true)
      (λ d. p d ≡ true → contains d.chunk_id (ids (keep p (c ∷ cs))) ≡ true) cs
      (λ d h e. elim (Bool-cases (p c)) [
        | inl t ↦
            rw t (or_right (d.chunk_id == c.chunk_id) (contains d.chunk_id (ids (keep p cs))) (h e))
        | inr t ↦ rw t (h e)
      ])
      (kept_id p cs),
)

unchanged_if :
    (a b : Bool)
    → (if a then is_changed else (if b then is_unchanged else is_changed)) ≡ is_unchanged
    → (a ≡ false) × (b ≡ true)
unchanged_if a b h = ground arith

module _ (sha256 : Text → Text) (profile : EmbeddingProfile) (rebuild : Bool) where
  item_ids-planned :
      (cs : List KnowledgeChunk) → item_ids (map (planned sha256 profile rebuild) cs) ≡ ids cs
  item_ids-planned [] = refl
  item_ids-planned (c ∷ cs) = ap (λ l. c.chunk_id ∷ l) (item_ids-planned cs)

  all_planned :
      (Q : PlannedChunk → Type 0) (cs : List KnowledgeChunk)
      → All (λ c. Q (planned sha256 profile rebuild c)) cs
      → All Q (map (planned sha256 profile rebuild) cs)
  all_planned Q [] h = tt
  all_planned Q (c ∷ cs) h = (h.0, all_planned Q cs h.1)

  abbrev pub change_of : Dict Text StoredChunkState → KnowledgeChunk → Change
  change_of stored c =
      classify sha256 profile rebuild (planned sha256 profile rebuild c) (lookup c.chunk_id stored)

  module _ (stored : Dict Text StoredChunkState) (current : List Text) where
    abbrev pub needed : List KnowledgeChunk → List PlannedChunk
    needed cs = needs_embedding (selected sha256 profile rebuild stored current cs)

    -- What holds of every chunk's item holds of those that need an embedding.
    pub needed-All :
        (Q : PlannedChunk → Type 0) (cs : List KnowledgeChunk)
        → All (λ c. Q (planned sha256 profile rebuild c)) cs
        → All Q (needed cs)
    needed-All Q cs h =
        All-append Q _ _
          (all_planned Q (keep (goes_to sha256 profile rebuild stored is_new) cs)
            (All-keep (λ c. Q (planned sha256 profile rebuild c)) _ cs h))
          (all_planned Q (keep (goes_to sha256 profile rebuild stored is_changed) cs)
            (All-keep (λ c. Q (planned sha256 profile rebuild c)) _ cs h))

    needed-ids :
        (cs : List KnowledgeChunk)
        → item_ids (needed cs)
          ≡ ids (keep (goes_to sha256 profile rebuild stored is_new) cs)
            ++ ids (keep (goes_to sha256 profile rebuild stored is_changed) cs)
    needed-ids cs =
        let new = keep (goes_to sha256 profile rebuild stored is_new) cs in
        let changed = keep (goes_to sha256 profile rebuild stored is_changed) cs in
        map-append (λ i. i.chunk.chunk_id) (map (planned sha256 profile rebuild) new)
          (map (planned sha256 profile rebuild) changed)
        ∙ ap (λ l. l ++ item_ids (map (planned sha256 profile rebuild) changed))
            (item_ids-planned new)
        ∙ ap (λ l. ids new ++ l) (item_ids-planned changed)

    chosen :
        (c : KnowledgeChunk) (change : Change) (n m : List Text)
        → (same_change is_new change ≡ true → contains c.chunk_id n ≡ true)
        → (same_change is_changed change ≡ true → contains c.chunk_id m ≡ true)
        → (contains c.chunk_id (n ++ m) ≡ true) ⊎ (change ≡ is_unchanged)
    chosen c is_new n m f g = inl (ground (arith, contains-append c.chunk_id n m, f refl))
    chosen c is_changed n m f g = inl (ground (arith, contains-append c.chunk_id n m, g refl))
    chosen c is_unchanged n m f g = inr refl

    pub all_chosen :
        (cs : List KnowledgeChunk)
        → All
            (λ c.
              (contains c.chunk_id (item_ids (needed cs)) ≡ true)
              ⊎ (change_of stored c ≡ is_unchanged))
            cs
    all_chosen cs =
        let new = goes_to sha256 profile rebuild stored is_new in
        let changed = goes_to sha256 profile rebuild stored is_changed in
        All-weaken
          (λ c.
            (new c ≡ true → contains c.chunk_id (ids (keep new cs)) ≡ true)
            × (changed c ≡ true → contains c.chunk_id (ids (keep changed cs)) ≡ true))
          (λ c.
            (contains c.chunk_id (item_ids (needed cs)) ≡ true)
            ⊎ (change_of stored c ≡ is_unchanged))
          cs
          (λ c p.
            rw (needed-ids cs)
              (chosen c (change_of stored c) (ids (keep new cs)) (ids (keep changed cs)) p.0 p.1))
          (All-both (λ c. new c ≡ true → contains c.chunk_id (ids (keep new cs)) ≡ true)
            (λ c. changed c ≡ true → contains c.chunk_id (ids (keep changed cs)) ≡ true) cs
            (kept_id new cs) (kept_id changed cs))

  -- The fields of a stored state are those of the row that it was joined with.
  abbrev pub IsJoined : Dict Text EmbeddingState → Text → StoredChunkState → Type 0
  IsJoined states k s =
      (s.embedding_profile_id ≡ profile_of (lookup k states))
      × (s.embedding_input_hash ≡ hash_of (lookup k states))

  abbrev pub state_for : KnowledgeChunk → EmbeddingState
  state_for c = record {
    embedding_profile_id = profile.profile_id;
    embedding_input_hash = (planned sha256 profile rebuild c).embedding_input_hash;
  }

  unchanged_row :
      (c : KnowledgeChunk) (o : Option EmbeddingState) (s : StoredChunkState)
      → (s.embedding_profile_id ≡ profile_of o) × (s.embedding_input_hash ≡ hash_of o)
      → is_current sha256 profile rebuild (planned sha256 profile rebuild c) s ≡ true
      → o ≡ some (state_for c)
  unchanged_row c none s j h = cc (rw (j.0) at h)
  unchanged_row c (some e) s j h =
      let hash = (planned sha256 profile rebuild c).embedding_input_hash in
      let w =
        and_true (e.embedding_profile_id == profile.profile_id) (e.embedding_input_hash == hash)
          (rw (j.0, j.1) at h) in
      ap
        (λ x.
          some (record { embedding_profile_id = x; embedding_input_hash = e.embedding_input_hash }))
        ((text_eq.beq_iff e.embedding_profile_id profile.profile_id).0 w.0)
      ∙ ap
          (λ x.
            some (record { embedding_profile_id = profile.profile_id; embedding_input_hash = x }))
          ((text_eq.beq_iff e.embedding_input_hash hash).0 w.1)

  current_row :
      (c : KnowledgeChunk) (o : Option EmbeddingState) (s : StoredChunkState)
      → (s.embedding_profile_id ≡ profile_of o) × (s.embedding_input_hash ≡ hash_of o)
      → o ≡ some (state_for c)
      → is_current sha256 profile rebuild (planned sha256 profile rebuild c) s ≡ true
  current_row c o s j h =
      rw
        (
          j.0,
          j.1,
          h,
          beq_refl profile.profile_id,
          beq_refl (planned sha256 profile rebuild c).embedding_input_hash,
        )
        refl

  module _ (states : Dict Text EmbeddingState) (stored : Dict Text StoredChunkState)
      (joins : AllEntries (IsJoined states) stored) where
    -- A chunk that is unchanged has the state that it is to have, and there is no rebuild.
    pub unchanged-state :
        (c : KnowledgeChunk)
        → change_of stored c ≡ is_unchanged
        → (rebuild ≡ false) × (lookup c.chunk_id states ≡ some (state_for c))
    unchanged-state c h = elim (Option-cases (lookup c.chunk_id stored)) [
      | inl e ↦ cc (rw e at h)
      | inr (s, e) ↦
          let w =
            unchanged_if rebuild
              (is_current sha256 profile rebuild (planned sha256 profile rebuild c) s)
              (rw e at h) in
          (
            w.0,
            unchanged_row c (lookup c.chunk_id states) s
                (lookup-AllEntries (IsJoined states) c.chunk_id s stored joins e) w.1,
          )
    ]

    -- Conversely, a chunk with a stored state and that state is unchanged.
    pub state-unchanged :
        (c : KnowledgeChunk) (s : StoredChunkState)
        → rebuild ≡ false
        → lookup c.chunk_id stored ≡ some s
        → lookup c.chunk_id states ≡ some (state_for c)
        → change_of stored c ≡ is_unchanged
    state-unchanged c s n e h =
        rw
          (
            e,
            n,
            current_row c (lookup c.chunk_id states) s
                (lookup-AllEntries (IsJoined states) c.chunk_id s stored joins e) h,
          )
          refl

joined_of :
    (of : List Text) (states : Dict Text EmbeddingState) (rows : Dict Text KnowledgeChunk)
    → All
        (λ s.
          (s.embedding_profile_id ≡ profile_of (lookup s.chunk_id states))
          × (s.embedding_input_hash ≡ hash_of (lookup s.chunk_id states)))
        (map (joined states) (keep (is_of of) rows))
joined_of of states [] = tt
joined_of of states ((k, c) ∷ rows) = elim (Bool-cases (contains c.source_id of)) [
  | inl e ↦ rw e ((refl, refl), joined_of of states rows)
  | inr e ↦ rw e (joined_of of states rows)
]

pub stored-IsJoined :
    {V : Type 0} (of : List Text) (db : IndexDb V)
    → AllEntries
        (λ k s.
          (s.embedding_profile_id ≡ profile_of (lookup k db.states))
          × (s.embedding_input_hash ≡ hash_of (lookup k db.states)))
        (by_chunk_id (stored_chunk_states of db))
unfolding stored_chunk_states
stored-IsJoined of db =
    by_chunk_id-AllEntries _ (map (joined db.states) (keep (is_of of) db.chunks))
      (joined_of of db.states db.chunks)
