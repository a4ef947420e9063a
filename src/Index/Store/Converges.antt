-- ===== src/Index/Store/Converges.antt =====
-- `apply` of src/zglab_rag/storage/repositories.py does what the plan says, and leaves nothing to plan.
use zglab_rag.Prelude.{
  ◌≡◌, refl, ap, ◌∙◌, inl, inr, true, false, Bool-cases, none, some, List, [], ◌∷◌, map, Text,
  text_eq, if◌then◌else◌, contains, keep, All,
}
use zglab_rag.Prelude.Dict.{Dict, lookup}
use zglab_rag.Prelude.Entries.{AllEntries, lookup-AllEntries, All-weaken, All-both}
use zglab_rag.Index.Plan.{
  KnowledgeChunk, EmbeddingProfile, PlannedChunk, StoredChunkState, IndexPlan, Change, is_new,
  is_changed, is_unchanged, by_chunk_id, planned, gone,
}
use zglab_rag.Index.Plan.Collected.{
  state_ids, by_chunk_id-AllEntries, gone-none, lookup-is_key, is_key-by_chunk_id,
}
use zglab_rag.Index.Plan.Reference.{
  ids, has_duplicates, same_change, goes_to, selected, build_index_plan-selected,
}
use zglab_rag.Index.Store.{
  SourceIndexInput, EmbeddingState, IndexDb, source_ids, all_chunks, stored_chunk_states, joined,
  is_of,
}
use zglab_rag.Index.Store.Apply.{plan_sources}
use zglab_rag.Index.Store.Keeps.{IsListed}
use zglab_rag.Index.Store.Applied.{IsIngested, HasDocument}
use zglab_rag.Index.Store.Stale.{stored_rows}
use zglab_rag.Index.Store.Chosen.{change_of, state_for, state-unchanged, stored-IsJoined}

module _ (sha256 : Text → Text) (profile : EmbeddingProfile)
    (stored : Dict Text StoredChunkState) where
  abbrev Unchanged : KnowledgeChunk → Type 0
  Unchanged c = change_of sha256 profile false stored c ≡ is_unchanged

  none_other :
      (k : Change) (cs : List KnowledgeChunk)
      → same_change k is_unchanged ≡ false
      → All Unchanged cs
      → keep (goes_to sha256 profile false stored k) cs ≡ []
  none_other k [] h a = refl
  none_other k (c ∷ cs) h a = rw (a.0, h) (none_other k cs h a.1)

  keep-Unchanged :
      (cs : List KnowledgeChunk)
      → All Unchanged cs
      → keep (goes_to sha256 profile false stored is_unchanged) cs ≡ cs
  keep-Unchanged [] a = refl
  keep-Unchanged (c ∷ cs) a = rw a.0 (ap (λ l. c ∷ l) (keep-Unchanged cs a.1))

-- A plan that asks for nothing.
abbrev pub unchanged_plan : List PlannedChunk → IndexPlan
unchanged_plan items = record { new = []; changed = []; unchanged = items; deleted = [] }

module _ (document_of source_of : Text → Text) (sources : List SourceIndexInput) where
  -- What ingestion gives, of all sources: a source that is listed twice has the same documents.
  pub record AreIngested : Type 0 where
    pub each : All (IsIngested document_of source_of (source_ids sources)) sources
    pub together :
        All (λ c. All (HasDocument document_of source_of c.chunk_id) sources) (all_chunks sources)

same_plan :
    (f : KnowledgeChunk → PlannedChunk) (n m u : List KnowledgeChunk) (d : List StoredChunkState)
    (cs : List KnowledgeChunk)
    → n ≡ []
    → m ≡ []
    → u ≡ cs
    → d ≡ []
    → record { new = map f n; changed = map f m; unchanged = map f u; deleted = d }
      ≡ unchanged_plan (map f cs)
same_plan f n m u d cs hn hm hu hd = rw (hn, hm, hu, hd) refl

settled_states :
    (of current : List Text) (states : Dict Text EmbeddingState) (rows : Dict Text KnowledgeChunk)
    → AllEntries (λ k c. contains c.source_id of ≡ true → contains k current ≡ true) rows
    → All (λ s. contains s.chunk_id current ≡ true) (map (joined states) (keep (is_of of) rows))
settled_states of current states [] a = tt
settled_states of current states ((k, c) ∷ rows) a = elim (Bool-cases (contains c.source_id of)) [
  | inl e ↦ rw e (a.0 e, settled_states of current states rows a.1)
  | inr e ↦ rw e (settled_states of current states rows a.1)
]

module _ {V : Type 0} (sha256 : Text → Text) (profile : EmbeddingProfile)
    (sources : List SourceIndexInput) where
  abbrev stored_by : IndexDb V → Dict Text StoredChunkState
  stored_by db = by_chunk_id (stored_chunk_states (source_ids sources) db)

  -- The chunks have the states that they are to have, and no other chunk of the sources is there.
  pub record IsSynced (db : IndexDb V) : Type 0 where
    pub listed : All (λ c. IsListed (source_ids sources) c.chunk_id c db) (all_chunks sources)
    pub stated :
        All
          (λ c. lookup c.chunk_id db.states ≡ some (state_for sha256 profile false c))
          (all_chunks sources)
    pub settled :
        AllEntries
          (λ k c.
            contains c.source_id (source_ids sources) ≡ true
            → contains k (ids (all_chunks sources)) ≡ true)
          db.chunks

  -- A listed chunk has a stored state.
  stored_state :
      (db : IndexDb V) (k : Text) (x : KnowledgeChunk)
      → IsListed (source_ids sources) k x db
      → (s : StoredChunkState) × (lookup k (stored_by db) ≡ some s)
  unfolding stored_chunk_states
  stored_state db k x l =
      let L = map (joined db.states) (keep (is_of (source_ids sources)) db.chunks) in
      lookup-is_key k (by_chunk_id L) (
        is_key-by_chunk_id k L
        ∙ lookup-AllEntries
            (λ j c.
              contains c.source_id (source_ids sources) ≡ true → contains j (state_ids L) ≡ true)
            k x db.chunks (stored_rows (source_ids sources) db.states db.chunks) l.0 l.1)

  Unchanged-synced :
      (db : IndexDb V)
      → IsSynced db
      → (cs : List KnowledgeChunk)
      → All
          (λ c.
            IsListed (source_ids sources) c.chunk_id c db
            × (lookup c.chunk_id db.states ≡ some (state_for sha256 profile false c)))
          cs
      → All (Unchanged sha256 profile (stored_by db)) cs
  Unchanged-synced db y cs a =
      All-weaken _ (Unchanged sha256 profile (stored_by db)) cs
        (λ c p.
          let s = stored_state db c.chunk_id c p.0 in
          state-unchanged sha256 profile false db.states (stored_by db)
            (stored-IsJoined (source_ids sources) db) c s.0 refl s.1 p.1)
        a

  nothing_gone :
      (db : IndexDb V) → IsSynced db → gone (stored_by db) (ids (all_chunks sources)) ≡ []
  unfolding stored_chunk_states
  nothing_gone db y =
      let current = ids (all_chunks sources) in
      gone-none current (stored_by db) (
        by_chunk_id-AllEntries (λ k s. contains k current ≡ true)
          (stored_chunk_states (source_ids sources) db)
          (settled_states (source_ids sources) current db.states db.chunks y.settled))

  pub plan_sources-IsSynced :
      (db : IndexDb V)
      → has_duplicates (ids (all_chunks sources)) ≡ false
      → IsSynced db
      → plan_sources sha256 profile false sources db
        ≡ some (unchanged_plan (map (planned sha256 profile false) (all_chunks sources)))
  plan_sources-IsSynced db d y =
      let cs = all_chunks sources in
      let stored = stored_by db in
      let u = Unchanged-synced db y cs (
        All-both (λ c. IsListed (source_ids sources) c.chunk_id c db)
          (λ c. lookup c.chunk_id db.states ≡ some (state_for sha256 profile false c)) cs y.listed
          y.stated) in
      build_index_plan-selected sha256 profile false cs
        (stored_chunk_states (source_ids sources) db)
      ∙ ap (λ b. if b then none else some (selected sha256 profile false stored (ids cs) cs)) d
      ∙ ap some (
          same_plan (planned sha256 profile false) _ _ _ _ cs
            (none_other sha256 profile stored is_new cs refl u)
            (none_other sha256 profile stored is_changed cs refl u)
            (keep-Unchanged sha256 profile stored cs u) (nothing_gone db y))
