-- ===== src/Index/Store/Synced.antt =====
-- `build` of src/zglab_rag/indexing/indexer.py brings the index to the sources.
use zglab_rag.Prelude.{
  none, codes, if◌then◌else◌, ◌≡◌, refl, ap, ◌∙◌, ◌⊎◌, inl, inr, Bool, true, false, Bool-cases,
  some, List, [], map, Text, ◌==◌, text_eq, contains, All, arith,
}
use zglab_rag.Prelude.Dict.{Dict, lookup}
use zglab_rag.Prelude.Entries.{AllEntries, All-weaken, All-both}
use zglab_rag.Index.Plan.{
  KnowledgeChunk, EmbeddingProfile, PlannedChunk, StoredChunkState, IndexPlan, is_unchanged,
  needs_embedding, by_chunk_id, planned, gone,
}
use zglab_rag.Generation.Context.{join}
use zglab_rag.Index.Plan.Collected.{state_ids, by_chunk_id-AllEntries, gone-state_ids}
use zglab_rag.Index.Plan.Reference.{ids, has_duplicates, selected, build_index_plan-selected}
use zglab_rag.Index.Store.{
  words_of, SourceIndexInput, IndexDb, is_there, source_ids, all_chunks, stored_chunk_states,
}
use zglab_rag.Index.Store.Apply.{apply, plan_sources, reset_vectors, activate}
use zglab_rag.Index.Store.Keeps.{IsNamed, IsListed, Keeps}
use zglab_rag.Index.Store.Applied.{
  put_sources, apply_sources-put, put_sources-Keeps, put_sources-IsListed, HasDocument, AreOne,
  IsIngested,
}
use zglab_rag.Index.Store.Stale.{Settles, put_sources-Settles, planned-Settles, is_pending-nil}
use zglab_rag.Index.Store.Embedded.{
  HaveWords, item_ids, AreThere, Worded, Vectored, index_words-Worded, index_vectors-Vectored,
}
use zglab_rag.Index.Store.Chosen.{
  has_id, only_one, needed, needed-All, all_chosen, change_of, state_for, unchanged-state,
  stored-IsJoined,
}
use zglab_rag.Index.Store.Converges.{AreIngested, IsSynced, unchanged_plan, plan_sources-IsSynced}
use zglab_rag.Index.Store.Sources.{
  reset_vectors-chunks, reset_vectors-words, reset_vectors-vectors, reset_vectors-IsNamed,
  by_source, all_of, has_item_id, its_own_id,
}

module _ {V : Type 0} (sha256 : Text → Text) (profile : EmbeddingProfile) (rebuild reset : Bool)
    (document_of source_of : Text → Text) (sources : List SourceIndexInput) (db : IndexDb V) where
  abbrev of : List Text
  of = source_ids sources

  abbrev chunks : List KnowledgeChunk
  chunks = all_chunks sources

  abbrev stored : Dict Text StoredChunkState
  stored = by_chunk_id (stored_chunk_states of db)

  abbrev deleted : List StoredChunkState
  deleted = gone stored (ids chunks)

  abbrev before : IndexDb V
  before = reset_vectors reset db

  abbrev after : IndexDb V
  after = put_sources deleted sources before

  -- The item has the words of its chunk, and the vector of its embedding.
  abbrev pub HasContents : Dict Text V → IndexDb V → PlannedChunk → Type 0
  HasContents embeddings t i =
      (lookup i.chunk.chunk_id t.words
        ≡ some (record {
          title = i.chunk.title;
          section_path = join (codes " > ") i.chunk.section_path;
          content = i.chunk.content;
        }))
      × (lookup i.chunk.chunk_id t.vectors ≡ lookup i.chunk.chunk_id embeddings)

  -- The chunk is one of the items, or has the words that it had, and the vector if no reset was asked for.
  abbrev pub IsLeft : List PlannedChunk → IndexDb V → KnowledgeChunk → Type 0
  IsLeft items t c =
      (contains c.chunk_id (item_ids items) ≡ true)
      ⊎ ((lookup c.chunk_id t.words ≡ lookup c.chunk_id db.words)
          × (lookup c.chunk_id t.vectors ≡ (if reset then none else lookup c.chunk_id db.vectors)))

  -- No current chunk is to be deleted.
  stays : (k : Text) → contains k (ids chunks) ≡ true → contains k (state_ids deleted) ≡ false
  stays k h =
      gone-state_ids (ids chunks) k (stored)
        (by_chunk_id-AllEntries (λ j s. s.chunk_id ≡ j) (stored_chunk_states of db)
          (its_own_id (stored_chunk_states of db)))
        h

  abbrev needs : List PlannedChunk
  needs = needed sha256 profile rebuild stored (ids chunks) chunks

  module _ (named : IsNamed document_of source_of db)
      (ingested : AreIngested document_of source_of sources)
      (distinct : has_duplicates (ids chunks) ≡ false)
      (reset_only : reset ≡ true → rebuild ≡ true) where
    before-IsNamed : IsNamed document_of source_of before
    before-IsNamed = reset_vectors-IsNamed document_of source_of reset db named

    -- What is known of each chunk.
    abbrev Given : KnowledgeChunk → Type 0
    Given c =
        ((contains c.chunk_id (ids chunks) ≡ true)
          × All (HasDocument document_of source_of c.chunk_id) sources)
        × (contains c.source_id of ≡ true)
        × AreOne c.chunk_id c chunks

    given : All Given chunks
    given =
        All-weaken _ Given chunks (λ c p. (p.0, p.1.0, p.1.1))
          (All-both _ _ chunks
            (All-both (λ c. contains c.chunk_id (ids chunks) ≡ true)
              (λ c. All (HasDocument document_of source_of c.chunk_id) sources) chunks
              (has_id chunks) ingested.together)
            (All-both (λ c. contains c.source_id of ≡ true) (λ c. AreOne c.chunk_id c chunks) chunks
              (all_of (λ c. contains c.source_id of ≡ true) sources
                (All-weaken (IsIngested document_of source_of of)
                  (λ s. All (λ c. contains c.source_id of ≡ true) s.chunks) sources
                  (λ s i. i.of_sources) ingested.each))
              (only_one chunks distinct)))

    one_each : (c : KnowledgeChunk) → Given c → All (λ s. AreOne c.chunk_id c s.chunks) sources
    one_each c g = by_source (λ d. (d.chunk_id == c.chunk_id) ≡ true → d ≡ c) sources g.2

    listed_after : All (λ c. IsListed of c.chunk_id c after) chunks
    listed_after =
        All-weaken Given (λ c. IsListed of c.chunk_id c after) chunks
          (λ c g.
            put_sources-IsListed document_of source_of of deleted c.chunk_id c
              (stays c.chunk_id g.0.0) sources before ingested.each (one_each c g) g.0.1
              before-IsNamed g.1 g.0.0)
          given

    -- What the chunks have in the tables stays.
    kept_after : (c : KnowledgeChunk) → Given c → Keeps of c.chunk_id c before after
    kept_after c g =
        put_sources-Keeps document_of source_of of deleted c.chunk_id c (stays c.chunk_id g.0.0)
          sources before ingested.each (one_each c g) g.0.1 before-IsNamed

    no_reset : rebuild ≡ false → reset ≡ false
    no_reset h = ground (arith, reset_only, h)

    unchanged_after :
        (c : KnowledgeChunk)
        → Given c
        → change_of sha256 profile rebuild stored c ≡ is_unchanged
        → lookup c.chunk_id after.states ≡ some (state_for sha256 profile rebuild c)
    unchanged_after c g u =
        let p =
          unchanged-state sha256 profile rebuild db.states stored (stored-IsJoined of db) c u in
        (kept_after c g).state (state_for sha256 profile rebuild c)
          (ap (λ b. lookup c.chunk_id (reset_vectors b db).states) (no_reset p.0) ∙ p.1)

    current_everywhere :
        All (λ s. All (λ c. contains c.chunk_id (ids chunks) ≡ true) s.chunks) sources
    current_everywhere =
        by_source (λ c. contains c.chunk_id (ids chunks) ≡ true) sources (has_id chunks)

    settled_after :
        AllEntries
          (λ k c. contains c.source_id of ≡ true → contains k (ids chunks) ≡ true)
          after.chunks
    settled_after =
        All-weaken (λ x. Settles deleted of (ids chunks) [] x.0 x.1)
          (λ x. contains x.1.source_id of ≡ true → contains x.0 (ids chunks) ≡ true) after.chunks
          (λ x p o. ground (arith, p o, is_pending-nil deleted x.0))
          (put_sources-Settles deleted of (ids chunks) sources before current_everywhere
            (rw (reset_vectors-chunks reset db) (planned-Settles of (ids chunks) db)))

    needs_there : AreThere needs after
    needs_there =
        needed-All sha256 profile rebuild stored (ids chunks)
          (λ i. is_there (lookup i.chunk.chunk_id after.chunks) ≡ true) chunks
          (All-weaken (λ c. IsListed of c.chunk_id c after)
            (λ c. is_there (lookup c.chunk_id after.chunks) ≡ true) chunks (λ c l. rw l.0 refl)
            listed_after)

    -- The items of a chunk's id have its hash.
    same_hash :
        (c : KnowledgeChunk)
        → All (λ d. (d.chunk_id == c.chunk_id) ≡ true → d ≡ c) chunks
        → All
            (λ i.
              (i.chunk.chunk_id == c.chunk_id) ≡ true
              → i.embedding_input_hash ≡ (state_for sha256 profile false c).embedding_input_hash)
            needs
    same_hash c o =
        needed-All sha256 profile rebuild stored (ids chunks)
          (λ i.
            (i.chunk.chunk_id == c.chunk_id) ≡ true
            → i.embedding_input_hash ≡ (state_for sha256 profile false c).embedding_input_hash)
          chunks
          (All-weaken (λ d. (d.chunk_id == c.chunk_id) ≡ true → d ≡ c) _ chunks
            (λ d p t. ap (λ x. (state_for sha256 profile false x).embedding_input_hash) (p t)) o)

    same_words :
        (c : KnowledgeChunk) → AreOne c.chunk_id c chunks → HaveWords c.chunk_id (words_of c) needs
    same_words c o =
        needed-All sha256 profile rebuild stored (ids chunks)
          (λ i. (i.chunk.chunk_id == c.chunk_id) ≡ true → words_of i.chunk ≡ words_of c) chunks
          (All-weaken (λ d. (d.chunk_id == c.chunk_id) ≡ true → d ≡ c) _ chunks
            (λ d p t. ap words_of (p t)) o)

    module _ (embeddings : Dict Text V)
        (covered : All (λ i. is_there (lookup i.chunk.chunk_id embeddings) ≡ true) needs) where
      abbrev worded : Worded needs after
      worded = index_words-Worded needs after needs_there

      abbrev vectored : Vectored profile.profile_id embeddings needs worded.result
      vectored =
          index_vectors-Vectored profile.profile_id embeddings needs worded.result
            (rw worded.chunks needs_there) covered

      stated_one :
          (c : KnowledgeChunk)
          → Given c
          → (contains c.chunk_id (item_ids needs) ≡ true)
            ⊎ (change_of sha256 profile rebuild stored c ≡ is_unchanged)
          → lookup c.chunk_id vectored.result.states ≡ some (state_for sha256 profile false c)
      stated_one c g o =
          vectored.stated c.chunk_id (state_for sha256 profile false c).embedding_input_hash
            (same_hash c g.2)
            (elim o [
              | inl m ↦ inl m
              | inr n ↦ inr (ap (lookup c.chunk_id) worded.states ∙ unchanged_after c g n)
            ])

      stated_after :
          All
            (λ c.
              lookup c.chunk_id vectored.result.states ≡ some (state_for sha256 profile false c))
            chunks
      stated_after =
          All-weaken _ _ chunks (λ c p. stated_one c p.0 p.1)
            (All-both Given
              (λ c.
                (contains c.chunk_id (item_ids needs) ≡ true)
                ⊎ (change_of sha256 profile rebuild stored c ≡ is_unchanged))
              chunks given (all_chosen sha256 profile rebuild stored (ids chunks) chunks))

      -- The items have their words and their vectors.
      indexed_after : All (HasContents embeddings vectored.result) needs
      indexed_after =
          All-weaken _ (HasContents embeddings vectored.result) needs (λ i p. p.1 p.0)
            (All-both (λ i. contains i.chunk.chunk_id (item_ids needs) ≡ true)
              (λ i.
                contains i.chunk.chunk_id (item_ids needs) ≡ true
                → HasContents embeddings vectored.result i)
              needs (has_item_id needs)
              (needed-All sha256 profile rebuild stored (ids chunks)
                (λ i.
                  contains i.chunk.chunk_id (item_ids needs) ≡ true
                  → HasContents embeddings vectored.result i)
                chunks
                (All-weaken Given _ chunks
                  (λ c g m. (
                    ap (lookup c.chunk_id) vectored.words
                        ∙ worded.worded c.chunk_id (words_of c) (same_words c g.2) (inl m),
                    vectored.embedded c.chunk_id (inl m),
                  ))
                  given)))

      -- The other chunks have the words and the vectors that they had.
      untouched_after : All (IsLeft needs vectored.result) chunks
      untouched_after =
          All-weaken Given (IsLeft needs vectored.result) chunks
            (λ c g. elim (Bool-cases (contains c.chunk_id (item_ids needs))) [
              | inl m ↦ inl m
              | inr m ↦ inr (
                ap (lookup c.chunk_id) vectored.words
                    ∙ worded.others c.chunk_id m
                    ∙ (kept_after c g).words
                    ∙ ap (lookup c.chunk_id) (reset_vectors-words reset db),
                vectored.others c.chunk_id m
                    ∙ ap (lookup c.chunk_id) worded.vectors
                    ∙ (kept_after c g).vectors
                    ∙ reset_vectors-vectors reset db c.chunk_id,
              )
            ])
            given

      same_chunks : vectored.result.chunks ≡ after.chunks
      same_chunks = vectored.chunks ∙ worded.chunks

      abbrev result : IndexDb V
      result = activate profile.profile_id vectored.result

      result-IsSynced : IsSynced sha256 profile sources result
      result-IsSynced = record {
        listed = rw same_chunks listed_after;
        stated = stated_after;
        settled = rw same_chunks settled_after;
      }

      apply-result :
          apply profile sources
            (selected sha256 profile rebuild stored (ids chunks) chunks)
            embeddings
            reset
            db
          ≡ some result
      unfolding apply
      apply-result =
          rw
            (
              apply_sources-put document_of source_of of deleted sources before ingested.each,
              worded.returns,
              vectored.returns,
            )
            refl

  -- What `apply` gives.
  pub record IsBrought (plan : IndexPlan) (embeddings : Dict Text V) : Type 0 where
    pub result : IndexDb V
    pub returns : apply profile sources plan embeddings reset db ≡ some result
    pub synced : IsSynced sha256 profile sources result
    pub indexed : All (HasContents embeddings result) (needs_embedding plan)
    pub left : All (IsLeft (needs_embedding plan) result) chunks
    pub active : result.active_profile_id ≡ some profile.profile_id
    pub next :
        plan_sources sha256 profile false sources result
        ≡ some (unchanged_plan (map (planned sha256 profile false) chunks))

  selected-IsBrought :
      (n : IsNamed document_of source_of db) (i : AreIngested document_of source_of sources)
      (d : has_duplicates (ids chunks) ≡ false) (r : reset ≡ true → rebuild ≡ true)
      (embeddings : Dict Text V)
      → All (λ i. is_there (lookup i.chunk.chunk_id embeddings) ≡ true) needs
      → IsBrought (selected sha256 profile rebuild stored (ids chunks) chunks) embeddings
  selected-IsBrought n i d r embeddings w = record {
    result = result n i d r embeddings w;
    returns = apply-result n i d r embeddings w;
    synced = result-IsSynced n i d r embeddings w;
    indexed = indexed_after n i d r embeddings w;
    left = untouched_after n i d r embeddings w;
    active = refl;
    next =
        plan_sources-IsSynced sha256 profile sources (result n i d r embeddings w) d
          (result-IsSynced n i d r embeddings w);
  }

  -- For sources as ingestion gives them, a plan that was made for the stored states, and an embedding for
  -- each chunk that needs one, `apply` succeeds, and it brings the tables to the sources: each chunk's row is
  -- the chunk, with the state of the profile and of its text, and no other chunk of the sources is there; each
  -- chunk that needed an embedding has its title, section and content in the index of the words and its
  -- embedding in that of the vectors, and every other one has there what it had, a vector if they were not
  -- reset; the profile is active, and the next plan finds every chunk unchanged and nothing to delete. A
  -- reset of the vectors is taken to come with a rebuild, and ids to be made of those of their documents and
  -- sources.
  pub apply-IsBrought :
      (plan : IndexPlan) (embeddings : Dict Text V)
      → IsNamed document_of source_of db
      → AreIngested document_of source_of sources
      → (reset ≡ true → rebuild ≡ true)
      → plan_sources sha256 profile rebuild sources db ≡ some plan
      → All (λ i. is_there (lookup i.chunk.chunk_id embeddings) ≡ true) (needs_embedding plan)
      → IsBrought plan embeddings
  apply-IsBrought plan embeddings n i r h w = elim (Bool-cases (has_duplicates (ids chunks))) [
    | inl d ↦ cc (
      h,
      rw d at (build_index_plan-selected sha256 profile rebuild chunks (stored_chunk_states of db)),
    )
    | inr d ↦
        let same : plan ≡ selected sha256 profile rebuild stored (ids chunks) chunks = cc (
          h,
          rw d at
              (build_index_plan-selected sha256 profile rebuild chunks (stored_chunk_states of db)),
        ) in
        rw same (selected-IsBrought n i d r embeddings (rw same at w))
  ]
