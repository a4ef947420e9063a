-- ===== src/Index/Store/Apply.antt =====
-- `apply` of src/zglab_rag/storage/repositories.py, and `build` of src/zglab_rag/indexing/indexer.py.
use zglab_rag.Prelude.{
  Bool, true, false, not, Option, none, some, List, [], ◌∷◌, Text, ◌==◌, text_eq, if◌then◌else◌,
  contains, all,
}
use zglab_rag.Prelude.Dict.{Dict, lookup, insert, remove}
use zglab_rag.Index.Plan.{
  EmbeddingProfile, PlannedChunk, StoredChunkState, IndexPlan, needs_embedding, build_index_plan,
}
use zglab_rag.Index.Store.{
  SourceIndexInput, IndexDb, is_there, words_of, upsert_source, upsert_documents, upsert_chunks,
  delete_stale, all_chunks, source_ids, stored_chunk_states,
}

module _ {V : Type 0} where
  abbrev pub option_map : (IndexDb V → IndexDb V) → Option (IndexDb V) → Option (IndexDb V)
  option_map f none = none
  option_map f (some db) = some (f db)

  abbrev pub and_then : Option (IndexDb V) → (IndexDb V → Option (IndexDb V)) → Option (IndexDb V)
  and_then none f = none
  and_then (some db) f = f db

  -- The loop of `apply` over the sources, one round.
  unfoldable pub apply_source :
      List StoredChunkState → SourceIndexInput → IndexDb V → Option (IndexDb V)
  apply_source deleted s db =
      option_map (delete_stale deleted s)
        (upsert_chunks s.chunks (upsert_documents s.documents (upsert_source s db)))

  unfoldable pub apply_sources :
      List StoredChunkState → List SourceIndexInput → IndexDb V → Option (IndexDb V)
  apply_sources deleted [] db = some db
  apply_sources deleted (s ∷ ss) db =
      and_then (apply_source deleted s db) (apply_sources deleted ss)

  abbrev pub put_words : PlannedChunk → IndexDb V → IndexDb V
  put_words item db =
      let k = item.chunk.chunk_id in
      record db { words = insert k (words_of item.chunk) (remove k db.words) }

  -- The loop over the words; `none` is the `RuntimeError` of a chunk that is not there.
  unfoldable pub index_words : List PlannedChunk → IndexDb V → Option (IndexDb V)
  index_words [] db = some db
  index_words (item ∷ items) db =
      let rest = index_words items (put_words item db) in
      if is_there (lookup item.chunk.chunk_id db.chunks) then rest else none

  abbrev pub put_vector : Text → PlannedChunk → V → IndexDb V → IndexDb V
  put_vector profile_id item v db =
      let k = item.chunk.chunk_id in
      record db {
        vectors = insert k v (remove k db.vectors);
        states =
            insert k
              (record {
                embedding_profile_id = profile_id;
                embedding_input_hash = item.embedding_input_hash;
              })
              db.states;
      }

  abbrev pub with_vector : Text → PlannedChunk → Option V → IndexDb V → Option (IndexDb V)
  with_vector profile_id item none db = none
  with_vector profile_id item (some v) db =
      if is_there (lookup item.chunk.chunk_id db.chunks)
      then some (put_vector profile_id item v db)
      else none

  -- The loop over the vectors; `none` is a chunk that is not there, or one without an embedding.
  unfoldable pub index_vectors :
      Text → Dict Text V → List PlannedChunk → IndexDb V → Option (IndexDb V)
  index_vectors profile_id embeddings [] db = some db
  index_vectors profile_id embeddings (item ∷ items) db =
      and_then (with_vector profile_id item (lookup item.chunk.chunk_id embeddings) db)
        (index_vectors profile_id embeddings items)

  abbrev pub reset_vectors : Bool → IndexDb V → IndexDb V
  reset_vectors true db = record db { vectors = []; states = [] }
  reset_vectors false db = db

  abbrev pub activate : Text → IndexDb V → IndexDb V
  activate profile_id db = record db { active_profile_id = some profile_id }

  -- `apply`, up to the derived structures; `none` is an exception, after which nothing has changed.
  unfoldable pub apply :
      EmbeddingProfile
      → List SourceIndexInput
      → IndexPlan
      → Dict Text V
      → Bool
      → IndexDb V
      → Option (IndexDb V)
  apply profile sources plan embeddings reset_all_vectors db =
      option_map (activate profile.profile_id) (
        and_then
          (and_then (apply_sources plan.deleted sources (reset_vectors reset_all_vectors db))
            (index_words (needs_embedding plan)))
          (index_vectors profile.profile_id embeddings (needs_embedding plan)))

-- How `build` ends.
pub data BuildOutcome (V : Type 0) : Type 0 where
  index_profile_mismatch rebuild_scope_error duplicate_chunk_id embedding_failed apply_failed :
      BuildOutcome V
  built : IndexPlan → IndexDb V → BuildOutcome V

pub data Compatibility : Type 0 where
  same_profile other_profile : Compatibility
  refused : Compatibility
  out_of_scope : Compatibility

abbrev pub other_profile_for : Bool → Bool → Compatibility
other_profile_for false omits = refused
other_profile_for true true = out_of_scope
other_profile_for true false = other_profile

abbrev pub omits_some : List Text → Dict Text (Option Text) → Bool
omits_some ids sources = not (all (λ row. contains row.0 ids) sources)

module _ {V : Type 0} (profile : EmbeddingProfile) where
  abbrev pub compatibility_with : Option Text → Bool → List Text → IndexDb V → Compatibility
  compatibility_with none rebuild ids db = same_profile
  compatibility_with (some active) rebuild ids db =
      if active == profile.profile_id
      then same_profile
      else other_profile_for rebuild (omits_some ids db.sources)

  -- `ensure_profile_compatible`: `other_profile` is its `True`.
  unfoldable pub ensure_profile_compatible : Bool → List Text → IndexDb V → Compatibility
  ensure_profile_compatible rebuild ids db = compatibility_with db.active_profile_id rebuild ids db

module _ {V : Type 0} (sha256 : Text → Text) (profile : EmbeddingProfile) where
  -- `plan_sources`, of a repository that is compatible
  abbrev pub plan_sources : Bool → List SourceIndexInput → IndexDb V → Option IndexPlan
  plan_sources rebuild sources db =
      build_index_plan sha256 profile rebuild (all_chunks sources)
        (stored_chunk_states (source_ids sources) db)

  abbrev pub applied : IndexPlan → Option (IndexDb V) → BuildOutcome V
  applied plan none = apply_failed
  applied plan (some db) = built plan db

  abbrev pub embedded :
      List SourceIndexInput → Bool → IndexPlan → Option (Dict Text V) → IndexDb V → BuildOutcome V
  embedded sources reset plan none db = embedding_failed
  embedded sources reset plan (some embeddings) db =
      applied plan (apply profile sources plan embeddings reset db)

  -- `_embed` is given, as what it returns for the plan.
  abbrev pub with_plan :
      List SourceIndexInput
      → (IndexPlan → Option (Dict Text V))
      → Bool
      → Option IndexPlan
      → IndexDb V
      → BuildOutcome V
  with_plan sources embed reset none db = duplicate_chunk_id
  with_plan sources embed reset (some plan) db = embedded sources reset plan (embed plan) db

  abbrev pub build_with :
      Compatibility
      → List SourceIndexInput
      → Bool
      → (IndexPlan → Option (Dict Text V))
      → IndexDb V
      → BuildOutcome V
  build_with refused sources rebuild embed db = index_profile_mismatch
  build_with out_of_scope sources rebuild embed db = rebuild_scope_error
  build_with same_profile sources rebuild embed db =
      with_plan sources embed false (plan_sources rebuild sources db) db
  build_with other_profile sources rebuild embed db =
      with_plan sources embed true (plan_sources rebuild sources db) db

  -- `KnowledgeIndexer.build`
  unfoldable pub build :
      List SourceIndexInput → Bool → (IndexPlan → Option (Dict Text V)) → IndexDb V → BuildOutcome V
  build sources rebuild embed db =
      build_with (ensure_profile_compatible profile rebuild (source_ids sources) db) sources rebuild
        embed db
