-- ===== src/Index/Store.antt =====
-- The tables of the index, and the statements of `IndexRepository` of src/zglab_rag/storage/repositories.py. A table with a unique text is keyed by it; the rows of the vectors
-- and of the words, which have the id of a row of `chunks`, are keyed by its `chunk_id`.
pub mod Apply
pub mod Keeps
pub mod Applied
pub mod Stale
pub mod Embedded
pub mod Chosen
pub mod Sources
pub mod Synced
pub mod Builds
pub mod Converges
use zglab_rag.Prelude.{
  Bool, true, false, ◌&&◌, not, Option, none, some, List, [], ◌∷◌, ◌++◌, map, Text, codes, ◌==◌,
  text_eq, if◌then◌else◌, contains, keep,
}
use zglab_rag.Prelude.Dict.{Dict, lookup, insert, remove}
use zglab_rag.Generation.Context.{join}
use zglab_rag.Index.Plan.{
  KnowledgeChunk, EmbeddingProfile, PlannedChunk, StoredChunkState, IndexPlan, needs_embedding,
  build_index_plan,
}

pub record KnowledgeDocument : Type 0 where
  pub document_id : Text
  pub source_id : Text

pub record SourceIndexInput : Type 0 where
  pub id : Text
  pub revision : Option Text
  pub documents : List KnowledgeDocument
  pub chunks : List KnowledgeChunk

-- A row of `chunk_embedding_state`.
pub record EmbeddingState : Type 0 where
  pub embedding_profile_id : Text
  pub embedding_input_hash : Text

-- A row of `fts_chunks`.
pub record Words : Type 0 where
  pub title : Text
  pub section_path : Text
  pub content : Text

pub record IndexDb (V : Type 0) : Type 0 where
  pub active_profile_id : Option Text
  pub sources : Dict Text (Option Text)
  pub documents : Dict Text KnowledgeDocument
  pub chunks : Dict Text KnowledgeChunk
  pub states : Dict Text EmbeddingState
  pub vectors : Dict Text V
  pub words : Dict Text Words

abbrev pub profile_of : Option EmbeddingState → Option Text
profile_of none = none
profile_of (some s) = some s.embedding_profile_id

abbrev pub hash_of : Option EmbeddingState → Option Text
hash_of none = none
hash_of (some s) = some s.embedding_input_hash

-- The row of a chunk, joined with its state.
abbrev pub joined : Dict Text EmbeddingState → Text × KnowledgeChunk → StoredChunkState
joined states (chunk_id, c) = record {
  chunk_id = chunk_id;
  source_id = c.source_id;
  embedding_profile_id = profile_of (lookup chunk_id states);
  embedding_input_hash = hash_of (lookup chunk_id states);
}

abbrev pub all_chunks : List SourceIndexInput → List KnowledgeChunk
all_chunks [] = []
all_chunks (s ∷ ss) = s.chunks ++ all_chunks ss

abbrev pub document_ids : List KnowledgeDocument → List Text
document_ids documents = map (λ d. d.document_id) documents

abbrev pub source_ids : List SourceIndexInput → List Text
source_ids sources = map (λ s. s.id) sources

abbrev pub is_of : List Text → Text × KnowledgeChunk → Bool
is_of ids row = contains row.1.source_id ids

abbrev pub is_stale : Text → List Text → Text × KnowledgeDocument → Bool
is_stale source_id current row = row.1.source_id == source_id && not (contains row.0 current)

-- The rows that the deletion of a document leaves, of its chunks and of their states.
abbrev pub is_outside : Text → KnowledgeChunk → Bool
is_outside document_id c = not (c.document_id == document_id)

abbrev pub none_or_outside : Text → Option KnowledgeChunk → Bool
none_or_outside document_id none = true
none_or_outside document_id (some c) = is_outside document_id c

abbrev pub is_there {ℓ} : {A : Type ℓ} → Option A → Bool
is_there none = false
is_there (some a) = true

abbrev pub stale_chunks : Text → List StoredChunkState → List Text
stale_chunks source_id deleted =
    map (λ x. x.chunk_id) (keep (λ x. x.source_id == source_id) deleted)

abbrev pub words_of : KnowledgeChunk → Words
words_of c = record {
  title = c.title;
  section_path = join (codes " > ") c.section_path;
  content = c.content;
}

-- The ids that `_delete_stale_documents` deletes.
abbrev pub stale_documents : Text → List Text → Dict Text KnowledgeDocument → List Text
stale_documents source_id current documents =
    map (λ row. row.0) (keep (is_stale source_id current) documents)

module _ {V : Type 0} where
  -- `stored_chunk_states`; with no ids, it gives no rows.
  unfoldable pub stored_chunk_states : List Text → IndexDb V → List StoredChunkState
  stored_chunk_states ids db = map (joined db.states) (keep (is_of ids) db.chunks)

  -- `_upsert_source`
  abbrev pub upsert_source : SourceIndexInput → IndexDb V → IndexDb V
  upsert_source s db = record db { sources = insert s.id s.revision db.sources }

  -- `_upsert_document`
  abbrev pub upsert_document : KnowledgeDocument → IndexDb V → IndexDb V
  upsert_document d db = record db { documents = insert d.document_id d db.documents }

  abbrev pub upsert_documents : List KnowledgeDocument → IndexDb V → IndexDb V
  upsert_documents [] db = db
  upsert_documents (d ∷ ds) db = upsert_documents ds (upsert_document d db)

  -- `_upsert_chunk`
  abbrev pub upsert_chunk : KnowledgeChunk → IndexDb V → IndexDb V
  upsert_chunk c db = record db { chunks = insert c.chunk_id c db.chunks }

  -- `_upsert_chunk`, for each; `none` is the failure of the foreign key on documents.
  unfoldable pub upsert_chunks : List KnowledgeChunk → IndexDb V → Option (IndexDb V)
  upsert_chunks [] db = some db
  upsert_chunks (c ∷ cs) db =
      let rest = upsert_chunks cs (upsert_chunk c db) in
      if is_there (lookup c.document_id db.documents) then rest else none

  -- One round of `_delete_stale_chunks`.
  abbrev pub delete_chunk : Text → IndexDb V → IndexDb V
  delete_chunk k db = record db {
    vectors = if is_there (lookup k db.chunks) then remove k db.vectors else db.vectors;
    words = if is_there (lookup k db.chunks) then remove k db.words else db.words;
    states = remove k db.states;
    chunks = remove k db.chunks;
  }

  abbrev pub delete_chunks : List Text → IndexDb V → IndexDb V
  delete_chunks [] db = db
  delete_chunks (k ∷ ks) db = delete_chunks ks (delete_chunk k db)

  -- `DELETE FROM documents`, with what it cascades to: chunks and states.
  abbrev pub delete_document : Text → IndexDb V → IndexDb V
  delete_document k db = record db {
    documents = remove k db.documents;
    states = keep (λ row. none_or_outside k (lookup row.0 db.chunks)) db.states;
    chunks = keep (λ row. is_outside k row.1) db.chunks;
  }

  abbrev pub delete_documents : List Text → IndexDb V → IndexDb V
  delete_documents [] db = db
  delete_documents (k ∷ ks) db = delete_documents ks (delete_document k db)

  -- `_delete_stale_chunks`, then `_delete_stale_documents`
  unfoldable pub delete_stale : List StoredChunkState → SourceIndexInput → IndexDb V → IndexDb V
  delete_stale deleted s db =
      let db' = delete_chunks (stale_chunks s.id deleted) db in
      delete_documents (stale_documents s.id (document_ids s.documents) db'.documents) db'
