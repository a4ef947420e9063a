-- ===== src/Index/Examples.antt =====
-- An index with a stale chunk, and a source with a new one.
use zglab_rag.Prelude.{
  ℕ, ◌≡◌, All, refl, true, false, Option, none, some, List, [], ◌∷◌, Text, codes, take, text_eq,
  if◌then◌else◌,
}
use zglab_rag.Prelude.Dict.{Dict, lookup, insert}
use zglab_rag.Generation.Contracts.{public}
use zglab_rag.Index.Plan.{
  KnowledgeChunk, EmbeddingProfile, IndexPlan, contextual, StoredChunkState, planned, by_chunk_id,
  needs_embedding, build_index_plan, gone,
}
use zglab_rag.Index.Plan.Reference.{ids, has_duplicates}
use zglab_rag.Index.Plan.Described.{described, build_index_plan-described}
use zglab_rag.Index.Store.{
  KnowledgeDocument, SourceIndexInput, IndexDb, stored_chunk_states, source_ids, all_chunks,
  is_there,
}
use zglab_rag.Index.Store.Apply.{plan_sources, ensure_profile_compatible}
use zglab_rag.Index.Store.Keeps.{IsNamed}
use zglab_rag.Index.Store.Converges.{AreIngested}
use zglab_rag.Index.Store.Synced.{IsBrought, apply-IsBrought}
use zglab_rag.Index.Store.Builds.{Builds, build-Builds, IsCompatible}

-- A stand-in for the hash.
abbrev sha256 : Text → Text
sha256 t = take 9 t

abbrev profile : EmbeddingProfile
profile = record { profile_id = codes "ep"; composition = contextual }

-- The ids here have one letter for the source, one for the document and one for the chunk.
abbrev document_of : Text → Text
document_of k = take 2 k

abbrev source_of : Text → Text
source_of k = take 1 k

abbrev chunk : Text → KnowledgeChunk
chunk id = record {
  chunk_id = id;
  document_id = document_of id;
  source_id = source_of id;
  title = codes "T";
  section_path = [];
  content = id;
  visibility = public;
}

abbrev document : Text → KnowledgeDocument
document id = record { document_id = id; source_id = source_of id }

abbrev sources : List SourceIndexInput
sources =
    record {
      id = codes "s";
      revision = none;
      documents = document (codes "sd") ∷ [];
      chunks = chunk (codes "sda") ∷ [];
    }
    ∷ []

abbrev db : IndexDb ℕ
db = record {
  active_profile_id = none;
  sources = [];
  documents = (codes "se", document (codes "se")) ∷ [];
  chunks = (codes "sea", chunk (codes "sea")) ∷ [];
  states = [];
  vectors = [];
  words = [];
}

db-IsNamed : IsNamed document_of source_of db
db-IsNamed = record { its_chunks = (refl, tt); its_documents = (refl, tt) }

sources-AreIngested : AreIngested document_of source_of sources
sources-AreIngested = record {
  each = (
    record {
      its_documents = (refl, tt);
      its_chunks = (refl, tt);
      of_documents = (refl, tt);
      of_sources = (refl, tt);
    },
    tt,
  );
  together = ((λ e. refl, tt), tt);
}

abbrev stale : StoredChunkState
stale = record {
  chunk_id = codes "sea";
  source_id = codes "s";
  embedding_profile_id = none;
  embedding_input_hash = none;
}

abbrev plan : IndexPlan
plan = record {
  new = planned sha256 profile false (chunk (codes "sda")) ∷ [];
  changed = [];
  unchanged = [];
  deleted = stale ∷ [];
}

plan_sources-plan : plan_sources sha256 profile false sources db ≡ some plan
unfolding build_index_plan stored_chunk_states zglab_rag.Index.Plan.plan_from lookup insert
plan_sources-plan = refl

abbrev embeddings : Dict Text ℕ
embeddings = (codes "sda", 7) ∷ []

embeddings-plan :
    All (λ i. is_there (lookup i.chunk.chunk_id embeddings) ≡ true) (needs_embedding plan)
unfolding lookup
embeddings-plan = (refl, tt)

abbrev embed : IndexPlan → Option (Dict Text ℕ)
embed p = some embeddings

db-IsCompatible : IsCompatible (ensure_profile_compatible profile false (source_ids sources) db)
unfolding ensure_profile_compatible
db-IsCompatible = (λ e. cc, λ e. cc)

build_index_plan-described_example :
    build_index_plan sha256 profile false
      (all_chunks sources)
      (stored_chunk_states (source_ids sources) db)
    ≡ (if has_duplicates (ids (all_chunks sources))
        then none
        else some (
            described sha256 profile false
              (stored_chunk_states (source_ids sources) db)
              (all_chunks sources)))
build_index_plan-described_example =
    build_index_plan-described sha256 profile false (all_chunks sources)
      (stored_chunk_states (source_ids sources) db)

apply-IsBrought_example :
    IsBrought sha256 profile false false document_of source_of sources db plan embeddings
apply-IsBrought_example =
    apply-IsBrought sha256 profile false false document_of source_of sources db plan embeddings
      db-IsNamed sources-AreIngested (λ h. h) plan_sources-plan embeddings-plan

build-Builds_example : Builds sha256 profile false sources db embed plan
build-Builds_example =
    build-Builds sha256 profile false sources db embed plan embeddings document_of source_of
      db-IsNamed sources-AreIngested db-IsCompatible plan_sources-plan refl embeddings-plan
