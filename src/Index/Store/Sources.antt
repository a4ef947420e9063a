-- ===== src/Index/Store/Sources.antt =====
-- What `apply` of src/zglab_rag/storage/repositories.py starts from: the tables after a reset of the
-- vectors, and the chunks of all sources.
use zglab_rag.Prelude.{
  none, if◌then◌else◌, beq_refl, All-append, ◌≡◌, refl, Bool, true, false, List, [], ◌∷◌, ◌++◌,
  Text, text_eq, contains, All, arith,
}
use zglab_rag.Prelude.Dict.{lookup}
use zglab_rag.Prelude.Entries.{All-weaken}
use zglab_rag.Index.Plan.{KnowledgeChunk, PlannedChunk, StoredChunkState}
use zglab_rag.Index.Store.{SourceIndexInput, IndexDb, all_chunks}
use zglab_rag.Index.Store.Apply.{reset_vectors}
use zglab_rag.Index.Store.Keeps.{IsNamed}
use zglab_rag.Index.Store.Embedded.{item_ids}

module _ {V : Type 0} where
  pub reset_vectors-chunks : (b : Bool) (db : IndexDb V) → (reset_vectors b db).chunks ≡ db.chunks
  reset_vectors-chunks true db = refl
  reset_vectors-chunks false db = refl

  pub reset_vectors-words : (b : Bool) (db : IndexDb V) → (reset_vectors b db).words ≡ db.words
  reset_vectors-words true db = refl
  reset_vectors-words false db = refl

  pub reset_vectors-vectors :
      (b : Bool) (db : IndexDb V) (k : Text)
      → lookup k (reset_vectors b db).vectors ≡ (if b then none else lookup k db.vectors)
  unfolding lookup
  reset_vectors-vectors true db k = refl
  reset_vectors-vectors false db k = refl

  pub reset_vectors-IsNamed :
      (document_of source_of : Text → Text) (b : Bool) (db : IndexDb V)
      → IsNamed document_of source_of db
      → IsNamed document_of source_of (reset_vectors b db)
  reset_vectors-IsNamed document_of source_of true db n = record {
    its_chunks = n.its_chunks;
    its_documents = n.its_documents;
  }
  reset_vectors-IsNamed document_of source_of false db n = n

All-parts :
    (P : KnowledgeChunk → Type 0) (xs ys : List KnowledgeChunk)
    → All P (xs ++ ys)
    → All P xs × All P ys
All-parts P [] ys h = (tt, h)
All-parts P (x ∷ xs) ys h = let r = All-parts P xs ys h.1 in ((h.0, r.0), r.1)

pub by_source :
    (P : KnowledgeChunk → Type 0) (ss : List SourceIndexInput)
    → All P (all_chunks ss)
    → All (λ s. All P s.chunks) ss
by_source P [] h = tt
by_source P (s ∷ ss) h = let r = All-parts P s.chunks (all_chunks ss) h in (r.0, by_source P ss r.1)

pub all_of :
    (P : KnowledgeChunk → Type 0) (ss : List SourceIndexInput)
    → All (λ s. All P s.chunks) ss
    → All P (all_chunks ss)
all_of P [] h = tt
all_of P (s ∷ ss) h = All-append P s.chunks (all_chunks ss) h.0 (all_of P ss h.1)

pub has_item_id :
    (items : List PlannedChunk) → All (λ i. contains i.chunk.chunk_id (item_ids items) ≡ true) items
has_item_id [] = tt
has_item_id (i ∷ items) = (
  rw (beq_refl i.chunk.chunk_id) refl,
  All-weaken (λ d. contains d.chunk.chunk_id (item_ids items) ≡ true) _ items
      (λ d h. ground (arith, h)) (has_item_id items),
)

pub its_own_id : (ss : List StoredChunkState) → All (λ s. s.chunk_id ≡ s.chunk_id) ss
its_own_id [] = tt
its_own_id (s ∷ ss) = (refl, its_own_id ss)
