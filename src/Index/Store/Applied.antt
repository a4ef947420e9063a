-- ===== src/Index/Store/Applied.antt =====
-- The loop of `apply` of src/zglab_rag/storage/repositories.py over the sources: it fails for no sources
-- that ingestion gives, and it keeps the chunks of these sources and their states.
use zglab_rag.Prelude.{
  ◌≡◌, refl, ap, ◌∙◌, inl, inr, true, false, ◌||◌, Bool-cases, some, List, [], ◌∷◌, ◌++◌, Text,
  ◌==◌, text_eq, contains, contains-append, All, arith, beq_comm,
}
use zglab_rag.Prelude.Dict.{lookup, lookup-insert}
use zglab_rag.Index.Plan.{KnowledgeChunk, StoredChunkState}
use zglab_rag.Index.Plan.Reference.{ids}
use zglab_rag.Index.Plan.Collected.{state_ids}
use zglab_rag.Index.Store.{
  KnowledgeDocument, SourceIndexInput, IndexDb, is_there, stale_chunks, document_ids, all_chunks,
  upsert_source, upsert_document, upsert_documents, upsert_chunk, upsert_chunks, delete_stale,
}
use zglab_rag.Index.Store.Apply.{apply_source, apply_sources}
use zglab_rag.Index.Store.Keeps.{
  IsNamed, NamedDocument, NamedChunk, IsListed, Keeps, same-Keeps, then-Keeps,
  upsert_documents-IsNamed, upsert_chunk-IsNamed, delete_stale-IsNamed, upsert_documents-Keeps,
  upsert_chunk-Keeps, delete_stale-Keeps,
}

ids-append : (cs ds : List KnowledgeChunk) → ids (cs ++ ds) ≡ ids cs ++ ids ds
ids-append [] ds = refl
ids-append (c ∷ cs) ds = ap (λ l. c.chunk_id ∷ l) (ids-append cs ds)

not_deleted :
    (k source_id : Text) (deleted : List StoredChunkState)
    → contains k (state_ids deleted) ≡ false
    → contains k (stale_chunks source_id deleted) ≡ false
not_deleted k source_id [] h = refl
not_deleted k source_id (x ∷ xs) h = elim (Bool-cases (x.source_id == source_id)) [
  | inl e ↦ rw e (ground (arith, h, not_deleted k source_id xs))
  | inr e ↦ rw e (ground (arith, h, not_deleted k source_id xs))
]

module _ {V : Type 0} where
  -- The upserts of chunks, where none fails.
  abbrev pub put_chunks : List KnowledgeChunk → IndexDb V → IndexDb V
  put_chunks [] db = db
  put_chunks (c ∷ cs) db = put_chunks cs (upsert_chunk c db)

  upsert_chunks-put :
      (cs : List KnowledgeChunk) (db : IndexDb V)
      → All (λ c. is_there (lookup c.document_id db.documents) ≡ true) cs
      → upsert_chunks cs db ≡ some (put_chunks cs db)
  unfolding upsert_chunks
  upsert_chunks-put [] db h = refl
  upsert_chunks-put (c ∷ cs) db h = rw h.0 (upsert_chunks-put cs (upsert_chunk c db) h.1)

  upsert_documents-there :
      (x : Text) (ds : List KnowledgeDocument) (db : IndexDb V)
      → (contains x (document_ids ds) || is_there (lookup x db.documents)) ≡ true
      → is_there (lookup x (upsert_documents ds db).documents) ≡ true
  upsert_documents-there x [] db h = h
  upsert_documents-there x (d ∷ ds) db h = upsert_documents-there x ds (upsert_document d db) (
      ground (
        arith,
        ap is_there (lookup-insert d.document_id x d db.documents),
        beq_comm x d.document_id,
      ))

module _ (document_of source_of : Text → Text) (of : List Text) where
  -- What ingestion gives for a source: names as they are made, and every chunk of a document and of a
  -- source that are there.
  pub record IsIngested (s : SourceIndexInput) : Type 0 where
    pub its_documents : All (NamedDocument document_of source_of) s.documents
    pub its_chunks : All (NamedChunk document_of source_of) s.chunks
    pub of_documents : All (λ c. contains c.document_id (document_ids s.documents) ≡ true) s.chunks
    pub of_sources : All (λ c. contains c.source_id of ≡ true) s.chunks

module _ (document_of source_of : Text → Text) where
  -- The source has the document of the key, if it is of that source.
  abbrev pub HasDocument : Text → SourceIndexInput → Type 0
  HasDocument k s =
      source_of (document_of k) ≡ s.id → contains (document_of k) (document_ids s.documents) ≡ true

module _ {V : Type 0} (deleted : List StoredChunkState) where
  abbrev pub put_source : SourceIndexInput → IndexDb V → IndexDb V
  put_source s db =
      delete_stale deleted s
        (put_chunks s.chunks (upsert_documents s.documents (upsert_source s db)))

  abbrev pub put_sources : List SourceIndexInput → IndexDb V → IndexDb V
  put_sources [] db = db
  put_sources (s ∷ ss) db = put_sources ss (put_source s db)

-- The chunks of the key are the one chunk.
abbrev pub AreOne : Text → KnowledgeChunk → List KnowledgeChunk → Type 0
AreOne k x cs = All (λ d. (d.chunk_id == k) ≡ true → d ≡ x) cs

module _ {V : Type 0} (document_of source_of : Text → Text) (of : List Text)
    (deleted : List StoredChunkState) where
  all_there :
      (s : SourceIndexInput) (cs : List KnowledgeChunk) (db : IndexDb V)
      → All (λ c. contains c.document_id (document_ids s.documents) ≡ true) cs
      → All
          (λ c. is_there (lookup c.document_id (upsert_documents s.documents db).documents) ≡ true)
          cs
  all_there s [] db h = tt
  all_there s (c ∷ cs) db h =
      (upsert_documents-there c.document_id s.documents db (rw h.0 refl), all_there s cs db h.1)

  apply_source-put :
      (s : SourceIndexInput) (db : IndexDb V)
      → IsIngested document_of source_of of s
      → apply_source deleted s db ≡ some (put_source deleted s db)
  unfolding apply_source
  apply_source-put s db i =
      rw
        (upsert_chunks-put s.chunks (upsert_documents s.documents (upsert_source s db))
          (all_there s s.chunks (upsert_source s db) i.of_documents))
        refl

  pub apply_sources-put :
      (ss : List SourceIndexInput) (db : IndexDb V)
      → All (IsIngested document_of source_of of) ss
      → apply_sources deleted ss db ≡ some (put_sources deleted ss db)
  unfolding apply_sources
  apply_sources-put [] db i = refl
  apply_sources-put (s ∷ ss) db i =
      rw (apply_source-put s db i.0) (apply_sources-put ss (put_source deleted s db) i.1)

  put_chunks-IsNamed :
      (cs : List KnowledgeChunk) (db : IndexDb V)
      → All (NamedChunk document_of source_of) cs
      → IsNamed document_of source_of db
      → IsNamed document_of source_of (put_chunks cs db)
  put_chunks-IsNamed [] db h n = n
  put_chunks-IsNamed (c ∷ cs) db h n =
      put_chunks-IsNamed cs (upsert_chunk c db) h.1
        (upsert_chunk-IsNamed document_of source_of c db h.0 n)

  upserted-IsNamed :
      (s : SourceIndexInput) (db : IndexDb V)
      → IsIngested document_of source_of of s
      → IsNamed document_of source_of db
      → IsNamed document_of source_of
          (put_chunks s.chunks (upsert_documents s.documents (upsert_source s db)))
  upserted-IsNamed s db i n =
      put_chunks-IsNamed s.chunks (upsert_documents s.documents (upsert_source s db)) i.its_chunks (
        upsert_documents-IsNamed document_of source_of s.documents (upsert_source s db)
          i.its_documents (record { its_chunks = n.its_chunks; its_documents = n.its_documents }))

  put_source-IsNamed :
      (s : SourceIndexInput) (db : IndexDb V)
      → IsIngested document_of source_of of s
      → IsNamed document_of source_of db
      → IsNamed document_of source_of (put_source deleted s db)
  put_source-IsNamed s db i n =
      delete_stale-IsNamed document_of source_of deleted s
        (put_chunks s.chunks (upsert_documents s.documents (upsert_source s db)))
        (upserted-IsNamed s db i n)

  module _ (k : Text) (x : KnowledgeChunk) where
    put_chunks-Keeps :
        (cs : List KnowledgeChunk) (db : IndexDb V)
        → AreOne k x cs
        → Keeps of k x db (put_chunks cs db)
    put_chunks-Keeps [] db h = same-Keeps of k x db
    put_chunks-Keeps (c ∷ cs) db h =
        then-Keeps of k x db (upsert_chunk c db) (put_chunks cs (upsert_chunk c db))
          (upsert_chunk-Keeps of k x c db h.0) (put_chunks-Keeps cs (upsert_chunk c db) h.1)

    -- The chunk of the key is upserted.
    put_chunks-IsListed :
        (cs : List KnowledgeChunk) (db : IndexDb V)
        → contains x.source_id of ≡ true
        → AreOne k x cs
        → contains k (ids cs) ≡ true
        → IsListed of k x (put_chunks cs db)
    put_chunks-IsListed [] db u h w = cc
    put_chunks-IsListed (c ∷ cs) db u h w = elim (Bool-cases (c.chunk_id == k)) [
      | inl e ↦
          (put_chunks-Keeps cs (upsert_chunk c db) h.1).listed
            (lookup-insert c.chunk_id k c db.chunks ∙ rw e (ap some (h.0 e)), u)
      | inr e ↦
          put_chunks-IsListed cs (upsert_chunk c db) u h.1
            (ground (arith, w, e, beq_comm k c.chunk_id))
    ]

    module _ (stays : contains k (state_ids deleted) ≡ false) where
      deletes_not :
          (s : SourceIndexInput) (db : IndexDb V)
          → IsNamed document_of source_of db
          → HasDocument document_of source_of k s
          → Keeps of k x db (delete_stale deleted s db)
      deletes_not s db n w =
          delete_stale-Keeps document_of source_of of k x deleted s db n
            (not_deleted k s.id deleted stays) w

      put_source-Keeps :
          (s : SourceIndexInput) (db : IndexDb V)
          → IsIngested document_of source_of of s
          → AreOne k x s.chunks
          → HasDocument document_of source_of k s
          → IsNamed document_of source_of db
          → Keeps of k x db (put_source deleted s db)
      put_source-Keeps s db i u w n =
          let db1 = upsert_documents s.documents (upsert_source s db) in
          let db2 = put_chunks s.chunks db1 in
          then-Keeps of k x db db1 (put_source deleted s db)
            (then-Keeps of k x db (upsert_source s db) db1
              (record { listed = λ l. l; state = λ e l. l; words = refl; vectors = refl })
              (upsert_documents-Keeps of k x s.documents (upsert_source s db)))
            (then-Keeps of k x db1 db2 (put_source deleted s db) (put_chunks-Keeps s.chunks db1 u)
              (deletes_not s db2 (upserted-IsNamed s db i n) w))

      put_source-IsListed :
          (s : SourceIndexInput) (db : IndexDb V)
          → IsIngested document_of source_of of s
          → AreOne k x s.chunks
          → HasDocument document_of source_of k s
          → IsNamed document_of source_of db
          → contains x.source_id of ≡ true
          → contains k (ids s.chunks) ≡ true
          → IsListed of k x (put_source deleted s db)
      put_source-IsListed s db i u w n v h =
          let db1 = upsert_documents s.documents (upsert_source s db) in
          (deletes_not s (put_chunks s.chunks db1) (upserted-IsNamed s db i n) w).listed
            (put_chunks-IsListed s.chunks db1 v u h)

      pub put_sources-Keeps :
          (ss : List SourceIndexInput) (db : IndexDb V)
          → All (IsIngested document_of source_of of) ss
          → All (λ s. AreOne k x s.chunks) ss
          → All (HasDocument document_of source_of k) ss
          → IsNamed document_of source_of db
          → Keeps of k x db (put_sources deleted ss db)
      put_sources-Keeps [] db i u w n = same-Keeps of k x db
      put_sources-Keeps (s ∷ ss) db i u w n =
          then-Keeps of k x db (put_source deleted s db)
            (put_sources deleted ss (put_source deleted s db)) (put_source-Keeps s db i.0 u.0 w.0 n)
            (put_sources-Keeps ss (put_source deleted s db) i.1 u.1 w.1
              (put_source-IsNamed s db i.0 n))

      pub put_sources-IsListed :
          (ss : List SourceIndexInput) (db : IndexDb V)
          → All (IsIngested document_of source_of of) ss
          → All (λ s. AreOne k x s.chunks) ss
          → All (HasDocument document_of source_of k) ss
          → IsNamed document_of source_of db
          → contains x.source_id of ≡ true
          → contains k (ids (all_chunks ss)) ≡ true
          → IsListed of k x (put_sources deleted ss db)
      put_sources-IsListed [] db i u w n v h = cc
      put_sources-IsListed (s ∷ ss) db i u w n v h = elim (Bool-cases (contains k (ids s.chunks))) [
        | inl e ↦
            (put_sources-Keeps ss (put_source deleted s db) i.1 u.1 w.1
                (put_source-IsNamed s db i.0 n)).listed
              (put_source-IsListed s db i.0 u.0 w.0 n v e)
        | inr e ↦
            put_sources-IsListed ss (put_source deleted s db) i.1 u.1 w.1
              (put_source-IsNamed s db i.0 n) v
              (ground (
                arith,
                h,
                e,
                ap (contains k) (ids-append s.chunks (all_chunks ss)),
                contains-append k (ids s.chunks) (ids (all_chunks ss)),
              ))
      ]
