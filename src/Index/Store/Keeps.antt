-- ===== src/Index/Store/Keeps.antt =====
-- What the statements of src/zglab_rag/storage/repositories.py leave of one chunk and of its state.
use zglab_rag.Prelude.{
  if◌then◌else◌, ◌≡◌, refl, sym, ap, ◌∙◌, inl, inr, Bool, true, false, ◌||◌, not, Bool-cases,
  Option-cases, some, List, [], ◌∷◌, Text, ◌==◌, text_eq, contains, All, arith, beq_comm, and_true,
}
use zglab_rag.Prelude.Dict.{Dict, lookup, remove, lookup-insert, lookup-remove}
use zglab_rag.Prelude.Entries.{
  AllEntries, lookup-AllEntries, insert-AllEntries, remove-AllEntries, All-keep, lookup-keep,
}
use zglab_rag.Index.Plan.{KnowledgeChunk, StoredChunkState}
use zglab_rag.Index.Store.{
  KnowledgeDocument, SourceIndexInput, EmbeddingState, IndexDb, is_there, is_outside,
  none_or_outside, is_stale, stale_chunks, document_ids, upsert_document, upsert_documents,
  upsert_chunk, delete_chunk, delete_chunks, delete_document, delete_documents, stale_documents,
  delete_stale,
}

or_false : (a b : Bool) → (a || b) ≡ false → (a ≡ false) × (b ≡ false)
or_false a b h = ground arith

module _ (document_of source_of : Text → Text) where
  abbrev pub NamedDocument : KnowledgeDocument → Type 0
  NamedDocument d = d.source_id ≡ source_of d.document_id

  abbrev pub NamedChunk : KnowledgeChunk → Type 0
  NamedChunk c = c.document_id ≡ document_of c.chunk_id

  -- A document that the source has is not stale.
  not_stale :
      (s : SourceIndexInput) (x : Text) (ds : Dict Text KnowledgeDocument)
      → AllEntries (λ k d. d.source_id ≡ source_of k) ds
      → (source_of x ≡ s.id → contains x (document_ids s.documents) ≡ true)
      → contains x (stale_documents s.id (document_ids s.documents) ds) ≡ false
  not_stale s x [] n h = refl
  not_stale s x ((j, d) ∷ ds) n h =
      elim (Bool-cases (is_stale s.id (document_ids s.documents) (j, d))) [
        | inl t ↦
            let w =
              and_true (d.source_id == s.id) (not (contains j (document_ids s.documents))) t in
            elim (Bool-cases (x == j)) [
              | inl e ↦
                  let same : x ≡ j = (text_eq.beq_iff x j).0 e in
                  let mine =
                    h (ap source_of same ∙ sym n.0 ∙ (text_eq.beq_iff d.source_id s.id).0 w.0) in
                  ground
                    (arith, ap (λ y. contains y (document_ids s.documents)) same ∙ refl, mine, w.1)
              | inr e ↦ rw (t, e) (not_stale s x ds n.1 h)
            ]
        | inr t ↦ rw t (not_stale s x ds n.1 h)
      ]

removed_if :
    {A : Type 0} (b : Bool) (j k : Text) (d : Dict Text A)
    → (j == k) ≡ false
    → lookup k (if b then remove j d else d) ≡ lookup k d
removed_if true j k d h = lookup-remove j k d ∙ rw h refl
removed_if false j k d h = refl

module _ {V : Type 0} (ids : List Text) (k : Text) (x : KnowledgeChunk) where
  -- The row of the key is the chunk, of one of the sources.
  abbrev pub IsListed : IndexDb V → Type 0
  IsListed db = (lookup k db.chunks ≡ some x) × (contains x.source_id ids ≡ true)

  -- The row of the chunk stays, and so do its state, its words and its vector.
  pub record Keeps (db db' : IndexDb V) : Type 0 where
    pub listed : IsListed db → IsListed db'
    pub state : (s : EmbeddingState) → lookup k db.states ≡ some s → lookup k db'.states ≡ some s
    pub words : lookup k db'.words ≡ lookup k db.words
    pub vectors : lookup k db'.vectors ≡ lookup k db.vectors

  pub same-Keeps : (db : IndexDb V) → Keeps db db
  same-Keeps db = record { listed = λ h. h; state = λ s h. h; words = refl; vectors = refl }

  pub then-Keeps : (db db' db'' : IndexDb V) → Keeps db db' → Keeps db' db'' → Keeps db db''
  then-Keeps db db' db'' g h = record {
    listed = λ l. h.listed (g.listed l);
    state = λ s l. h.state s (g.state s l);
    words = h.words ∙ g.words;
    vectors = h.vectors ∙ g.vectors;
  }

  pub upsert_documents-Keeps :
      (ds : List KnowledgeDocument) (db : IndexDb V) → Keeps db (upsert_documents ds db)
  upsert_documents-Keeps [] db = same-Keeps db
  upsert_documents-Keeps (d ∷ ds) db =
      then-Keeps db (upsert_document d db) (upsert_documents ds (upsert_document d db))
        (record { listed = λ h. h; state = λ s h. h; words = refl; vectors = refl })
        (upsert_documents-Keeps ds (upsert_document d db))

  -- An upsert of a chunk, which is this one if it has the key.
  pub upsert_chunk-Keeps :
      (c : KnowledgeChunk) (db : IndexDb V)
      → ((c.chunk_id == k) ≡ true → c ≡ x)
      → Keeps db (upsert_chunk c db)
  upsert_chunk-Keeps c db h = record {
    listed = λ l. (
      elim (Bool-cases (c.chunk_id == k)) [
        | inl e ↦ lookup-insert c.chunk_id k c db.chunks ∙ rw e (ap some (h e))
        | inr e ↦ lookup-insert c.chunk_id k c db.chunks ∙ rw e l.0
      ],
      l.1,
    );
    state = λ s l. l;
    words = refl;
    vectors = refl;
  }

  delete_chunk-Keeps : (j : Text) (db : IndexDb V) → (k == j) ≡ false → Keeps db (delete_chunk j db)
  delete_chunk-Keeps j db h =
      let e : (j == k) ≡ false = beq_comm j k ∙ h in
      record {
        listed = λ l. (lookup-remove j k db.chunks ∙ rw e l.0, l.1);
        state = λ s l. lookup-remove j k db.states ∙ rw e l;
        words = removed_if (is_there (lookup j db.chunks)) j k db.words e;
        vectors = removed_if (is_there (lookup j db.chunks)) j k db.vectors e;
      }

  delete_chunks-Keeps :
      (ks : List Text) (db : IndexDb V) → contains k ks ≡ false → Keeps db (delete_chunks ks db)
  delete_chunks-Keeps [] db h = same-Keeps db
  delete_chunks-Keeps (j ∷ ks) db h =
      let w = or_false (k == j) (contains k ks) h in
      then-Keeps db (delete_chunk j db) (delete_chunks ks (delete_chunk j db))
        (delete_chunk-Keeps j db w.0) (delete_chunks-Keeps ks (delete_chunk j db) w.1)

-- An id of a chunk has that of its document in it, and that one the source's.
module _ {V : Type 0} (document_of source_of : Text → Text) where
  pub record IsNamed (db : IndexDb V) : Type 0 where
    pub its_chunks : AllEntries (λ k c. c.document_id ≡ document_of k) db.chunks
    pub its_documents : AllEntries (λ k d. d.source_id ≡ source_of k) db.documents

  upsert_document-IsNamed :
      (d : KnowledgeDocument) (db : IndexDb V)
      → NamedDocument document_of source_of d
      → IsNamed db
      → IsNamed (upsert_document d db)
  upsert_document-IsNamed d db h n = record {
    its_chunks = n.its_chunks;
    its_documents =
        insert-AllEntries (λ k d. d.source_id ≡ source_of k) d.document_id d db.documents
          n.its_documents h;
  }

  pub upsert_documents-IsNamed :
      (ds : List KnowledgeDocument) (db : IndexDb V)
      → All (NamedDocument document_of source_of) ds
      → IsNamed db
      → IsNamed (upsert_documents ds db)
  upsert_documents-IsNamed [] db h n = n
  upsert_documents-IsNamed (d ∷ ds) db h n =
      upsert_documents-IsNamed ds (upsert_document d db) h.1 (upsert_document-IsNamed d db h.0 n)

  pub upsert_chunk-IsNamed :
      (c : KnowledgeChunk) (db : IndexDb V)
      → NamedChunk document_of source_of c
      → IsNamed db
      → IsNamed (upsert_chunk c db)
  upsert_chunk-IsNamed c db h n = record {
    its_chunks =
        insert-AllEntries (λ k c. c.document_id ≡ document_of k) c.chunk_id c db.chunks n.its_chunks
          h;
    its_documents = n.its_documents;
  }

  delete_chunk-IsNamed : (k : Text) (db : IndexDb V) → IsNamed db → IsNamed (delete_chunk k db)
  delete_chunk-IsNamed k db n = record {
    its_chunks = remove-AllEntries (λ k c. c.document_id ≡ document_of k) k db.chunks n.its_chunks;
    its_documents = n.its_documents;
  }

  delete_chunks-IsNamed :
      (ks : List Text) (db : IndexDb V) → IsNamed db → IsNamed (delete_chunks ks db)
  delete_chunks-IsNamed [] db n = n
  delete_chunks-IsNamed (k ∷ ks) db n =
      delete_chunks-IsNamed ks (delete_chunk k db) (delete_chunk-IsNamed k db n)

  delete_document-IsNamed :
      (k : Text) (db : IndexDb V) → IsNamed db → IsNamed (delete_document k db)
  delete_document-IsNamed k db n = record {
    its_chunks =
        All-keep (λ x. x.1.document_id ≡ document_of x.0) (λ row. is_outside k row.1) db.chunks
          n.its_chunks;
    its_documents =
        remove-AllEntries (λ k d. d.source_id ≡ source_of k) k db.documents n.its_documents;
  }

  delete_documents-IsNamed :
      (ks : List Text) (db : IndexDb V) → IsNamed db → IsNamed (delete_documents ks db)
  delete_documents-IsNamed [] db n = n
  delete_documents-IsNamed (k ∷ ks) db n =
      delete_documents-IsNamed ks (delete_document k db) (delete_document-IsNamed k db n)

  pub delete_stale-IsNamed :
      (deleted : List StoredChunkState) (s : SourceIndexInput) (db : IndexDb V)
      → IsNamed db
      → IsNamed (delete_stale deleted s db)
  unfolding delete_stale
  delete_stale-IsNamed deleted s db n =
      let db' = delete_chunks (stale_chunks s.id deleted) db in
      delete_documents-IsNamed (stale_documents s.id (document_ids s.documents) db'.documents) db'
        (delete_chunks-IsNamed (stale_chunks s.id deleted) db n)

  module _ (ids : List Text) (k : Text) (x : KnowledgeChunk) where
    -- The chunk is of another document.
    outside :
        (j : Text) (db : IndexDb V) (r : KnowledgeChunk)
        → IsNamed db
        → (document_of k == j) ≡ false
        → lookup k db.chunks ≡ some r
        → is_outside j r ≡ true
    outside j db r n h l =
        rw
          (lookup-AllEntries (λ k c. c.document_id ≡ document_of k) k r db.chunks n.its_chunks l, h)
          refl

    delete_document-Keeps :
        (j : Text) (db : IndexDb V)
        → IsNamed db
        → (document_of k == j) ≡ false
        → Keeps ids k x db (delete_document j db)
    delete_document-Keeps j db n h = record {
      listed = λ l.
          (lookup-keep (λ y c. is_outside j c) k x db.chunks l.0 (outside j db x n h l.0), l.1);
      state = λ s l.
          lookup-keep (λ y v. none_or_outside j (lookup y db.chunks)) k s db.states l
            (elim (Option-cases (lookup k db.chunks)) [
              | inl e ↦ rw e refl
              | inr (r, e) ↦ rw e (outside j db r n h e)
            ]);
      words = refl;
      vectors = refl;
    }

    delete_documents-Keeps :
        (ks : List Text) (db : IndexDb V)
        → IsNamed db
        → contains (document_of k) ks ≡ false
        → Keeps ids k x db (delete_documents ks db)
    delete_documents-Keeps [] db n h = same-Keeps ids k x db
    delete_documents-Keeps (j ∷ ks) db n h =
        let w = or_false (document_of k == j) (contains (document_of k) ks) h in
        then-Keeps ids k x db (delete_document j db) (delete_documents ks (delete_document j db))
          (delete_document-Keeps j db n w.0)
          (delete_documents-Keeps ks (delete_document j db) (delete_document-IsNamed j db n) w.1)

    -- Of a chunk that is not to be deleted, and whose document is not stale.
    pub delete_stale-Keeps :
        (deleted : List StoredChunkState) (s : SourceIndexInput) (db : IndexDb V)
        → IsNamed db
        → contains k (stale_chunks s.id deleted) ≡ false
        → (source_of (document_of k) ≡ s.id
            → contains (document_of k) (document_ids s.documents) ≡ true)
        → Keeps ids k x db (delete_stale deleted s db)
    unfolding delete_stale
    delete_stale-Keeps deleted s db n h w =
        let db' = delete_chunks (stale_chunks s.id deleted) db in
        let n' = delete_chunks-IsNamed (stale_chunks s.id deleted) db n in
        let ks = stale_documents s.id (document_ids s.documents) db'.documents in
        then-Keeps ids k x db db' (delete_documents ks db')
          (delete_chunks-Keeps ids k x (stale_chunks s.id deleted) db h)
          (delete_documents-Keeps ks db' n'
            (not_stale document_of source_of s (document_of k) db'.documents n'.its_documents w))
