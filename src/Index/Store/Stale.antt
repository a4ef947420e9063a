-- ===== src/Index/Store/Stale.antt =====
-- That `apply` of src/zglab_rag/storage/repositories.py leaves no chunk of the sources but the current ones.
use zglab_rag.Prelude.{
  ◌≡◌, refl, ◌∙◌, inl, inr, Bool, true, false, ◌&&◌, ◌||◌, Bool-cases, or_right, List, [], ◌∷◌, map,
  Text, ◌==◌, text_eq, beq_comm, beq_refl, contains, any, keep, All, arith,
}
use zglab_rag.Prelude.Dict.{Dict, remove}
use zglab_rag.Prelude.Entries.{
  AllEntries, insert-AllEntries, remove-AllEntries, remove-no_key, All-keep, All-weaken, All-both,
}
use zglab_rag.Index.Plan.{KnowledgeChunk, StoredChunkState, by_chunk_id, gone}
use zglab_rag.Index.Plan.Collected.{state_ids, by_chunk_id-AllEntries, is_key-by_chunk_id, any-gone}
use zglab_rag.Index.Store.{
  KnowledgeDocument, SourceIndexInput, EmbeddingState, IndexDb, stale_chunks, document_ids,
  source_ids, is_of, joined, upsert_source, upsert_document, upsert_documents, upsert_chunk,
  delete_chunk, delete_chunks, delete_document, delete_documents, stale_documents, delete_stale,
  stored_chunk_states,
}
use zglab_rag.Index.Store.Applied.{put_chunks, put_source, put_sources}

module _ {V : Type 0} where
  delete_chunks-AllEntries :
      (P : Text → KnowledgeChunk → Type 0) (ks : List Text) (db : IndexDb V)
      → AllEntries P db.chunks
      → AllEntries (λ x c. P x c × (contains x ks ≡ false)) (delete_chunks ks db).chunks
  delete_chunks-AllEntries P [] db a =
      All-weaken (λ x. P x.0 x.1) (λ x. P x.0 x.1 × (false ≡ false)) db.chunks (λ x p. (p, refl)) a
  delete_chunks-AllEntries P (k ∷ ks) db a =
      All-weaken (λ x. (P x.0 x.1 × ((x.0 == k) ≡ false)) × (contains x.0 ks ≡ false))
        (λ x. P x.0 x.1 × (contains x.0 (k ∷ ks) ≡ false))
        (delete_chunks ks (delete_chunk k db)).chunks (λ x p. (p.0.0, ground (arith, p.0.1, p.1)))
        (delete_chunks-AllEntries (λ x c. P x c × ((x == k) ≡ false)) ks (delete_chunk k db)
          (All-both (λ x. P x.0 x.1) (λ x. (x.0 == k) ≡ false) (remove k db.chunks)
            (remove-AllEntries P k db.chunks a) (remove-no_key k db.chunks)))

  module _ (P : Text → KnowledgeChunk → Type 0) where
    delete_documents-AllEntries :
        (ks : List Text) (db : IndexDb V)
        → AllEntries P db.chunks
        → AllEntries P (delete_documents ks db).chunks
    delete_documents-AllEntries [] db a = a
    delete_documents-AllEntries (k ∷ ks) db a =
        delete_documents-AllEntries ks (delete_document k db)
          (All-keep (λ x. P x.0 x.1) _ db.chunks a)

    upsert_documents-AllEntries :
        (ds : List KnowledgeDocument) (db : IndexDb V)
        → AllEntries P db.chunks
        → AllEntries P (upsert_documents ds db).chunks
    upsert_documents-AllEntries [] db a = a
    upsert_documents-AllEntries (d ∷ ds) db a =
        upsert_documents-AllEntries ds (upsert_document d db) a

    put_chunks-AllEntries :
        (cs : List KnowledgeChunk) (db : IndexDb V)
        → All (λ c. P c.chunk_id c) cs
        → AllEntries P db.chunks
        → AllEntries P (put_chunks cs db).chunks
    put_chunks-AllEntries [] db h a = a
    put_chunks-AllEntries (c ∷ cs) db h a =
        put_chunks-AllEntries cs (upsert_chunk c db) h.1
          (insert-AllEntries P c.chunk_id c db.chunks a h.0)

-- The chunk is to be deleted with one of the sources.
abbrev pub is_pending : List StoredChunkState → List Text → Text → Bool
is_pending deleted sources k = any (λ x. x.chunk_id == k && contains x.source_id sources) deleted

pub is_pending-nil : (deleted : List StoredChunkState) (k : Text) → is_pending deleted [] k ≡ false
is_pending-nil [] k = refl
is_pending-nil (x ∷ xs) k = ground (arith, is_pending-nil xs k)

is_pending-cons :
    (deleted : List StoredChunkState) (s : Text) (ss : List Text) (k : Text)
    → is_pending deleted (s ∷ ss) k ≡ contains k (stale_chunks s deleted) || is_pending deleted ss k
is_pending-cons [] s ss k = refl
is_pending-cons (x ∷ xs) s ss k = ground (arith, is_pending-cons xs s ss k, beq_comm k x.chunk_id)

module _ (deleted : List StoredChunkState) (of current : List Text) where
  -- A chunk of the sources is current or is still to be deleted.
  abbrev pub Settles : List Text → Text → KnowledgeChunk → Type 0
  Settles sources k c =
      contains c.source_id of ≡ true → (contains k current || is_pending deleted sources k) ≡ true

  current-Settles :
      (ss : List Text) (cs : List KnowledgeChunk)
      → All (λ c. contains c.chunk_id current ≡ true) cs
      → All (λ c. Settles ss c.chunk_id c) cs
  current-Settles ss cs h =
      All-weaken (λ c. contains c.chunk_id current ≡ true) (λ c. Settles ss c.chunk_id c) cs
        (λ c e o. rw e refl) h

  settled :
      (s : Text) (ss : List Text) (k : Text) (c : KnowledgeChunk)
      → Settles (s ∷ ss) k c
      → contains k (stale_chunks s deleted) ≡ false
      → Settles ss k c
  settled s ss k c h n o = ground (arith, h o, n, is_pending-cons deleted s ss k)

  module _ {V : Type 0} where
    delete_stale-Settles :
        (s : SourceIndexInput) (ss : List Text) (db : IndexDb V)
        → AllEntries (Settles (s.id ∷ ss)) db.chunks
        → AllEntries (Settles ss) (delete_stale deleted s db).chunks
    unfolding delete_stale
    delete_stale-Settles s ss db a =
        let ks = stale_chunks s.id deleted in
        let db' = delete_chunks ks db in
        delete_documents-AllEntries (Settles ss)
          (stale_documents s.id (document_ids s.documents) db'.documents) db'
          (All-weaken (λ x. Settles (s.id ∷ ss) x.0 x.1 × (contains x.0 ks ≡ false))
            (λ x. Settles ss x.0 x.1) db'.chunks (λ x p. settled s.id ss x.0 x.1 p.0 p.1)
            (delete_chunks-AllEntries (Settles (s.id ∷ ss)) ks db a))

    put_source-Settles :
        (s : SourceIndexInput) (ss : List Text) (db : IndexDb V)
        → All (λ c. contains c.chunk_id current ≡ true) s.chunks
        → AllEntries (Settles (s.id ∷ ss)) db.chunks
        → AllEntries (Settles ss) (put_source deleted s db).chunks
    put_source-Settles s ss db h a =
        let all = Settles (s.id ∷ ss) in
        let db1 = upsert_documents s.documents (upsert_source s db) in
        delete_stale-Settles s ss (put_chunks s.chunks db1) (
          put_chunks-AllEntries all s.chunks db1 (current-Settles (s.id ∷ ss) s.chunks h)
            (upsert_documents-AllEntries all s.documents (upsert_source s db) a))

    pub put_sources-Settles :
        (ss : List SourceIndexInput) (db : IndexDb V)
        → All (λ s. All (λ c. contains c.chunk_id current ≡ true) s.chunks) ss
        → AllEntries (Settles (source_ids ss)) db.chunks
        → AllEntries (Settles []) (put_sources deleted ss db).chunks
    put_sources-Settles [] db h a = a
    put_sources-Settles (s ∷ ss) db h a =
        put_sources-Settles ss (put_source deleted s db) h.1
          (put_source-Settles s (source_ids ss) db h.0 a)

settles_if : (a b : Bool) → (a ≡ false → b ≡ true) → (a || b) ≡ true
settles_if a b h = ground arith

-- A row of the sources is among the stored states.
pub stored_rows :
    (of : List Text) (states : Dict Text EmbeddingState) (rows : Dict Text KnowledgeChunk)
    → AllEntries
        (λ k c.
          contains c.source_id of ≡ true
          → contains k (state_ids (map (joined states) (keep (is_of of) rows))) ≡ true)
        rows
stored_rows of states [] = tt
stored_rows of states ((k, c) ∷ rows) = (
  λ o. rw (o, beq_refl k) refl,
  All-weaken
      (λ x.
        contains x.1.source_id of ≡ true
        → contains x.0 (state_ids (map (joined states) (keep (is_of of) rows))) ≡ true)
      (λ x.
        contains x.1.source_id of ≡ true
        → contains x.0 (state_ids (map (joined states) (keep (is_of of) ((k, c) ∷ rows)))) ≡ true)
      rows
      (λ x p o. elim (Bool-cases (contains c.source_id of)) [
        | inl e ↦ rw e (
            or_right (x.0 == k)
              (contains x.0 (state_ids (map (joined states) (keep (is_of of) rows)))) (p o))
        | inr e ↦ rw e (p o)
      ])
      (stored_rows of states rows),
)

-- What the stored states are of.
pub stored_of :
    (of : List Text) (states : Dict Text EmbeddingState) (rows : Dict Text KnowledgeChunk)
    → All (λ s. contains s.source_id of ≡ true) (map (joined states) (keep (is_of of) rows))
stored_of of states [] = tt
stored_of of states ((k, c) ∷ rows) = elim (Bool-cases (contains c.source_id of)) [
  | inl e ↦ rw e (e, stored_of of states rows)
  | inr e ↦ rw e (stored_of of states rows)
]

-- With the plan's deleted states, every row settles.
pub planned-Settles :
    {V : Type 0} (of current : List Text) (db : IndexDb V)
    → AllEntries
        (Settles (gone (by_chunk_id (stored_chunk_states of db)) current) of current of)
        db.chunks
unfolding stored_chunk_states
planned-Settles of current db =
    let L = map (joined db.states) (keep (is_of of) db.chunks) in
    let D = by_chunk_id L in
    let deleted = gone D current in
    All-weaken (λ x. contains x.1.source_id of ≡ true → contains x.0 (state_ids L) ≡ true)
      (λ x. Settles deleted of current of x.0 x.1) db.chunks
      (λ x p o. settles_if (contains x.0 current) (is_pending deleted of x.0) (λ n.
        any-gone current (λ s. contains s.source_id of) x.0 D
          (by_chunk_id-AllEntries (λ j s. (s.chunk_id ≡ j) × (contains s.source_id of ≡ true)) L
            (All-weaken (λ s. contains s.source_id of ≡ true) _ L (λ s h. (refl, h))
              (stored_of of db.states db.chunks)))
          n (is_key-by_chunk_id x.0 L ∙ p o)))
      (stored_rows of db.states db.chunks)
