-- ===== src/Index/Store/Embedded.antt =====
-- The loops of `apply` of src/zglab_rag/storage/repositories.py over the chunks that need an embedding.
use zglab_rag.Prelude.{
  ◌≡◌, sym, ap, if◌then◌else◌, refl, ◌∙◌, ◌⊎◌, inl, inr, Bool, true, false, ◌||◌, Bool-cases,
  Option-cases, some, List, [], ◌∷◌, map, Text, ◌==◌, text_eq, beq_comm, contains, All, arith,
}
use zglab_rag.Prelude.Dict.{Dict, lookup, insert, remove, lookup-insert, lookup-remove}
use zglab_rag.Index.Plan.{PlannedChunk}
use zglab_rag.Index.Store.{IndexDb, is_there, Words, words_of}
use zglab_rag.Index.Store.Apply.{index_words, index_vectors, put_vector, put_words}

abbrev pub item_ids : List PlannedChunk → List Text
item_ids items = map (λ i. i.chunk.chunk_id) items

left_of : (a b : Bool) → (a || b) ≡ true → b ≡ false → a ≡ true
left_of a b h e = ground arith

neither : (a b : Bool) → (a || b) ≡ false → (a ≡ false) × (b ≡ false)
neither a b h = ground arith

-- A row that is deleted and inserted.
replaced :
    {A : Type 0} (j k : Text) (v : A) (d : Dict Text A)
    → lookup k (insert j v (remove j d)) ≡ (if j == k then some v else lookup k d)
replaced j k v d = elim (Bool-cases (j == k)) [
  | inl e ↦ lookup-insert j k v (remove j d) ∙ rw e refl
  | inr e ↦ lookup-insert j k v (remove j d) ∙ rw e (lookup-remove j k d ∙ rw e refl)
]

-- The items of a key have the words.
abbrev pub HaveWords : Text → Words → List PlannedChunk → Type 0
HaveWords k w items = All (λ i. (i.chunk.chunk_id == k) ≡ true → words_of i.chunk ≡ w) items

module _ {V : Type 0} where
  -- The chunks of the items are there.
  abbrev pub AreThere : List PlannedChunk → IndexDb V → Type 0
  AreThere items db = All (λ i. is_there (lookup i.chunk.chunk_id db.chunks) ≡ true) items

  -- The loop over the words gives tables with the same chunks, states and vectors, in which the items have
  -- their words and no other words are changed.
  pub record Worded (items : List PlannedChunk) (db : IndexDb V) : Type 0 where
    pub result : IndexDb V
    pub returns : index_words items db ≡ some result
    pub chunks : result.chunks ≡ db.chunks
    pub states : result.states ≡ db.states
    pub vectors : result.vectors ≡ db.vectors
    pub worded :
        (k : Text) (w : Words)
        → HaveWords k w items
        → (contains k (item_ids items) ≡ true) ⊎ (lookup k db.words ≡ some w)
        → lookup k result.words ≡ some w
    pub others :
        (k : Text) → contains k (item_ids items) ≡ false → lookup k result.words ≡ lookup k db.words

  put_words-worded :
      (i : PlannedChunk) (db : IndexDb V) (k : Text) (w : Words)
      → ((i.chunk.chunk_id == k) ≡ true → words_of i.chunk ≡ w)
      → ((k == i.chunk.chunk_id) ≡ true) ⊎ (lookup k db.words ≡ some w)
      → lookup k (put_words i db).words ≡ some w
  put_words-worded i db k w h o = elim (Bool-cases (i.chunk.chunk_id == k)) [
    | inl e ↦ replaced i.chunk.chunk_id k _ db.words ∙ rw (e, h e) refl
    | inr e ↦
        replaced i.chunk.chunk_id k _ db.words
        ∙ rw e (elim o [ inl m ↦ cc (m, beq_comm k i.chunk.chunk_id, e) | inr s ↦ s ])
  ]

  pub index_words-Worded :
      (items : List PlannedChunk) (db : IndexDb V) → AreThere items db → Worded items db
  unfolding index_words
  index_words-Worded [] db h = record {
    result = db;
    returns = refl;
    chunks = refl;
    states = refl;
    vectors = refl;
    worded = λ k w a o. elim o [ inl m ↦ cc | inr s ↦ s ];
    others = λ k a. refl;
  }
  index_words-Worded (i ∷ items) db h =
      let r = index_words-Worded items (put_words i db) h.1 in
      record {
        result = r.result;
        returns = rw h.0 r.returns;
        chunks = r.chunks;
        states = r.states;
        vectors = r.vectors;
        worded = λ k w a o. r.worded k w a.1 (elim (Bool-cases (contains k (item_ids items))) [
          | inl t ↦ inl t
          | inr t ↦ inr (
              put_words-worded i db k w a.0 (elim o [
                | inl m ↦ inl (left_of (k == i.chunk.chunk_id) (contains k (item_ids items)) m t)
                | inr s ↦ inr s
              ]))
        ]);
        others = λ k a.
            let w = neither (k == i.chunk.chunk_id) (contains k (item_ids items)) a in
            r.others k w.1
            ∙ replaced i.chunk.chunk_id k _ db.words
            ∙ rw (beq_comm i.chunk.chunk_id k ∙ w.0) refl;
      }

  module _ (profile_id : Text) (embeddings : Dict Text V) where
    abbrev pub IsStated : Text → Text → IndexDb V → Type 0
    IsStated k hash db =
        lookup k db.states
        ≡ some (record { embedding_profile_id = profile_id; embedding_input_hash = hash })

    abbrev pub HaveHash : Text → Text → List PlannedChunk → Type 0
    HaveHash k hash items =
        All (λ i. (i.chunk.chunk_id == k) ≡ true → i.embedding_input_hash ≡ hash) items

    -- The loop over the vectors gives tables with the same chunks, in which the items have their states.
    pub record Vectored (items : List PlannedChunk) (db : IndexDb V) : Type 0 where
      pub result : IndexDb V
      pub returns : index_vectors profile_id embeddings items db ≡ some result
      pub chunks : result.chunks ≡ db.chunks
      pub stated :
          (k hash : Text)
          → HaveHash k hash items
          → (contains k (item_ids items) ≡ true) ⊎ IsStated k hash db
          → IsStated k hash result
      pub words : result.words ≡ db.words
      pub embedded :
          (k : Text)
          → (contains k (item_ids items) ≡ true) ⊎ (lookup k db.vectors ≡ lookup k embeddings)
          → lookup k result.vectors ≡ lookup k embeddings
      pub others :
          (k : Text)
          → contains k (item_ids items) ≡ false
          → lookup k result.vectors ≡ lookup k db.vectors

    put_vector-IsStated :
        (i : PlannedChunk) (v : V) (db : IndexDb V) (k hash : Text)
        → ((i.chunk.chunk_id == k) ≡ true → i.embedding_input_hash ≡ hash)
        → ((k == i.chunk.chunk_id) ≡ true) ⊎ IsStated k hash db
        → IsStated k hash (put_vector profile_id i v db)
    put_vector-IsStated i v db k hash h o = elim (Bool-cases (i.chunk.chunk_id == k)) [
      | inl e ↦ lookup-insert i.chunk.chunk_id k _ db.states ∙ rw (e, h e) refl
      | inr e ↦
          lookup-insert i.chunk.chunk_id k _ db.states
          ∙ rw e (elim o [ inl m ↦ cc (m, beq_comm k i.chunk.chunk_id, e) | inr s ↦ s ])
    ]

    put_vector-embedded :
        (i : PlannedChunk) (v : V) (db : IndexDb V) (k : Text)
        → lookup i.chunk.chunk_id embeddings ≡ some v
        → ((k == i.chunk.chunk_id) ≡ true) ⊎ (lookup k db.vectors ≡ lookup k embeddings)
        → lookup k (put_vector profile_id i v db).vectors ≡ lookup k embeddings
    put_vector-embedded i v db k h o = elim (Bool-cases (i.chunk.chunk_id == k)) [
      | inl e ↦
          replaced i.chunk.chunk_id k v db.vectors
          ∙ rw e (sym h ∙ ap (λ j. lookup j embeddings) ((text_eq.beq_iff i.chunk.chunk_id k).0 e))
      | inr e ↦
          replaced i.chunk.chunk_id k v db.vectors
          ∙ rw e (elim o [ inl m ↦ cc (m, beq_comm k i.chunk.chunk_id, e) | inr s ↦ s ])
    ]

    pub index_vectors-Vectored :
        (items : List PlannedChunk) (db : IndexDb V)
        → AreThere items db
        → All (λ i. is_there (lookup i.chunk.chunk_id embeddings) ≡ true) items
        → Vectored items db
    unfolding index_vectors
    index_vectors-Vectored [] db h w = record {
      result = db;
      returns = refl;
      chunks = refl;
      stated = λ k hash a o. elim o [ inl m ↦ cc | inr s ↦ s ];
      words = refl;
      embedded = λ k o. elim o [ inl m ↦ cc | inr s ↦ s ];
      others = λ k a. refl;
    }
    index_vectors-Vectored (i ∷ items) db h w =
        elim (Option-cases (lookup i.chunk.chunk_id embeddings)) [
          | inl e ↦ cc (rw e at w.0)
          | inr (v, e) ↦
              let r = index_vectors-Vectored items (put_vector profile_id i v db) h.1 w.1 in
              record {
                result = r.result;
                returns = rw (e, h.0) r.returns;
                chunks = r.chunks;
                stated = λ k hash a o.
                    r.stated k hash a.1 (elim (Bool-cases (contains k (item_ids items))) [
                      | inl t ↦ inl t
                      | inr t ↦ inr (
                          put_vector-IsStated i v db k hash a.0 (elim o [
                            | inl m ↦
                                inl (
                                  left_of (k == i.chunk.chunk_id) (contains k (item_ids items)) m t)
                            | inr s ↦ inr s
                          ]))
                    ]);
                words = r.words;
                embedded = λ k o. r.embedded k (elim (Bool-cases (contains k (item_ids items))) [
                  | inl t ↦ inl t
                  | inr t ↦ inr (
                      put_vector-embedded i v db k e (elim o [
                        | inl m ↦
                            inl (left_of (k == i.chunk.chunk_id) (contains k (item_ids items)) m t)
                        | inr s ↦ inr s
                      ]))
                ]);
                others = λ k a.
                    let w = neither (k == i.chunk.chunk_id) (contains k (item_ids items)) a in
                    r.others k w.1
                    ∙ replaced i.chunk.chunk_id k v db.vectors
                    ∙ rw (beq_comm i.chunk.chunk_id k ∙ w.0) refl;
              }
        ]
