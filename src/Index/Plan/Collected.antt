-- ===== src/Index/Plan/Collected.antt =====
-- The stored states by their chunk ids, and those of chunks that are gone.
use zglab_rag.Prelude.{
  ◌≡◌, refl, sym, ap, ◌∙◌, inl, inr, Bool, true, false, ◌&&◌, ◌||◌, Bool-cases, some, List, [], ◌∷◌,
  map, Text, ◌==◌, beq_comm, text_eq, contains, any, All, arith,
}
use zglab_rag.Prelude.Dict.{Dict, lookup, insert}
use zglab_rag.Prelude.Entries.{AllEntries, insert-AllEntries}
use zglab_rag.Index.Plan.{StoredChunkState, collect, by_chunk_id, gone}

abbrev pub state_ids : List StoredChunkState → List Text
state_ids states = map (λ x. x.chunk_id) states

abbrev pub is_key : Text → Dict Text StoredChunkState → Bool
is_key k d = contains k (map (λ e. e.0) d)

module _ (P : Text → StoredChunkState → Type 0) where
  collect-AllEntries :
      (ss : List StoredChunkState) (d : Dict Text StoredChunkState)
      → All (λ s. P s.chunk_id s) ss
      → AllEntries P d
      → AllEntries P (collect d ss)
  collect-AllEntries [] d h a = a
  collect-AllEntries (s ∷ ss) d h a =
      collect-AllEntries ss (insert s.chunk_id s d) h.1 (insert-AllEntries P s.chunk_id s d a h.0)

  pub by_chunk_id-AllEntries :
      (ss : List StoredChunkState) → All (λ s. P s.chunk_id s) ss → AllEntries P (by_chunk_id ss)
  by_chunk_id-AllEntries ss h = collect-AllEntries ss [] h tt

is_key-insert :
    (k j : Text) (s : StoredChunkState) (d : Dict Text StoredChunkState)
    → is_key k (insert j s d) ≡ (k == j) || is_key k d
unfolding insert
is_key-insert k j s [] = refl
is_key-insert k j s ((i, t) ∷ d) =
    ground (arith, text_eq.beq_iff i j, beq_comm k j, is_key-insert k j s d, text_eq.beq_iff k i)

is_key-collect :
    (k : Text) (ss : List StoredChunkState) (d : Dict Text StoredChunkState)
    → is_key k (collect d ss) ≡ contains k (state_ids ss) || is_key k d
is_key-collect k [] d = refl
is_key-collect k (s ∷ ss) d =
    ground (arith, is_key-collect k ss (insert s.chunk_id s d), is_key-insert k s.chunk_id s d)

pub is_key-by_chunk_id :
    (k : Text) (ss : List StoredChunkState) → is_key k (by_chunk_id ss) ≡ contains k (state_ids ss)
is_key-by_chunk_id k ss = ground (arith, is_key-collect k ss [])

pub lookup-is_key :
    (k : Text) (d : Dict Text StoredChunkState)
    → is_key k d ≡ true
    → (s : StoredChunkState) × (lookup k d ≡ some s)
unfolding lookup
lookup-is_key k [] h = cc
lookup-is_key k ((j, s) ∷ d) h = elim (Bool-cases (j == k)) [
  | inl e ↦ (s, rw e refl)
  | inr e ↦ let r = lookup-is_key k d (ground (arith, h, e, beq_comm k j)) in (r.0, rw e r.1)
]

module _ (current : List Text) where
  -- A state that is gone is not of a current chunk.
  pub gone-state_ids :
      (k : Text) (d : Dict Text StoredChunkState)
      → AllEntries (λ j s. s.chunk_id ≡ j) d
      → contains k current ≡ true
      → contains k (state_ids (gone d current)) ≡ false
  gone-state_ids k [] a h = refl
  gone-state_ids k ((j, s) ∷ d) a h = elim (Bool-cases (contains j current)) [
    | inl e ↦ rw e (gone-state_ids k d a.1 h)
    | inr e ↦ elim (Bool-cases (k == s.chunk_id)) [
      | inl m ↦ cc (h, e, ap (λ x. contains x current) ((text_eq.beq_iff k s.chunk_id).0 m ∙ a.0))
      | inr m ↦ rw (e, m) (gone-state_ids k d a.1 h)
    ]
  ]

  -- Nothing is gone when every state is of a current chunk.
  pub gone-none :
      (d : Dict Text StoredChunkState)
      → AllEntries (λ j s. contains j current ≡ true) d
      → gone d current ≡ []
  gone-none [] a = refl
  gone-none ((j, s) ∷ d) a = rw a.0 (gone-none d a.1)

  module _ (test : StoredChunkState → Bool) where
    -- A state that is not of a current chunk is gone.
    pub any-gone :
        (k : Text) (d : Dict Text StoredChunkState)
        → AllEntries (λ j s. (s.chunk_id ≡ j) × (test s ≡ true)) d
        → contains k current ≡ false
        → is_key k d ≡ true
        → any (λ s. s.chunk_id == k && test s) (gone d current) ≡ true
    any-gone k [] a h w = cc
    any-gone k ((j, s) ∷ d) a h w = elim (Bool-cases (k == j)) [
      | inl e ↦
          let kj = (text_eq.beq_iff k j).0 e in
          let m : contains j current ≡ false = ap (λ x. contains x current) (sym kj) ∙ h in
          let same : (s.chunk_id == k) ≡ true = (text_eq.beq_iff s.chunk_id k).1 (a.0.0 ∙ sym kj) in
          rw (m, same, a.0.1) refl
      | inr e ↦ elim (Bool-cases (contains j current)) [
        | inl m ↦ rw m (any-gone k d a.1 h (ground (arith, w, e)))
        | inr m ↦ rw m (ground (arith, any-gone k d a.1 h (ground (arith, w, e))))
      ]
    ]
