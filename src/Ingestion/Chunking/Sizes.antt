-- ===== src/Ingestion/Chunking/Sizes.antt =====
-- How long the pieces of src/zglab_rag/ingestion/chunking.py are.
use zglab_rag.Prelude.{
  ℕ, zero, suc, ◌+◌, ◌-◌, ◌≤◌, ◌<◌, min, ◌≡◌, refl, inl, inr, Bool, true, false, Option-cases,
  Option, none, some, List, [], ◌∷◌, map, Text, length, length-take-le, ltb, leb, ltb→lt, leb→le,
  ◌==◌, nat_eq, if◌then◌else◌, if-cases, All, arith,
}
use zglab_rag.Prelude.Entries.{All-keep}
use zglab_rag.Ingestion.Chunking.{
  ChunkingConfig, is_valid_config, Line, fenced_from, fenced_spans, boundary, Cut, cons_cut,
  end_from, next_start, cuts_from, cuts, slice, drop, is_nonempty, pieces_of, split_oversized,
}
use zglab_rag.Ingestion.Chunking.Progress.{boundary-IsWithin, limits, end_from-proposed}

abbrev pub is_fenced : List Line → Bool
is_fenced [] = false
is_fenced (l ∷ ls) = elim l.fence [ none ↦ is_fenced ls | some f ↦ true ]

no_fences :
    (ls : List Line) (offset start size : ℕ)
    → is_fenced ls ≡ false
    → fenced_from ls offset none start size ≡ []
unfolding fenced_from
no_fences [] offset start size h = refl
no_fences (l ∷ ls) offset start size h = elim (Option-cases l.fence) [
  | inl e ↦ rw e (no_fences ls (offset + l.size) start size (rw e at h))
  | inr (f, e) ↦ cc (rw e at h)
]

abbrev pub CutsAtMost : ℕ → Option (List Cut) → Type 0
CutsAtMost size none = Unit
CutsAtMost size (some cs) = All (λ c. c.end ≤ c.start + size) cs

module _ (is_space : ℕ → Bool) (cfg : ChunkingConfig) (text : Text)
    (v : is_valid_config cfg ≡ true) where
  end_from-le :
      (start : ℕ) → start < length text → end_from is_space cfg text [] start ≤ start + cfg.max_size
  end_from-le start h =
      let w = limits is_space cfg text [] start v h in
      let ideal = min (start + cfg.target_size) (length text) in
      let hard = min (start + cfg.max_size) (length text) in
      rw (end_from-proposed is_space cfg text [] start v h) (
        if-cases (λ e. e ≤ start + cfg.max_size) (leb (length text) (start + cfg.max_size))
          (length text) (boundary text start ideal hard)
          (λ e. leb→le (length text) (start + cfg.max_size) e)
          (λ e. ground (arith, (boundary-IsWithin text start ideal hard w.0 w.1).1)))

  abbrev AreShort : Option (List Cut) → Type 0
  AreShort o = CutsAtMost cfg.max_size o

  cons_cut-AreShort :
      (c : Cut) (o : Option (List Cut))
      → c.end ≤ c.start + cfg.max_size
      → AreShort o
      → AreShort (cons_cut c o)
  cons_cut-AreShort c none h k = tt
  cons_cut-AreShort c (some cs) h k = (h, k)

  cuts_from-AreShort : (n start : ℕ) → AreShort (cuts_from is_space cfg text [] n start)
  unfolding cuts_from
  cuts_from-AreShort zero start =
      if-cases AreShort (ltb start (length text)) none (some []) (λ e. tt) (λ e. tt)
  cuts_from-AreShort (suc n) start =
      let end = end_from is_space cfg text [] start in
      let c : Cut = record { start = start; end = end } in
      let rest = cuts_from is_space cfg text [] n (next_start is_space cfg text [] start end) in
      if-cases AreShort (ltb start (length text))
        (if end == length text then some (c ∷ []) else cons_cut c rest) (some [])
        (λ e.
          let w = end_from-le start (ltb→lt start (length text) e) in
          if-cases AreShort (end == length text) (some (c ∷ [])) (cons_cut c rest) (λ t. (w, tt))
            (λ t.
              cons_cut-AreShort c rest w
                (cuts_from-AreShort n (next_start is_space cfg text [] start end))))
        (λ e. tt)

-- Every piece is at most so long.
abbrev pub AreAtMost : ℕ → Option (List Text) → Type 0
AreAtMost size none = Unit
AreAtMost size (some pieces) = All (λ p. length p ≤ size) pieces

module _ (strip : Text → Text) (shorter : (t : Text) → length (strip t) ≤ length t) (size : ℕ)
    (text : Text) where
  piece-le : (c : Cut) → c.end ≤ c.start + size → length (strip (slice text c)) ≤ size
  piece-le c h =
      omega (arith, h, shorter (slice text c), length-take-le (c.end - c.start) (drop c.start text))

  all_pieces :
      (cs : List Cut)
      → All (λ c. c.end ≤ c.start + size) cs
      → All (λ p. length p ≤ size) (map (λ c. strip (slice text c)) cs)
  all_pieces [] h = tt
  all_pieces (c ∷ cs) h = (piece-le c h.0, all_pieces cs h.1)

  pieces_of-AreAtMost :
      (o : Option (List Cut)) → CutsAtMost size o → AreAtMost size (pieces_of strip text o)
  pieces_of-AreAtMost none h = tt
  pieces_of-AreAtMost (some cs) h =
      All-keep (λ p. length p ≤ size) is_nonempty (map (λ c. strip (slice text c)) cs)
        (all_pieces cs h)

-- With no fence in the content, and a `str.strip` that makes no text longer, every piece is at most as long as
-- the configuration's largest size.
pub split_oversized-AreAtMost :
    (lines : Text → List Line) (strip : Text → Text) (is_space : ℕ → Bool) (cfg : ChunkingConfig)
    (content : Text)
    → is_valid_config cfg ≡ true
    → is_fenced (lines content) ≡ false
    → ((t : Text) → length (strip t) ≤ length t)
    → AreAtMost cfg.max_size (split_oversized lines strip is_space cfg content)
unfolding split_oversized cuts fenced_spans
split_oversized-AreAtMost lines strip is_space cfg content v f shorter =
    if-cases (AreAtMost cfg.max_size) (leb (length content) cfg.max_size) (some (content ∷ []))
      (pieces_of strip content
        (cuts is_space cfg content (fenced_spans (lines content) (length content))))
      (λ e. (leb→le (length content) cfg.max_size e, tt))
      (λ e. rw (no_fences (lines content) 0 0 (length content) f) (
        pieces_of-AreAtMost strip shorter cfg.max_size content
          (cuts_from is_space cfg content [] (length content) 0)
          (cuts_from-AreShort is_space cfg content v (length content) 0)))
