-- ===== src/Ingestion/Chunking/Progress.antt =====
-- That the loop of `_split_oversized` of src/zglab_rag/ingestion/chunking.py ends: each round starts later.
use zglab_rag.Prelude.{
  ℕ, zero, suc, ◌+◌, ◌-◌, ◌/◌, ◌≤◌, ◌<◌, min, max, ◌≡◌, refl, ap, Bool, true, false, Option, none,
  some, List, [], ◌∷◌, Text, length, ltb, leb, ◌==◌, nat_eq, if◌then◌else◌, if-cases, keep, map,
  arith,
}
use zglab_rag.Ingestion.Chunking.{
  ChunkingConfig, is_valid_config, break_separators, FenceSpan, starts_with, drop, tries,
  first_found, last_found, or_here, find, rfind, nearer, distance, after_separator, boundary_by,
  boundary, Line, fenced_spans, pieces_of, slice, is_nonempty, split_oversized, protect,
  protect_overlap_start, skip_blanks, Cut, cons_cut, proposed_end, end_from, next_start, cuts_from,
  cuts,
}

-- What is found is not before the position that the search starts at.
abbrev pub FoundFrom : ℕ → Option ℕ → Type 0
FoundFrom low none = Unit
FoundFrom low (some i) = low ≤ i

FoundFrom-weaken : (a b : ℕ) (o : Option ℕ) → a ≤ b → FoundFrom b o → FoundFrom a o
FoundFrom-weaken a b none h f = tt
FoundFrom-weaken a b (some i) h f = omega (arith, h, f)

first_found-FoundFrom : (s text : Text) (n i : ℕ) → FoundFrom i (first_found s text n i)
first_found-FoundFrom s text zero i = tt
first_found-FoundFrom s text (suc n) i =
    if-cases (FoundFrom i) (starts_with s (drop i text)) (some i) (first_found s text n (i + 1))
      (λ e. omega arith)
      (λ e.
        FoundFrom-weaken i (i + 1) (first_found s text n (i + 1)) (omega arith)
          (first_found-FoundFrom s text n (i + 1)))

or_here-FoundFrom :
    (i : ℕ) (o : Option ℕ) (b : Bool) → FoundFrom (i + 1) o → FoundFrom i (or_here o b i)
or_here-FoundFrom i (some j) b h = omega (arith, h)
or_here-FoundFrom i none true h = omega arith
or_here-FoundFrom i none false h = tt

last_found-FoundFrom : (s text : Text) (n i : ℕ) → FoundFrom i (last_found s text n i)
last_found-FoundFrom s text zero i = tt
last_found-FoundFrom s text (suc n) i =
    or_here-FoundFrom i (last_found s text n (i + 1)) (starts_with s (drop i text))
      (last_found-FoundFrom s text n (i + 1))

nearer-FoundFrom :
    (low ideal : ℕ) (b a : Option ℕ)
    → FoundFrom low b
    → FoundFrom low a
    → FoundFrom low (nearer ideal b a)
nearer-FoundFrom low ideal none a hb ha = ha
nearer-FoundFrom low ideal (some b) none hb ha = hb
nearer-FoundFrom low ideal (some b) (some a) hb ha =
    if-cases (FoundFrom low) (leb (distance b ideal) (distance a ideal)) (some b) (some a) (λ e. hb)
      (λ e. ha)

-- A place to cut: after the start and within the limit.
abbrev pub IsWithin : ℕ → ℕ → ℕ → Type 0
IsWithin start limit end = (start < end) × (end ≤ limit)

after_separator-IsWithin :
    (start low hard size otherwise : ℕ) (o : Option ℕ)
    → start < low
    → start < hard
    → FoundFrom low o
    → IsWithin start hard otherwise
    → IsWithin start hard (after_separator o size hard otherwise)
after_separator-IsWithin start low hard size otherwise none a b f w = w
after_separator-IsWithin start low hard size otherwise (some p) a b f w =
    (ground (arith, a, b, f), ground arith)

boundary_by-IsWithin :
    (ss : List Text) (text : Text) (start low ideal hard : ℕ)
    → start < low
    → low ≤ ideal
    → start < hard
    → IsWithin start hard (boundary_by ss text low ideal hard)
boundary_by-IsWithin [] text start low ideal hard a b c = (c, omega arith)
boundary_by-IsWithin (s ∷ ss) text start low ideal hard a b c =
    after_separator-IsWithin start low hard (length s) (boundary_by ss text low ideal hard)
      (nearer ideal (rfind s text low (ideal + 1)) (find s text ideal (hard + 1))) a c
      (nearer-FoundFrom low ideal (rfind s text low (ideal + 1)) (find s text ideal (hard + 1))
        (last_found-FoundFrom s text (tries s text low (ideal + 1)) low)
        (FoundFrom-weaken low ideal (find s text ideal (hard + 1)) b
          (first_found-FoundFrom s text (tries s text ideal (hard + 1)) ideal)))
      (boundary_by-IsWithin ss text start low ideal hard a b c)

pub boundary-IsWithin :
    (text : Text) (start ideal hard : ℕ)
    → start < ideal
    → ideal ≤ hard
    → IsWithin start hard (boundary text start ideal hard)
unfolding boundary
boundary-IsWithin text start ideal hard a b =
    boundary_by-IsWithin break_separators text start
      (min ideal (start + max 1 ((ideal - start) / 2))) ideal hard (ground (arith, a))
      (ground arith) (omega (arith, a, b))

pub skip_blanks-le :
    (p : ℕ → Bool) (text : Text) (n i : ℕ)
    → (i ≤ skip_blanks p text n i) × (skip_blanks p text n i ≤ i + n)
skip_blanks-le p text zero i = (omega arith, omega arith)
skip_blanks-le p text (suc n) i = ground (arith, skip_blanks-le p text n (i + 1))

-- Moving a cut out of a fence keeps it after the start.
protect-lt : (start p : ℕ) (spans : List FenceSpan) → start < p → start < protect start p spans
protect-lt start p [] h = h
protect-lt start p (s ∷ ss) h = ground (arith, h, protect-lt start p ss h)

config_sizes :
    (cfg : ChunkingConfig)
    → is_valid_config cfg ≡ true
    → (0 < cfg.target_size) × (cfg.target_size ≤ cfg.max_size)
config_sizes cfg h = ground arith

module _ (is_space : ℕ → Bool) (cfg : ChunkingConfig) (text : Text) (spans : List FenceSpan) where
  -- The ideal place is after the start, and the limit is not before it.
  pub limits :
      (start : ℕ)
      → is_valid_config cfg ≡ true
      → start < length text
      → (start < min (start + cfg.target_size) (length text))
        × (min (start + cfg.target_size) (length text) ≤ min (start + cfg.max_size) (length text))
  limits start v h = let w = config_sizes cfg v in (ground (arith, w.0, h), ground (arith, w.1))

  pub proposed_end-lt :
      (start : ℕ)
      → is_valid_config cfg ≡ true
      → start < length text
      → start < proposed_end is_space cfg text spans start
  proposed_end-lt start v h =
      let w = limits start v h in
      if-cases (λ e. start < e) (leb (length text) (start + cfg.max_size)) (length text) _ (λ e. h)
        (λ e.
          protect-lt start _ spans
            (boundary-IsWithin text start (min (start + cfg.target_size) (length text))
              (min (start + cfg.max_size) (length text)) w.0 w.1).0)

  -- The end is after the start, so the test of it in the loop never holds.
  pub end_from-proposed :
      (start : ℕ)
      → is_valid_config cfg ≡ true
      → start < length text
      → end_from is_space cfg text spans start ≡ proposed_end is_space cfg text spans start
  end_from-proposed start v h = ground (arith, proposed_end-lt start v h)

  next_start-lt : (start end : ℕ) → start < next_start is_space cfg text spans start end
  next_start-lt start end =
      let next = max (start + 1) (protect_overlap_start start end cfg.overlap spans) in
      let w = skip_blanks-le is_space text (end - next) next in ground (arith, w.0)

  some_cut :
      (c : Cut) (o : Option (List Cut))
      → (cs : List Cut) × (o ≡ some cs)
      → (cs : List Cut) × (cons_cut c o ≡ some cs)
  some_cut c o h = (c ∷ h.0, ap (cons_cut c) h.1)

  enough :
      (n start : ℕ)
      → length text ≤ start + n
      → (cs : List Cut) × (cuts_from is_space cfg text spans n start ≡ some cs)
  unfolding cuts_from
  enough zero start h = ([], ground (arith, h))
  enough (suc n) start h =
      let end = end_from is_space cfg text spans start in
      let HasCuts : Option (List Cut) → Type 0 = λ o. (cs : List Cut) × (o ≡ some cs) in
      let rest =
        cuts_from is_space cfg text spans n (next_start is_space cfg text spans start end) in
      let c : Cut = record { start = start; end = end } in
      if-cases HasCuts (ltb start (length text))
        (if end == length text then some (c ∷ []) else cons_cut c rest) (some [])
        (λ e.
          if-cases HasCuts (end == length text) (some (c ∷ [])) (cons_cut c rest)
            (λ t. (c ∷ [], refl))
            (λ t. some_cut c rest (
              enough n (next_start is_space cfg text spans start end)
                (omega (arith, h, next_start-lt start end)))))
        (λ e. ([], refl))

  pub cuts-some : (cs : List Cut) × (cuts is_space cfg text spans ≡ some cs)
  unfolding cuts
  cuts-some = enough (length text) 0 (omega arith)

-- The loop ends for every text, with no bound on the rounds but the length of the text: `split_oversized` never
-- runs out of its fuel, whatever the configuration, the lines and the fences.
pub split_oversized-some :
    (lines : Text → List Line) (strip : Text → Text) (is_space : ℕ → Bool) (cfg : ChunkingConfig)
    (content : Text)
    → (pieces : List Text) × (split_oversized lines strip is_space cfg content ≡ some pieces)
unfolding split_oversized
split_oversized-some lines strip is_space cfg content =
    let r = cuts-some is_space cfg content (fenced_spans (lines content) (length content)) in
    if-cases (λ o. (pieces : List Text) × (o ≡ some pieces)) (leb (length content) cfg.max_size)
      (some (content ∷ []))
      (pieces_of strip content
        (cuts is_space cfg content (fenced_spans (lines content) (length content))))
      (λ e. (content ∷ [], refl))
      (λ e. (
        keep is_nonempty (map (λ c. strip (slice content c)) r.0),
        ap (pieces_of strip content) r.1,
      ))
