-- ===== src/Ingestion/Chunking.antt =====
-- The splitting of a section of src/zglab_rag/ingestion/chunking.py. The lines of a text, with what the
-- regular expression of a fence finds in each, `str.strip` and `str.isspace` are parameters.
pub mod Progress
pub mod Coverage
pub mod Sizes
use zglab_rag.Prelude.{
  ℕ, zero, suc, ◌+◌, ◌-◌, ◌/◌, ◌≤◌, ◌<◌, min, max, Bool, true, false, ◌&&◌, not, Option, none, some,
  List, [], ◌∷◌, map, Text, codes, length, take, ltb, leb, ◌==◌, nat_eq, if◌then◌else◌, keep,
}

pub record ChunkingConfig : Type 0 where
  pub target_size : ℕ
  pub max_size : ℕ
  pub overlap : ℕ

-- `__post_init__`
abbrev pub is_valid_config : ChunkingConfig → Bool
is_valid_config c =
    ltb 0 c.target_size && (leb c.target_size c.max_size && ltb c.overlap c.target_size)

abbrev pub break_separators : List Text
break_separators =
    codes "\n\n"
    ∷ codes "\n"
    ∷ codes "。"
    ∷ codes "！"
    ∷ codes "？"
    ∷ codes ". "
    ∷ codes "! "
    ∷ codes "? "
    ∷ codes "；"
    ∷ codes "; "
    ∷ codes " "
    ∷ []

pub record FenceSpan : Type 0 where
  pub start : ℕ
  pub end : ℕ

-- What the pattern finds in a line: the first mark, how many, and whether nothing but blanks follows.
pub record Fence : Type 0 where
  pub mark : ℕ
  pub count : ℕ
  pub bare : Bool

pub record Line : Type 0 where
  pub size : ℕ
  pub fence : Option Fence

abbrev pub drop : ℕ → Text → Text
drop zero t = t
drop (suc n) [] = []
drop (suc n) (c ∷ t) = drop n t

abbrev pub starts_with : Text → Text → Bool
starts_with [] t = true
starts_with (c ∷ s) [] = false
starts_with (c ∷ s) (d ∷ t) = c == d && starts_with s t

-- The positions of `text.find(separator, low, high)`: how many there are from `low` on.
abbrev pub tries : Text → Text → ℕ → ℕ → ℕ
tries separator text low high = (min high (length text) + 1) - (low + length separator)

abbrev pub first_found : Text → Text → ℕ → ℕ → Option ℕ
first_found separator text zero i = none
first_found separator text (suc n) i =
    let rest = first_found separator text n (i + 1) in
    if starts_with separator (drop i text) then some i else rest

abbrev pub or_here : Option ℕ → Bool → ℕ → Option ℕ
or_here (some j) b i = some j
or_here none true i = some i
or_here none false i = none

abbrev pub last_found : Text → Text → ℕ → ℕ → Option ℕ
last_found separator text zero i = none
last_found separator text (suc n) i =
    or_here (last_found separator text n (i + 1)) (starts_with separator (drop i text)) i

-- `text.find(separator, low, high)`, where `none` is -1
abbrev pub find : Text → Text → ℕ → ℕ → Option ℕ
find separator text low high = first_found separator text (tries separator text low high) low

-- `text.rfind(separator, low, high)`
abbrev pub rfind : Text → Text → ℕ → ℕ → Option ℕ
rfind separator text low high = last_found separator text (tries separator text low high) low

abbrev pub distance : ℕ → ℕ → ℕ
distance a b = (a - b) + (b - a)

-- The candidate that is nearer to the ideal; of two, the first.
abbrev pub nearer : ℕ → Option ℕ → Option ℕ → Option ℕ
nearer ideal none after = after
nearer ideal (some b) none = some b
nearer ideal (some b) (some a) =
    if leb (distance b ideal) (distance a ideal) then some b else some a

abbrev pub after_separator : Option ℕ → ℕ → ℕ → ℕ → ℕ
after_separator none size hard_limit otherwise = otherwise
after_separator (some position) size hard_limit otherwise = min (position + size) hard_limit

-- The loop of `_boundary` over the separators.
abbrev pub boundary_by : List Text → Text → ℕ → ℕ → ℕ → ℕ
boundary_by [] text lower ideal hard_limit = hard_limit
boundary_by (s ∷ ss) text lower ideal hard_limit =
    after_separator
      (nearer ideal (rfind s text lower (ideal + 1)) (find s text ideal (hard_limit + 1)))
      (length s) hard_limit (boundary_by ss text lower ideal hard_limit)

-- `_boundary`, for an ideal after the start
unfoldable pub boundary : Text → ℕ → ℕ → ℕ → ℕ
boundary text start ideal hard_limit =
    boundary_by break_separators text (min ideal (start + max 1 ((ideal - start) / 2))) ideal
      hard_limit

-- The marker and the length of the open fence.
abbrev pub closes_fence : Fence → Fence → Bool
closes_fence f active = f.mark == active.mark && (leb active.count f.count && f.bare)

-- The loop of `_fenced_spans`: at `offset`, with the fence that is open and where it starts.
unfoldable pub fenced_from : List Line → ℕ → Option Fence → ℕ → ℕ → List FenceSpan
fenced_from [] offset none start size = []
fenced_from [] offset (some active) start size = record { start = start; end = size } ∷ []
fenced_from (l ∷ ls) offset none start size = elim l.fence [
  | none ↦ fenced_from ls (offset + l.size) none start size
  | some f ↦ fenced_from ls (offset + l.size) (some f) offset size
]
fenced_from (l ∷ ls) offset (some active) start size = elim l.fence [
  | none ↦ fenced_from ls (offset + l.size) (some active) start size
  | some f ↦
      let still = fenced_from ls (offset + l.size) (some active) start size in
      let closed =
        record { start = start; end = offset + l.size }
        ∷ fenced_from ls (offset + l.size) none start size in
      if closes_fence f active then closed else still
]

unfoldable pub fenced_spans : List Line → ℕ → List FenceSpan
fenced_spans lines size = fenced_from lines 0 none 0 size

abbrev pub is_inside : FenceSpan → ℕ → Bool
is_inside span position = ltb span.start position && ltb position span.end

abbrev pub out_of : ℕ → FenceSpan → ℕ
out_of start span = if ltb start span.start then span.start else span.end

-- `_protect_end`, and the loop of `_protect_overlap_start`
abbrev pub protect : ℕ → ℕ → List FenceSpan → ℕ
protect start proposed [] = proposed
protect start proposed (span ∷ spans) =
    let rest = protect start proposed spans in
    if is_inside span proposed then out_of start span else rest

abbrev pub protect_overlap_start : ℕ → ℕ → ℕ → List FenceSpan → ℕ
protect_overlap_start start end overlap spans =
    if leb end (start + overlap) then end else protect start (end - overlap) spans

abbrev pub head_is : (ℕ → Bool) → Text → Bool
head_is p [] = false
head_is p (c ∷ t) = p c

-- The loop over the blanks, at most `n` of them from position `i` on.
abbrev pub skip_blanks : (ℕ → Bool) → Text → ℕ → ℕ → ℕ
skip_blanks is_space text zero i = i
skip_blanks is_space text (suc n) i =
    let rest = skip_blanks is_space text n (i + 1) in
    if head_is is_space (drop i text) then rest else i

pub record Cut : Type 0 where
  pub start : ℕ
  pub end : ℕ

abbrev pub cons_cut : Cut → Option (List Cut) → Option (List Cut)
cons_cut c none = none
cons_cut c (some cs) = some (c ∷ cs)

module _ (is_space : ℕ → Bool) (cfg : ChunkingConfig) (text : Text) (spans : List FenceSpan) where
  -- The `end` of a round, before the test that it is after the start.
  abbrev pub proposed_end : ℕ → ℕ
  proposed_end start =
      if leb (length text) (start + cfg.max_size)
      then length text
      else protect start
          (boundary text start (min (start + cfg.target_size) (length text))
            (min (start + cfg.max_size) (length text)))
          spans

  abbrev pub end_from : ℕ → ℕ
  end_from start =
      if leb (proposed_end start) start
      then min (start + cfg.max_size) (length text)
      else proposed_end start

  abbrev pub next_start : ℕ → ℕ → ℕ
  next_start start end =
      let next = max (start + 1) (protect_overlap_start start end cfg.overlap spans) in
      skip_blanks is_space text (end - next) next

  -- The `while` loop, as the places that it cuts at; `none` is a lack of fuel.
  unfoldable pub cuts_from : ℕ → ℕ → Option (List Cut)
  cuts_from zero start = if ltb start (length text) then none else some []
  cuts_from (suc n) start =
      let end = end_from start in
      let rest = cuts_from n (next_start start end) in
      if ltb start (length text)
      then if end == length text
        then some (record { start = start; end = end } ∷ [])
        else cons_cut (record { start = start; end = end }) rest
      else some []

  unfoldable pub cuts : Option (List Cut)
  cuts = cuts_from (length text) 0

abbrev pub slice : Text → Cut → Text
slice text c = take (c.end - c.start) (drop c.start text)

abbrev pub is_nonempty : Text → Bool
is_nonempty [] = false
is_nonempty (c ∷ t) = true

abbrev pub pieces_of : (Text → Text) → Text → Option (List Cut) → Option (List Text)
pieces_of strip text none = none
pieces_of strip text (some cs) = some (keep is_nonempty (map (λ c. strip (slice text c)) cs))

-- `_split_oversized`
unfoldable pub split_oversized :
    (Text → List Line) → (Text → Text) → (ℕ → Bool) → ChunkingConfig → Text → Option (List Text)
split_oversized lines strip is_space cfg content =
    if leb (length content) cfg.max_size
    then some (content ∷ [])
    else pieces_of strip content
        (cuts is_space cfg content (fenced_spans (lines content) (length content)))
