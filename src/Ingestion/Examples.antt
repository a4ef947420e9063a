-- ===== src/Ingestion/Examples.antt =====
-- Texts that are split, with and without a fence.
use zglab_rag.Prelude.{
  ℕ, ◌≡◌, refl, Bool, true, none, some, List, [], ◌∷◌, Text, codes, length, ◌==◌, nat_eq, arith,
}
use zglab_rag.Ingestion.Chunking.{
  ChunkingConfig, Cut, Fence, Line, cuts, cuts_from, fenced_spans, boundary, split_oversized,
}
use zglab_rag.Ingestion.Chunking.Progress.{split_oversized-some}
use zglab_rag.Ingestion.Chunking.Coverage.{Covers, cuts-Covers}
use zglab_rag.Ingestion.Chunking.Sizes.{AreAtMost, split_oversized-AreAtMost}

abbrev cfg : ChunkingConfig
cfg = record { target_size = 5; max_size = 8; overlap = 2 }

abbrev is_space : ℕ → Bool
is_space c = c == 32

abbrev no_strip : Text → Text
no_strip t = t

abbrev content : Text
content = codes "one two three four"

abbrev one_line : Text → List Line
one_line t = record { size = length t; fence = none } ∷ []

abbrev fence : Fence
fence = record { mark = 96; count = 3; bare = true }

-- Four letters, a fence of eight, and six letters.
abbrev fenced_lines : List Line
fenced_lines =
    record { size = 4; fence = none }
    ∷ record { size = 4; fence = some fence }
    ∷ record { size = 4; fence = some fence }
    ∷ record { size = 6; fence = none }
    ∷ []

-- The cuts of the plain text, by evaluation: at its blanks, with an overlap.
cuts_of_content :
    cuts is_space cfg content []
    ≡ some (
        record { start = 0; end = 4 }
        ∷ record { start = 2; end = 8 }
        ∷ record { start = 6; end = 14 }
        ∷ record { start = 12; end = 18 }
        ∷ [])
unfolding cuts cuts_from boundary
cuts_of_content = refl

split_oversized-some_example :
    (pieces : List Text) × (split_oversized one_line no_strip is_space cfg content ≡ some pieces)
split_oversized-some_example = split_oversized-some one_line no_strip is_space cfg content

cuts-Covers_example :
    (cs : List Cut) × (cuts is_space cfg content (fenced_spans fenced_lines (length content))
      ≡ some cs)
    × Covers 0 0 (length content) cs
cuts-Covers_example = cuts-Covers is_space cfg content fenced_lines refl refl

split_oversized-AreAtMost_example :
    AreAtMost 8 (split_oversized one_line no_strip is_space cfg content)
split_oversized-AreAtMost_example =
    split_oversized-AreAtMost one_line no_strip is_space cfg content refl refl (λ t. omega arith)
