-- ===== src/Ingestion/Chunking/Coverage.antt =====
-- That the pieces of src/zglab_rag/ingestion/chunking.py leave nothing out.
use zglab_rag.Prelude.{
  ℕ, zero, suc, ◌+◌, ◌-◌, ◌≤◌, ◌<◌, min, max, ◌≡◌, refl, sym, ◌⊎◌, inl, inr, Bool, true, false,
  Option-cases, Option, none, some, List, [], ◌∷◌, Text, length, ltb, leb, ltb→lt, ◌==◌, nat_eq,
  if◌then◌else◌, if-cases, All, arith,
}
use zglab_rag.Ingestion.Chunking.{
  ChunkingConfig, is_valid_config, FenceSpan, Fence, Line, closes_fence, fenced_from, fenced_spans,
  is_inside, out_of, protect, protect_overlap_start, boundary, Cut, cons_cut, proposed_end,
  end_from, next_start, cuts_from, cuts,
}
use zglab_rag.Ingestion.Chunking.Progress.{
  boundary-IsWithin, limits, proposed_end-lt, end_from-proposed, cuts-some, skip_blanks-le,
}

-- Fences one after the other, up to the end of the text.
abbrev pub AreOrdered : ℕ → ℕ → List FenceSpan → Type 0
AreOrdered low size [] = low ≤ size
AreOrdered low size (s ∷ ss) = (low ≤ s.start) × (s.start ≤ s.end) × AreOrdered s.end size ss

abbrev pub total : List Line → ℕ
total [] = 0
total (l ∷ ls) = l.size + total ls

-- Where the text that is read so far may be cut: at the open fence's start, or here.
abbrev pub open_at : Option Fence → ℕ → ℕ → ℕ
open_at none start offset = offset
open_at (some f) start offset = start

AreOrdered-weaken :
    (a b size : ℕ) (ss : List FenceSpan) → a ≤ b → AreOrdered b size ss → AreOrdered a size ss
AreOrdered-weaken a b size [] h o = omega (arith, h, o)
AreOrdered-weaken a b size (s ∷ ss) h o = (omega (arith, h, o.0), o.1, o.2)

fenced_from-AreOrdered :
    (ls : List Line) (offset : ℕ) (active : Option Fence) (start size : ℕ)
    → offset + total ls ≡ size
    → start ≤ offset
    → AreOrdered (open_at active start offset) size (fenced_from ls offset active start size)
unfolding fenced_from
fenced_from-AreOrdered [] offset none start size t h = omega (arith, t)
fenced_from-AreOrdered [] offset (some f) start size t h =
    (omega arith, omega (arith, t, h), omega arith)
fenced_from-AreOrdered (l ∷ ls) offset none start size t h = elim (Option-cases l.fence) [
  | inl e ↦ rw e (
      AreOrdered-weaken offset (offset + l.size) size _ (omega arith) (
        fenced_from-AreOrdered ls (offset + l.size) none start size (omega (arith, t))
          (omega (arith, h))))
  | inr (f, e) ↦ rw e (
      fenced_from-AreOrdered ls (offset + l.size) (some f) offset size (omega (arith, t))
        (omega arith))
]
fenced_from-AreOrdered (l ∷ ls) offset (some f) start size t h = elim (Option-cases l.fence) [
  | inl e ↦ rw e (
      fenced_from-AreOrdered ls (offset + l.size) (some f) start size (omega (arith, t))
        (omega (arith, h)))
  | inr (g, e) ↦ rw e (
      if-cases (AreOrdered start size) (closes_fence g f)
        (record { start = start; end = offset + l.size }
          ∷ fenced_from ls (offset + l.size) none start size)
        (fenced_from ls (offset + l.size) (some f) start size)
        (λ c. (
          omega arith,
          omega (arith, h),
          fenced_from-AreOrdered ls (offset + l.size) none start size (omega (arith, t))
              (omega (arith, h)),
        ))
        (λ c.
          fenced_from-AreOrdered ls (offset + l.size) (some f) start size (omega (arith, t))
            (omega (arith, h))))
]

end-le-size : (low size : ℕ) (ss : List FenceSpan) → AreOrdered low size ss → low ≤ size
end-le-size low size [] o = o
end-le-size low size (s ∷ ss) o = omega (arith, o.0, o.1, end-le-size s.end size ss o.2)

-- No fence is open at the place.
abbrev pub IsOutside : ℕ → List FenceSpan → Type 0
IsOutside p spans = All (λ s. is_inside s p ≡ false) spans

before-IsOutside :
    (p low size : ℕ) (ss : List FenceSpan) → AreOrdered low size ss → p ≤ low → IsOutside p ss
before-IsOutside p low size [] o h = tt
before-IsOutside p low size (s ∷ ss) o h =
    (ground (arith, o.0, h), before-IsOutside p s.end size ss o.2 (omega (arith, o.0, o.1, h)))

size-IsOutside : (low size : ℕ) (ss : List FenceSpan) → AreOrdered low size ss → IsOutside size ss
size-IsOutside low size [] o = tt
size-IsOutside low size (s ∷ ss) o =
    (ground (arith, end-le-size s.end size ss o.2), size-IsOutside s.end size ss o.2)

-- What a place becomes: itself, or a place that is no earlier than the first fence.
protect-cases :
    (start p low size : ℕ) (ss : List FenceSpan)
    → AreOrdered low size ss
    → (protect start p ss ≡ p) ⊎ (low ≤ protect start p ss)
protect-cases start p low size [] o = inl refl
protect-cases start p low size (s ∷ ss) o =
    if-cases (λ x. (x ≡ p) ⊎ (low ≤ x)) (is_inside s p) (out_of start s) (protect start p ss)
      (λ e. inr (ground (arith, o.0, o.1)))
      (λ e. elim (protect-cases start p s.end size ss o.2) [
        | inl q ↦ inl q
        | inr q ↦ inr (omega (arith, o.0, o.1, q))
      ])

protect-IsOutside :
    (start p low size : ℕ) (ss : List FenceSpan)
    → AreOrdered low size ss
    → IsOutside (protect start p ss) ss
protect-IsOutside start p low size [] o = tt
protect-IsOutside start p low size (s ∷ ss) o =
    if-cases (λ x. IsOutside x (s ∷ ss)) (is_inside s p) (out_of start s) (protect start p ss)
      (λ e.
        (ground arith, before-IsOutside (out_of start s) s.end size ss o.2 (ground (arith, o.1))))
      (λ e. (
        elim (protect-cases start p s.end size ss o.2) [
          | inl q ↦ rw q e
          | inr q ↦ ground (arith, q)
        ],
        protect-IsOutside start p s.end size ss o.2,
      ))

protect-le-size :
    (start p low size : ℕ) (ss : List FenceSpan)
    → AreOrdered low size ss
    → p ≤ size
    → protect start p ss ≤ size
protect-le-size start p low size [] o h = h
protect-le-size start p low size (s ∷ ss) o h =
    if-cases (λ x. x ≤ size) (is_inside s p) (out_of start s) (protect start p ss)
      (λ e. ground (arith, o.1, end-le-size s.end size ss o.2))
      (λ e. protect-le-size start p s.end size ss o.2 h)

-- A place before one where no fence is open does not pass it.
protect-le :
    (start p end : ℕ) (ss : List FenceSpan) → IsOutside end ss → p ≤ end → protect start p ss ≤ end
protect-le start p end [] o h = h
protect-le start p end (s ∷ ss) o h =
    if-cases (λ x. x ≤ end) (is_inside s p) (out_of start s) (protect start p ss)
      (λ e. ground (arith, o.0, e, h)) (λ e. protect-le start p end ss o.1 h)

-- Cuts that cover the text: each starts after the one before it starts and no later than where that one
-- ends, is not empty and ends in the text; and the last ends where the text does.
abbrev pub Covers : ℕ → ℕ → ℕ → List Cut → Type 0
Covers low reach size [] = reach ≡ size
Covers low reach size (c ∷ cs) =
    (low ≤ c.start)
    × (c.start ≤ reach)
    × (c.start < c.end)
    × (c.end ≤ size)
    × Covers (c.start + 1) c.end size cs

nat_eq_true : (a b : ℕ) → (a == b) ≡ true → a ≡ b
nat_eq_true a b h = (nat_eq.beq_iff a b).0 h

finished :
    (low reach size : ℕ) (cs : List Cut)
    → reach ≡ size
    → some [] ≡ some cs
    → Covers low reach size cs
finished low reach size [] e h = e
finished low reach size (c ∷ cs) e h = cc

same : (c : Cut) (ds cs : List Cut) → some (c ∷ ds) ≡ some cs → c ∷ ds ≡ cs
same c ds cs h = cc (h)

module _ (is_space : ℕ → Bool) (cfg : ChunkingConfig) (text : Text) (spans : List FenceSpan)
    (v : is_valid_config cfg ≡ true) (o : AreOrdered 0 (length text) spans) where
  -- An end is in the text, and no fence is open there.
  abbrev IsEnd : ℕ → Type 0
  IsEnd e = (e ≤ length text) × IsOutside e spans

  proposed_end-IsEnd :
      (start : ℕ) → start < length text → IsEnd (proposed_end is_space cfg text spans start)
  proposed_end-IsEnd start h =
      let ideal = min (start + cfg.target_size) (length text) in
      let hard = min (start + cfg.max_size) (length text) in
      let w = limits is_space cfg text spans start v h in
      let b = boundary text start ideal hard in
      let l : b ≤ length text =
        ground (arith, (boundary-IsWithin text start ideal hard w.0 w.1).1) in
      if-cases IsEnd (leb (length text) (start + cfg.max_size)) (length text)
        (protect start b spans) (λ e. (omega arith, size-IsOutside 0 (length text) spans o))
        (λ e. (
          protect-le-size start b 0 (length text) spans o l,
          protect-IsOutside start b 0 (length text) spans o,
        ))

  overlap_start-le :
      (start end : ℕ)
      → IsOutside end spans
      → protect_overlap_start start end cfg.overlap spans ≤ end
  overlap_start-le start end out =
      if-cases (λ x. x ≤ end) (leb end (start + cfg.overlap)) end
        (protect start (end - cfg.overlap) spans) (λ e. omega arith)
        (λ e. protect-le start (end - cfg.overlap) end spans out (omega arith))

  -- The next start is in what is read, or right after it: nothing is left out between two pieces.
  next_start-bounds :
      (start end : ℕ)
      → start < end
      → IsOutside end spans
      → (start + 1 ≤ next_start is_space cfg text spans start end)
        × (next_start is_space cfg text spans start end ≤ end)
  next_start-bounds start end h out =
      let next = max (start + 1) (protect_overlap_start start end cfg.overlap spans) in
      let w = skip_blanks-le is_space text (end - next) next in
      let l = overlap_start-le start end out in (ground (arith, w.0), ground (arith, w.1, l, h))

  -- A round cuts after its start, in the text and where no fence is open.
  round :
      (start : ℕ)
      → start < length text
      → (start < end_from is_space cfg text spans start)
        × IsEnd (end_from is_space cfg text spans start)
  round start h =
      rw (end_from-proposed is_space cfg text spans start v h)
        (proposed_end-lt is_space cfg text spans start v h, proposed_end-IsEnd start h)

  covers_cons :
      (low reach : ℕ) (c : Cut) (rest : Option (List Cut))
      → low ≤ c.start
      → c.start ≤ reach
      → c.start < c.end
      → c.end ≤ length text
      → ((cs : List Cut) → rest ≡ some cs → Covers (c.start + 1) c.end (length text) cs)
      → (cs : List Cut) → cons_cut c rest ≡ some cs
      → Covers low reach (length text) cs
  covers_cons low reach c none a b d e k cs h = cc
  covers_cons low reach c (some ds) a b d e k cs h =
      rw (sym (same c ds cs h)) (a, b, d, e, k ds refl)

  cuts_from-Covers :
      (n start low reach : ℕ)
      → low ≤ start
      → start ≤ reach
      → reach ≤ length text
      → (cs : List Cut) → cuts_from is_space cfg text spans n start ≡ some cs
      → Covers low reach (length text) cs
  unfolding cuts_from
  cuts_from-Covers zero start low reach a b d =
      let CoversAll : Option (List Cut) → Type 0 =
        λ x. (cs : List Cut) → x ≡ some cs → Covers low reach (length text) cs in
      if-cases CoversAll (ltb start (length text)) none (some []) (λ e cs h. cc)
        (λ e cs h. finished low reach (length text) cs (ground (arith, e, b, d)) h)
  cuts_from-Covers (suc n) start low reach a b d =
      let CoversAll : Option (List Cut) → Type 0 =
        λ x. (cs : List Cut) → x ≡ some cs → Covers low reach (length text) cs in
      let end = end_from is_space cfg text spans start in
      let next = next_start is_space cfg text spans start end in
      let c : Cut = record { start = start; end = end } in
      let rest = cuts_from is_space cfg text spans n next in
      if-cases CoversAll (ltb start (length text))
        (if end == length text then some (c ∷ []) else cons_cut c rest) (some [])
        (λ e.
          let w = round start (ltb→lt start (length text) e) in
          let bounds = next_start-bounds start end w.0 w.1.1 in
          if-cases CoversAll (end == length text) (some (c ∷ [])) (cons_cut c rest)
            (λ t. covers_cons low reach c (some []) a b w.0 w.1.0 (λ cs h.
              finished (start + 1) end (length text) cs (nat_eq_true end (length text) t) h))
            (λ t.
              covers_cons low reach c rest a b w.0 w.1.0
                (λ cs h. cuts_from-Covers n next (start + 1) end bounds.0 bounds.1 w.1.0 cs h)))
        (λ e cs h. finished low reach (length text) cs (ground (arith, e, b, d)) h)

-- For a valid configuration and lines that make up the text, the loop ends with cuts that cover the text: the
-- first starts at its beginning, each other one starts later than the one before and no later than where
-- that one ends, each is not empty, and the last ends with the text. No character is left out.
pub cuts-Covers :
    (is_space : ℕ → Bool) (cfg : ChunkingConfig) (text : Text) (lines : List Line)
    → is_valid_config cfg ≡ true
    → total lines ≡ length text
    → (cs : List Cut) × (cuts is_space cfg text (fenced_spans lines (length text)) ≡ some cs)
      × Covers 0 0 (length text) cs
unfolding cuts fenced_spans
cuts-Covers is_space cfg text lines v t =
    let spans = fenced_spans lines (length text) in
    let o : AreOrdered 0 (length text) spans =
      fenced_from-AreOrdered lines 0 none 0 (length text) (omega (arith, t)) (omega arith) in
    let r = cuts-some is_space cfg text spans in
    (
      r.0,
      r.1,
      cuts_from-Covers is_space cfg text spans v o (length text) 0 0 0 (omega arith) (omega arith)
          (omega arith) r.0 r.1,
    )
