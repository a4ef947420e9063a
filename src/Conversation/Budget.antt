-- ===== src/Conversation/Budget.antt =====
-- `truncate_text_to_budget` of src/zglab_rag/conversation/context.py. How many bytes a character has in
-- UTF-8 is a parameter; the limits are natural numbers, so there is no `ValueError`.
use zglab_rag.Prelude.{
  ℕ, zero, suc, ◌+◌, ◌≤◌, min, ◌≡◌, refl, sym, ap, inl, inr, Bool, false, ◌&&◌, not, Bool-cases,
  and_true, [], ◌∷◌, Text, length, take, leb, ltb, leb→le, ◌==◌, nat_eq, if◌then◌else◌, if-cases,
  arith,
}

module _ (bytes_of : ℕ → ℕ) where
  -- `len(text.encode("utf-8"))`
  abbrev pub bytes : Text → ℕ
  bytes [] = 0
  bytes (c ∷ t) = bytes_of c + bytes t

  -- The loop, from a prefix of `n` characters on.
  unfoldable pub shrink : ℕ → ℕ → Text → Text
  shrink max_bytes zero text = []
  shrink max_bytes (suc n) text =
      let rest = shrink max_bytes n text in
      if ltb max_bytes (bytes (take (suc n) text)) then rest else take (suc n) text

  -- The prefix, and whether it is not the whole text.
  unfoldable pub truncate_text_to_budget : Text → ℕ → ℕ → Text × Bool
  truncate_text_to_budget text max_chars max_bytes =
      if leb (length text) max_chars && leb (bytes text) max_bytes
      then (text, false)
      else let prefix = shrink max_bytes (min max_chars (length text)) text in
        (prefix, not (length prefix == length text))

  -- The longest prefix of at most `n` characters that is within the bytes.
  pub record IsLongest (max_bytes n : ℕ) (text prefix : Text) : Type 0 where
    pub size : ℕ
    pub is_prefix : prefix ≡ take size text
    pub its_size : length prefix ≡ size
    pub few : size ≤ n
    pub fits : bytes prefix ≤ max_bytes
    pub longest : (m : ℕ) → m ≤ n → bytes (take m text) ≤ max_bytes → m ≤ size

  take-all : (text : Text) (n : ℕ) → length text ≤ n → take n text ≡ text
  take-all [] zero h = refl
  take-all [] (suc n) h = refl
  take-all (c ∷ t) zero h = absurd (omega (arith, h))
  take-all (c ∷ t) (suc n) h = ap (λ x. c ∷ x) (take-all t n (omega (arith, h)))

  pub length-take : (text : Text) (n : ℕ) → n ≤ length text → length (take n text) ≡ n
  length-take text zero h = refl
  length-take [] (suc n) h = absurd (omega (arith, h))
  length-take (c ∷ t) (suc n) h = ap suc (length-take t n (omega (arith, h)))

  shrink-IsLongest :
      (max_bytes n : ℕ) (text : Text)
      → n ≤ length text
      → IsLongest max_bytes n text (shrink max_bytes n text)
  unfolding shrink
  shrink-IsLongest max_bytes zero text h = record {
    size = 0;
    is_prefix = refl;
    its_size = refl;
    few = omega arith;
    fits = omega arith;
    longest = λ m a b. a;
  }
  shrink-IsLongest max_bytes (suc n) text h =
      if-cases (IsLongest max_bytes (suc n) text) (ltb max_bytes (bytes (take (suc n) text)))
        (shrink max_bytes n text) (take (suc n) text)
        (λ e.
          let r = shrink-IsLongest max_bytes n text (omega (arith, h)) in
          record {
            size = r.size;
            is_prefix = r.is_prefix;
            its_size = r.its_size;
            few = omega (arith, r.few);
            fits = r.fits;
            longest = λ m a b. elim (Bool-cases (m == suc n)) [
              | inl t ↦ absurd (
                  ground
                    (arith, e, ap (λ k. bytes (take k text)) ((nat_eq.beq_iff m (suc n)).0 t), b))
              | inr t ↦ r.longest m (ground (arith, a, t)) b
            ];
          })
        (λ e. record {
          size = suc n;
          is_prefix = refl;
          its_size = length-take text (suc n) h;
          few = omega arith;
          fits = ground (arith, e);
          longest = λ m a b. a;
        })

  -- What is returned: the longest prefix within both limits, and whether it is shorter than the text.
  abbrev pub IsTruncated : ℕ → ℕ → Text → Text × Bool → Type 0
  IsTruncated max_chars max_bytes text x =
      IsLongest max_bytes (min max_chars (length text)) text x.0
      × (x.1 ≡ not (length x.0 == length text))

  whole :
      (max_chars max_bytes : ℕ) (text : Text)
      → length text ≤ max_chars
      → bytes text ≤ max_bytes
      → IsTruncated max_chars max_bytes text (text, false)
  whole max_chars max_bytes text h k = (
    record {
      size = length text;
      is_prefix = sym (take-all text (length text) (omega arith));
      its_size = refl;
      few = ground (arith, h);
      fits = k;
      longest = λ m a b. ground (arith, a);
    },
    ground arith,
  )

  -- The result is the longest prefix of the text that is within both limits, characters and bytes, and the
  -- flag says whether it is shorter than the text.
  pub truncate_text_to_budget-IsTruncated :
      (text : Text) (max_chars max_bytes : ℕ)
      → IsTruncated max_chars max_bytes text (truncate_text_to_budget text max_chars max_bytes)
  unfolding truncate_text_to_budget
  truncate_text_to_budget-IsTruncated text max_chars max_bytes =
      let n = min max_chars (length text) in
      let prefix = shrink max_bytes n text in
      if-cases (IsTruncated max_chars max_bytes text)
        (leb (length text) max_chars && leb (bytes text) max_bytes) (text, false)
        (prefix, not (length prefix == length text))
        (λ e.
          let w = and_true (leb (length text) max_chars) (leb (bytes text) max_bytes) e in
          whole max_chars max_bytes text (leb→le (length text) max_chars w.0)
            (leb→le (bytes text) max_bytes w.1))
        (λ e. (shrink-IsLongest max_bytes n text (ground arith), refl))
