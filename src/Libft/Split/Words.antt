-- ===== src/Libft/Split/Words.antt =====
-- The words of a list of chars: its longest parts without a char between words.
use nm.Common.{
  ℕ, ◌≤◌, ◌≡◌, refl, sym, ap, ◌∙◌, Bool, true, false, not, List, [], ◌∷◌, length, if◌then◌else◌,
  Bool-cases, inl, inr, arith,
}

module _ (between : ℕ → Bool) where
  abbrev pub goes_on : List ℕ → Bool
  goes_on [] = false
  goes_on (a ∷ s) = not (between a)

  abbrev pub add_char : ℕ → List (List ℕ) → List (List ℕ)
  add_char a [] = (a ∷ []) ∷ []
  add_char a (w ∷ ws) = (a ∷ w) ∷ ws

  -- A char belongs to the word of the next one, if that is in a word, and else is a word of its own.
  unfoldable pub words : List ℕ → List (List ℕ)
  words [] = []
  words (a ∷ s) =
      let ws = words s in
      if between a then ws else if goes_on s then add_char a ws else (a ∷ []) ∷ ws

  -- What the loops pass over, and what is left.
  unfoldable pub word : List ℕ → List ℕ
  word [] = []
  word (a ∷ s) = if between a then [] else a ∷ word s

  unfoldable pub rest : List ℕ → List ℕ
  rest [] = []
  rest (a ∷ s) = if between a then a ∷ s else rest s

  unfoldable pub skip : List ℕ → List ℕ
  skip [] = []
  skip (a ∷ s) = if between a then skip s else a ∷ s

  words-between : (a : ℕ) (s : List ℕ) → between a ≡ true → words (a ∷ s) ≡ words s
  unfolding words
  words-between a s b = rw b refl

  words_one : (a : ℕ) → between a ≡ false → words (a ∷ []) ≡ (a ∷ []) ∷ words []
  unfolding words
  words_one a n = rw n refl

  words-alone :
      (a b : ℕ) (s : List ℕ)
      → between a ≡ false
      → between b ≡ true
      → words (a ∷ b ∷ s) ≡ (a ∷ []) ∷ words (b ∷ s)
  unfolding words
  words-alone a b s n e = rw (n, e) refl

  words-joined :
      (a b : ℕ) (s : List ℕ)
      → between a ≡ false
      → between b ≡ false
      → words (a ∷ b ∷ s) ≡ add_char a (words (b ∷ s))
  unfolding words
  words-joined a b s n e = rw (n, e) refl

  pub words-skip : (s : List ℕ) → words (skip s) ≡ words s
  unfolding skip
  words-skip [] = refl
  words-skip (a ∷ s) = elim (Bool-cases (between a)) [
    | inl b ↦ rw b (words-skip s ∙ sym (words-between a s b))
    | inr n ↦ rw n refl
  ]

  -- The first word, and those behind it.
  pub words-word :
      (a : ℕ) (s : List ℕ) → between a ≡ false → words (a ∷ s) ≡ (a ∷ word s) ∷ words (rest s)
  unfolding word rest
  words-word a [] n = words_one a n
  words-word a (b ∷ s) n = elim (Bool-cases (between b)) [
    | inl e ↦ words-alone a b s n e ∙ rw e refl
    | inr e ↦ words-joined a b s n e ∙ ap (add_char a) (words-word b s e) ∙ rw e refl
  ]

  -- The same, by the word and the rest of the whole.
  pub words-starts :
      (a : ℕ) (s : List ℕ) → between a ≡ false → words (a ∷ s) ≡ word (a ∷ s) ∷ words (rest (a ∷ s))
  unfolding word rest
  words-starts a s n = words-word a s n ∙ rw n refl

  pub length-rest : (s : List ℕ) → length (rest s) ≤ length s
  unfolding rest
  length-rest [] = omega arith
  length-rest (a ∷ s) = ground (arith, length-rest s)

  pub length-skip : (s : List ℕ) → length (skip s) ≤ length s
  unfolding skip
  length-skip [] = omega arith
  length-skip (a ∷ s) = ground (arith, length-skip s)

  pub length-words : (s : List ℕ) → length (words s) ≤ length s
  unfolding words
  length-words [] = omega arith
  length-words (a ∷ s) = ground (arith, length-words s)
