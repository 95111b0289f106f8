-- ===== src/Libft/Split/Parts.antt =====
-- The loops over the chars of a word, in terms of the string.
use nm.Common.{
  ℕ, suc, ◌+◌, ◌%◌, ◌^◌, ◌≤◌, ◌<◌, ◌≡◌, refl, ap, ◌∙◌, Bool, Option, none, some, List, [], ◌∷◌,
  ◌++◌, length, length-replicate, take, drop, Bool-cases, inl, inr, ne→==, arith,
}
use nm.Common.Options.{◌>>=◌, onward}
use nm.Libft.Buffer.{Buffer, malloc, store}
use nm.Libft.Buffer.Laws.{held, store-at, length-held}
use nm.Libft.Strings.Holds.{Holds, nul, char}
use nm.Libft.Copies.{ncopy_loop}
use nm.Libft.Copies.Laws.{ncopy_loop-copies, fresh}
use nm.Common.Slices.{length-take}
use nm.Libft.Split.{skip_between, skip_word, word_length, ft_fillwords}
use nm.Libft.Split.Words.{word, rest, skip}

module _ (test : ℕ → Option Bool) (between : ℕ → Bool)
    (agrees : (a : ℕ) → test a ≡ some (between a)) where
  pub skip_between-skip :
      {x s : List ℕ}
      → Holds x s
      → (y : List ℕ) × (skip_between test x ≡ some y) × Holds y (skip between s)
  unfolding skip_between skip
  skip_between-skip (nul {c} r z) = (c ∷ r, rw z refl, nul r z)
  skip_between-skip (char {c} {x} {s} nz h) = elim (Bool-cases (between c)) [
    | inl b ↦ let (y, e, k) = skip_between-skip h in (y, rw (ne→== c 0 nz, agrees c, b) e, rw b k)
    | inr n ↦ (c ∷ x, rw (ne→== c 0 nz, agrees c, n) refl, rw n (char nz h))
  ]

  pub skip_word-rest :
      {x s : List ℕ}
      → Holds x s
      → (y : List ℕ) × (skip_word test x ≡ some y) × Holds y (rest between s)
  unfolding skip_word rest
  skip_word-rest (nul {c} r z) = (c ∷ r, rw z refl, nul r z)
  skip_word-rest (char {c} {x} {s} nz h) = elim (Bool-cases (between c)) [
    | inl b ↦ (c ∷ x, rw (ne→== c 0 nz, agrees c, b) refl, rw b (char nz h))
    | inr n ↦ let (y, e, k) = skip_word-rest h in (y, rw (ne→== c 0 nz, agrees c, n) e, rw n k)
  ]

  pub word_length-word :
      {x s : List ℕ} (n : ℕ)
      → Holds x s
      → n + length s < 2 ^ 32
      → word_length test x n ≡ some (n + length (word between s))
  unfolding word_length word
  word_length-word n (nul {c} r z) b = rw z (ground arith)
  word_length-word n (char {c} {x} {s} nz h) b = elim (Bool-cases (between c)) [
    | inl e ↦ rw (ne→== c 0 nz, agrees c, e) (ground arith)
    | inr e ↦
        rw (ne→== c 0 nz, agrees c, e)
          (ap (word_length test x) (small n b)
            ∙ word_length-word (n + 1) h (omega arith)
            ∙ ground arith)
  ]
    where
      small : (n : ℕ) → n + suc (length s) < 2 ^ 32 → (n + 1) % 2 ^ 32 ≡ n + 1
      small n b = omega arith

module _ (between : ℕ → Bool) where
  pub take-word : (s : List ℕ) → take (length (word between s)) s ≡ word between s
  unfolding word
  take-word [] = refl
  take-word (a ∷ s) = elim (Bool-cases (between a)) [
    | inl e ↦ rw e refl
    | inr e ↦ rw e (ap (λ (l : List ℕ). a ∷ l) (take-word s))
  ]

  pub length-word : (s : List ℕ) → length (word between s) ≤ length s
  unfolding word
  length-word [] = omega arith
  length-word (a ∷ s) = ground (arith, length-word s)

  pub drop-word :
      {x s : List ℕ} → Holds x s → Holds (drop (length (word between s)) x) (rest between s)
  unfolding word rest
  drop-word (nul r z) = nul r z
  drop-word (char {c} nz h) = elim (Bool-cases (between c)) [
    | inl e ↦ rw e (char nz h)
    | inr e ↦ rw e (drop-word h)
  ]

-- The first chars are copied, with a NUL, into memory of their size.
ft_fillwords-take :
    {x s : List ℕ} (n : ℕ)
    → Holds x s
    → n ≤ length s
    → ft_fillwords n x ≡ some (held (take n s) ++ (some 0 ∷ []))
unfolding ft_fillwords
ft_fillwords-take {x} {s} n h few =
    ap (λ (b : Buffer). ncopy_loop b 0 x n >>= λ r. store r.0 r.1 0) (fresh n)
    ∙ onward _
        (ncopy_loop-copies n [] (malloc n) (none ∷ []) 0 h few (length-replicate n none) refl)
    ∙ store-at (held (take n s)) [] none (0 + n) 0
        (omega (arith, length-held (take n s), length-take n s few))

pub ft_fillwords-word :
    (between : ℕ → Bool) {x s : List ℕ}
    → Holds x s
    → ft_fillwords (length (word between s)) x ≡ some (held (word between s) ++ (some 0 ∷ []))
ft_fillwords-word between {x} {s} h =
    ft_fillwords-take (length (word between s)) h (length-word between s)
    ∙ ap (λ (w : List ℕ). some (held w ++ (some 0 ∷ []))) (take-word between s)
