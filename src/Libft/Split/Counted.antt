-- ===== src/Libft/Split/Counted.antt =====
-- `wc` (ft_strsplit.c) and `number_word` (ft_split.c), by the words of the string.
use nm.Common.{
  ℕ, zero, suc, ◌+◌, ◌%◌, ◌^◌, ◌<◌, ◌≤◌, ◌≡◌, refl, ap, ◌∙◌, Bool, false, Option, some, List, [],
  ◌∷◌, length, Bool-cases, inl, inr, ne→==, arith, ◌==◌,
}
use nm.Common.Options.{onward}
use nm.Libft.Strings.Holds.{Holds, nul, char, Holds-length}
use nm.Libft.Split.{skip_between, count_word, wc_loop, wc, is_char}
use nm.Libft.Split.Words.{words, rest, skip, words-skip, words-word, length-rest, length-skip}
use nm.Libft.Split.Parts.{skip_between-skip, skip_word-rest}

-- The string behind the chars between words: it ends, or goes on with a word.
pub data First (between : ℕ → Bool) : List ℕ → Type 0 where
  ends : First between []
  starts : (a : ℕ) (s : List ℕ) → between a ≡ false → First between (a ∷ s)

pub first : (between : ℕ → Bool) (s : List ℕ) → First between (skip between s)
unfolding skip
first between [] = ends
first between (a ∷ s) = elim (Bool-cases (between a)) [
  | inl e ↦ rw e (first between s)
  | inr e ↦ rw e (starts a s e)
]

module _ (test : ℕ → Option Bool) (between : ℕ → Bool)
    (agrees : (a : ℕ) → test a ≡ some (between a)) where
  count_word-end : {x : List ℕ} (count : ℕ) → Holds x [] → count_word test x count ≡ some (x, count)
  unfolding count_word
  count_word-end count (nul r z) = rw z refl

  count_word-starts :
      {x s : List ℕ} (a count : ℕ)
      → Holds x (a ∷ s)
      → between a ≡ false
      → (y : List ℕ) × (count_word test x count ≡ some (y, (count + 1) % 2 ^ 32))
        × Holds y (rest between s)
  unfolding count_word rest
  count_word-starts {x = []} a count h n = elim h [ ]
  count_word-starts {x = c ∷ x} {s} a count (char nz h) n =
      let (y, e, k) = skip_word-rest test between agrees (char nz h) in
      (y, rw (ne→== a 0 nz, agrees a, n, e) refl, rw n at k)

  wc_loop-end :
      {x : List ℕ} (left count : ℕ) → Holds x [] → wc_loop test (suc left) x count ≡ some count
  unfolding wc_loop
  wc_loop-end left count (nul r z) = rw z refl

  wc_loop-round :
      {x x' x'' s : List ℕ} {c : ℕ} (left count count' : ℕ)
      → Holds x (c ∷ s)
      → skip_between test x ≡ some x'
      → count_word test x' count ≡ some (x'', count')
      → wc_loop test (suc left) x count ≡ wc_loop test left x'' count'
  unfolding wc_loop
  wc_loop-round left count count' (char {c} nz h) e f = rw (ne→== c 0 nz) (onward _ e ∙ onward _ f)

  -- What a round does behind the chars between words.
  record Round (left : ℕ) (x t : List ℕ) (count : ℕ) : Type 0 where
    next : List ℕ
    counted : ℕ
    runs : count_word test x count ≡ some (next, counted)
    others : wc_loop test left next counted ≡ some (count + length (words between t))

  Round-first :
      {x t : List ℕ} (left count : ℕ)
      → First between t
      → Holds x t
      → length t ≤ left
      → 0 < left
      → count + length t < 2 ^ 32
      → ((y s : List ℕ) (n : ℕ)
          → Holds y s
          → length s < left
          → n + length s < 2 ^ 32
          → wc_loop test left y n ≡ some (n + length (words between s)))
      → Round left x t count
  Round-first {x} left count ends h enough some_left fits others = record {
    next = x;
    counted = count;
    runs = count_word-end count h;
    others = others x [] count h some_left fits;
  }
  Round-first left count (starts a s n) h enough some_left fits others =
      let (y, e, k) = count_word-starts a count h n in
      let shorter = length-rest between s in
      let small : (count + 1) % 2 ^ 32 ≡ count + 1 = omega arith in
      record {
        next = y;
        counted = count + 1;
        runs = rw small at e;
        others =
            others y (rest between s) (count + 1) k (omega arith) (omega arith)
            ∙ ap some (omega (arith, ap length (words-word between a s n)));
      }

  -- With a round for each char and one more, all words are counted.
  pub wc_loop-words :
      (left : ℕ) (x s : List ℕ) (count : ℕ)
      → Holds x s
      → length s < left
      → count + length s < 2 ^ 32
      → wc_loop test left x count ≡ some (count + length (words between s))
  unfolding words
  wc_loop-words zero x s count h enough fits = absurd (omega arith)
  wc_loop-words (suc left) x [] count h enough fits = wc_loop-end left count h ∙ ground arith
  wc_loop-words (suc left) x (c ∷ s) count h enough fits =
      let (y, e, k) = skip_between-skip test between agrees h in
      let shorter = length-skip between (c ∷ s) in
      let r =
        Round-first left count (first between (c ∷ s)) k (omega arith) (omega arith) (omega arith)
          (wc_loop-words left) in
      wc_loop-round left count r.counted h e r.runs
      ∙ r.others
      ∙ ap (λ (ws : List (List ℕ)). some (count + length ws)) (words-skip between (c ∷ s))

pub wc-words :
    {x s : List ℕ} (c : ℕ)
    → Holds x s
    → length s < 2 ^ 32
    → wc x c ≡ some (length (words (λ a. a == c) s))
unfolding wc
wc-words {x} {s} c h fits =
    wc_loop-words (is_char c) (λ a. a == c) (λ a. refl) (length x) x s 0 h (Holds-length h)
      (omega arith)
    ∙ ground arith
