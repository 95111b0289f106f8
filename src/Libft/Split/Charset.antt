-- ===== src/Libft/Split/Charset.antt =====
-- The loops of `ft_split` (libft/ft_split.c), by the words between the chars of a set.
use mathlib.Core.Path.{subst}
use mathlib.Core.List.{append_assoc}
use nm.Common.{
  ℕ, zero, suc, ◌+◌, ◌^◌, ◌<◌, ◌≤◌, ◌≡◌, refl, sym, ap, ◌∙◌, Bool, true, false, ◌||◌, none, some,
  List, [], ◌∷◌, ◌++◌, length, length-append, length-map, length-replicate, replicate, take, drop,
  ◌==◌, ne→==, arith, Bool-cases, inl, inr,
}
use nm.Common.Options.{onward}
use nm.Libft.Buffer.{Buffer, malloc, store}
use nm.Libft.Buffer.Laws.{held, store-at, length-held}
use nm.Libft.Copies.Laws.{fresh}
use nm.Libft.Strings.Holds.{Holds, nul, char, holds, Holds-length}
use nm.Libft.Strings.Laws.{c_string}
use nm.Libft.Split.{
  Words, store_word, check_include, is_included, skip_between, number_word, chars_loop, copy_word,
  at_end, words_loop, ft_split,
}
use nm.Libft.Split.Words.{
  words, word, rest, skip, words-skip, words-starts, length-rest, length-skip,
}
use nm.Libft.Split.Parts.{skip_between-skip, word_length-word, drop-word, take-word, length-word}
use nm.Libft.Split.Counted.{First, ends, starts, first, wc_loop-words}
use nm.Libft.Split.Filled.{entries, store_word-at, replicate-suc}

-- Whether a set has a char.
abbrev pub has : List ℕ → ℕ → Bool
has [] a = false
has (c ∷ set) a = a == c || has set a

check_include-has : {x set : List ℕ} (a : ℕ) → Holds x set → check_include a x ≡ some (has set a)
unfolding check_include
check_include-has a (nul r z) = rw z refl
check_include-has a (char {c} {x} {s} nz h) = elim (Bool-cases (a == c)) [
  | inl e ↦ rw (ne→== c 0 nz, e) refl
  | inr e ↦ rw (ne→== c 0 nz, e) (check_include-has a h)
]

chars_loop-step :
    (dest dest' : Buffer) (i c n : ℕ) (x : List ℕ)
    → store dest i c ≡ some dest'
    → chars_loop dest i (c ∷ x) (suc n) ≡ chars_loop dest' (i + 1) x n
unfolding chars_loop
chars_loop-step dest dest' i c n x e = rw e refl

chars_loop-none : (dest : Buffer) (i : ℕ) (x : List ℕ) → chars_loop dest i x 0 ≡ some dest
unfolding chars_loop
chars_loop-none dest i x = refl

chars_loop-copies :
    {x s : List ℕ} (n : ℕ) (pre mid post : Buffer) (i : ℕ)
    → Holds x s
    → n ≤ length s
    → length mid ≡ n
    → i ≡ length pre
    → chars_loop (pre ++ (mid ++ post)) i x n ≡ some (pre ++ (held (take n s) ++ post))
chars_loop-copies {x} zero pre [] post i h few room e = chars_loop-none (pre ++ post) i x
chars_loop-copies zero pre (m ∷ mid) post i h few room e = absurd (omega arith)
chars_loop-copies (suc n) pre [] post i h few room e = absurd (omega arith)
chars_loop-copies (suc n) pre (m ∷ mid) post i (nul rest z) few room e = absurd (omega arith)
chars_loop-copies (suc n) pre (m ∷ mid) post i (char {c} {x} {s} nz h) few room e =
    chars_loop-step _ _ i c n x (store-at pre (mid ++ post) m i c e)
    ∙ ap (λ (b : Buffer). chars_loop b (i + 1) x n)
        (sym (append_assoc pre (some c ∷ []) (mid ++ post)))
    ∙ chars_loop-copies n (pre ++ (some c ∷ [])) mid post (i + 1) h (omega arith) (omega arith)
        (omega (arith, length-append pre (some c ∷ [])))
    ∙ ap some (append_assoc pre (some c ∷ []) (held (take n s) ++ post))

module _ {charset : List ℕ} (set : List ℕ) (included : Holds charset set) where
  agrees : (a : ℕ) → is_included charset a ≡ some (has set a)
  agrees a = check_include-has a included

  -- The word that a string starts with is copied into memory of its size.
  copy_word-word :
      {x t : List ℕ} {array' : Words} (array : Words) (i : ℕ)
      → Holds x t
      → length t < 2 ^ 32
      → store_word array i (some (held (word (has set) t) ++ (some 0 ∷ []))) ≡ some array'
      → copy_word charset array x i ≡ some (array', drop (length (word (has set) t)) x)
  unfolding copy_word
  copy_word-word {x} {t} array i h fits e =
      let w = word (has set) t in
      onward _ (
        word_length-word (is_included charset) (has set) agrees 0 h (omega arith)
        ∙ ap some (omega arith))
      ∙ onward _ (
          ap (λ (b : Buffer). chars_loop b 0 x (length w)) (fresh (length w))
          ∙ chars_loop-copies (length w) [] (malloc (length w)) (none ∷ []) 0 h
              (length-word (has set) t) (length-replicate (length w) none) refl
          ∙ ap (λ (l : List ℕ). some (held l ++ (none ∷ []))) (take-word (has set) t))
      ∙ onward _ (store-at (held w) [] none (length w) 0 (sym (length-held w)))
      ∙ onward _ e

  words_loop-end :
      {x : List ℕ} (left i : ℕ) (array : Words)
      → Holds x []
      → words_loop (suc left) charset array x i ≡ some (array, i)
  unfolding words_loop
  words_loop-end left i array (nul r z) = rw z refl

  at_end-ends : {x : List ℕ} → Holds x [] → at_end x ≡ some true
  at_end-ends (nul r z) = rw z refl

  at_end-starts : {x s : List ℕ} {a : ℕ} → Holds x (a ∷ s) → at_end x ≡ some false
  at_end-starts (char {c} nz h) = rw (ne→== c 0 nz) refl

  words_loop-last :
      {x s x' : List ℕ} {a : ℕ} (left i : ℕ) (array : Words)
      → Holds x (a ∷ s)
      → skip_between (is_included charset) x ≡ some x'
      → at_end x' ≡ some true
      → words_loop (suc left) charset array x i ≡ some (array, i)
  unfolding words_loop
  words_loop-last left i array (char {c} nz h) e f = rw (ne→== c 0 nz) (onward _ e ∙ onward _ f)

  words_loop-round :
      {x s x' x'' : List ℕ} {a : ℕ} {array' : Words} (left i : ℕ) (array : Words)
      → Holds x (a ∷ s)
      → skip_between (is_included charset) x ≡ some x'
      → at_end x' ≡ some false
      → copy_word charset array x' i ≡ some (array', x'')
      → words_loop (suc left) charset array x i ≡ words_loop left charset array' x'' (i + 1)
  unfolding words_loop
  words_loop-round left i array (char {c} nz h) e f g =
      rw (ne→== c 0 nz) (onward _ e ∙ onward _ f ∙ onward _ g)

  -- What is left behind the chars of the set: nothing, or the first word and the others.
  data Behind (x : List ℕ) (size : ℕ) : List (List ℕ) → Type 0 where
    none_left : at_end x ≡ some true → Behind x size []
    one_more :
        {ws : List (List ℕ)} (w s : List ℕ)
        → at_end x ≡ some false
        → ((array array' : Words) (i : ℕ)
            → store_word array i (some (held w ++ (some 0 ∷ []))) ≡ some array'
            → copy_word charset array x i ≡ some (array', drop (length w) x))
        → Holds (drop (length w) x) s
        → words (has set) s ≡ ws
        → length s < size
        → Behind x size (w ∷ ws)

  rest-shorter :
      (a : ℕ) (s : List ℕ) → has set a ≡ false → length (rest (has set) (a ∷ s)) < suc (length s)
  unfolding rest
  rest-shorter a s n = rw n (omega (arith, length-rest (has set) s))

  Behind-first :
      {x t : List ℕ} {size : ℕ}
      → First (has set) t
      → Holds x t
      → length t < 2 ^ 32
      → length t ≤ size
      → Behind x size (words (has set) t)
  unfolding words
  Behind-first ends h fits le = none_left (at_end-ends h)
  Behind-first {x} {size} (starts a s n) h fits le = rw (words-starts (has set) a s n) (
      one_more (word (has set) (a ∷ s)) (rest (has set) (a ∷ s)) (at_end-starts h)
        (λ array array' i e. copy_word-word array i h fits e) (drop-word (has set) h) refl
        (omega (arith, rest-shorter a s n)))

  -- What the loop does with `left` rounds, for a string of fewer chars.
  abbrev Fills : (left : ℕ) → Type 0
  Fills left =
      (pre post : Words) (ws : List (List ℕ)) (x s : List ℕ) (i : ℕ)
      → Holds x s
      → words (has set) s ≡ ws
      → length s < 2 ^ 32
      → i ≡ length pre
      → length s < left
      → words_loop left charset (pre ++ (replicate (length ws) none ++ post)) x i
        ≡ some (pre ++ (entries ws ++ post), i + length ws)

  Fills-suc :
      {x s x' : List ℕ} {a : ℕ} {ws : List (List ℕ)} (left : ℕ) (pre post : Words) (i : ℕ)
      → Fills left
      → Holds x (a ∷ s)
      → length (a ∷ s) < 2 ^ 32
      → length (a ∷ s) < suc left
      → i ≡ length pre
      → skip_between (is_included charset) x ≡ some x'
      → Behind x' (length (a ∷ s)) ws
      → words_loop (suc left) charset (pre ++ (replicate (length ws) none ++ post)) x i
        ≡ some (pre ++ (entries ws ++ post), i + length ws)
  Fills-suc left pre post i others h fits enough at skipped (none_left e) =
      words_loop-last left i (pre ++ post) h skipped e ∙ ground arith
  Fills-suc left pre post i others h fits enough at skipped
        (one_more {ws} w s e copies on same le) =
      let entry = some (held w ++ (some 0 ∷ [])) in
      let next =
        others (pre ++ (some entry ∷ [])) post ws _ s (i + 1) on same (omega arith)
          (omega (arith, length-append pre (some entry ∷ []))) (omega arith) in
      let total : i + suc (length ws) ≡ i + 1 + length ws = omega arith in
      words_loop-round left i _ h skipped e
        (copies _ _ i (store_word-at pre (replicate (length ws) none ++ post) none entry i at))
      ∙ rw
          (
            total,
            sym (append_assoc pre (some entry ∷ []) (replicate (length ws) none ++ post)),
            sym (append_assoc pre (some entry ∷ []) (entries ws ++ post)),
          )
          next

  words_loop-words : (left : ℕ) → Fills left
  unfolding words
  words_loop-words zero pre post ws x s i h e fits at enough = absurd (omega arith)
  words_loop-words (suc left) pre post [] x [] i h e fits at enough =
      words_loop-end left i (pre ++ post) h ∙ ground arith
  words_loop-words (suc left) pre post (w ∷ ws) x [] i h e fits at enough = absurd (ground arith)
  words_loop-words (suc left) pre post ws x (a ∷ s) i h e fits at enough =
      let (x', skipped, k) = skip_between-skip (is_included charset) (has set) agrees h in
      let shorter = length-skip (has set) (a ∷ s) in
      let b : Behind x' (length (a ∷ s)) (words (has set) (skip (has set) (a ∷ s))) =
        Behind-first (first (has set) (a ∷ s)) k (omega arith) (omega arith) in
      let found : Behind x' (length (a ∷ s)) ws =
        subst (λ l. Behind x' (length (a ∷ s)) l) (words-skip (has set) (a ∷ s) ∙ e) b in
      Fills-suc left pre post i (words_loop-words left) h fits enough at skipped found

-- Where the objects hold a string of less than 2 ^ 31 chars and a set of chars, `ft_split` does not fault: it gives the words of the string between the chars of the set, in order and each with a NUL, and a NULL behind them, in an array that they fill.
pub ft_split-words :
    (x y s set : List ℕ)
    → c_string x ≡ some s
    → c_string y ≡ some set
    → length s < 2 ^ 31
    → ft_split x y ≡ some (entries (words (has set) s) ++ (some none ∷ []))
unfolding ft_split number_word
ft_split-words x y s set e f fits =
    let h = holds x s e in
    let k = holds y set f in
    let ws = words (has set) s in
    let one : length ws + 1 ≡ suc (length ws) = omega arith in
    onward _ (
      wc_loop-words (is_included y) (has set) (λ a. check_include-has a k) (length x) x s 0 h
        (Holds-length h) (omega arith)
      ∙ ap some (omega arith))
    ∙ onward _ (
        ap (λ (array : Words). words_loop (length x) y array x 0)
          (ap (λ n. replicate n none) one ∙ replicate-suc (length ws))
        ∙ words_loop-words set k (length x) [] (none ∷ []) ws x s 0 h refl (omega arith) refl
            (Holds-length h))
    ∙ store_word-at (entries ws) [] none none (0 + length ws)
        (omega (arith, length-map (λ w. some (some (held w ++ (some 0 ∷ [])))) ws))
