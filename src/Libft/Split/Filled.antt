-- ===== src/Libft/Split/Filled.antt =====
-- The loop of `ft_strsplit` (libft/ft_strsplit.c) and its array, by the words of the string.
use native.Mathlib.Nat.{zero-add}
use mathlib.Core.List.{append_assoc}
use nm.Common.{
  ℕ, zero, suc, ◌+◌, ◌%◌, ◌^◌, ◌<◌, ◌≤◌, ◌≡◌, refl, sym, ap, ◌∙◌, Bool, true, false, Option, none,
  some, List, [], ◌∷◌, ◌++◌, map, length, length-append, length-map, replicate, drop,
  get_elem?-middle, set-middle, ltb, ◌==◌, ne→==, arith,
}
use nm.Common.Options.{onward}
use nm.Libft.Buffer.{Buffer}
use nm.Libft.Buffer.Laws.{held}
use nm.Libft.Strings.Holds.{Holds, holds, char}
use nm.Libft.Strings.Laws.{c_string}
use nm.Libft.Split.{
  Words, store_word, skip_between, is_char, ft_nbwords, ft_fillwords, split_loop, ft_strsplit,
}
use nm.Libft.Split.Words.{
  words, word, rest, words-skip, words-starts, length-rest, length-skip, length-words,
}
use nm.Libft.Split.Parts.{skip_between-skip, word_length-word, drop-word, ft_fillwords-word}
use nm.Libft.Split.Counted.{First, ends, starts, first, wc-words}

-- Words as entries of the array, each in memory of its own, with a NUL.
abbrev pub entries : List (List ℕ) → Words
entries = map (λ w. some (some (held w ++ (some 0 ∷ []))))

pub store_word-at :
    (pre post : Words) (old : Option (Option Buffer)) (w : Option Buffer) (i : ℕ)
    → i ≡ length pre
    → store_word (pre ++ (old ∷ post)) i w ≡ some (pre ++ (some w ∷ post))
unfolding store_word
store_word-at pre post old w i e =
    ap (λ (n : ℕ). store_word (pre ++ (old ∷ post)) n w) e
    ∙ rw (get_elem?-middle pre old post, store_word) (ap some (set-middle pre old (some w) post))

small : (i n : ℕ) → i + suc n < 2 ^ 32 → (i + 1) % 2 ^ 32 ≡ i + 1
small i n h = omega arith

shift : (i n : ℕ) → i + suc n ≡ i + 1 + n
shift i n = omega arith

module _ (c : ℕ) where
  abbrev is_c : ℕ → Bool
  is_c a = a == c

  -- The word that a string starts with, as a round of the loop passes it on.
  record FirstWord (x : List ℕ) (w : List ℕ) (ws : List (List ℕ)) : Type 0 where
    size : ft_nbwords x c ≡ some (length w)
    copied : ft_fillwords (length w) x ≡ some (held w ++ (some 0 ∷ []))
    behind : List ℕ
    on : Holds (drop (length w) x) behind
    others : words is_c behind ≡ ws
    fits : length behind < 2 ^ 32

  first_of :
      {x t : List ℕ}
      → Holds x t
      → length t < 2 ^ 32
      → FirstWord x (word is_c t) (words is_c (rest is_c t))
  unfolding ft_nbwords
  first_of {x} {t} h fits = record {
    size = word_length-word (is_char c) is_c (λ a. refl) 0 h (omega arith) ∙ ground arith;
    copied = ft_fillwords-word is_c h;
    behind = rest is_c t;
    on = drop-word is_c h;
    others = refl;
    fits = omega (arith, length-rest is_c t);
  }

  FirstWord-first :
      {x t w : List ℕ} {ws : List (List ℕ)}
      → First is_c t
      → Holds x t
      → words is_c t ≡ w ∷ ws
      → length t < 2 ^ 32
      → FirstWord x w ws
  unfolding words
  FirstWord-first ends h e fits = absurd (ground arith)
  FirstWord-first {x} {w} {ws} (starts a s n) h e fits =
      let f = first_of h fits in
      let head : word is_c (a ∷ s) ≡ w = cc (words-starts is_c a s n) in
      let tail : words is_c (rest is_c (a ∷ s)) ≡ ws = cc (words-starts is_c a s n) in
      rw head at (rw tail at f)

  split_loop-done :
      (left : ℕ) (array : Words) (x : List ℕ) (i y : ℕ)
      → ltb i y ≡ false
      → split_loop (suc left) c array x i y ≡ some (array, i)
  unfolding split_loop
  split_loop-done left array x i y e = rw e refl

  split_loop-round :
      {x s x' : List ℕ} {a : ℕ} {w : Buffer} {array' : Words} (left : ℕ) (array : Words)
      (i y len : ℕ)
      → ltb i y ≡ true
      → Holds x (a ∷ s)
      → skip_between (is_char c) x ≡ some x'
      → ft_nbwords x' c ≡ some len
      → ft_fillwords len x' ≡ some w
      → store_word array i (some w) ≡ some array'
      → split_loop (suc left) c array x i y
        ≡ split_loop left c array' (drop len x') ((i + 1) % 2 ^ 32) y
  unfolding split_loop
  split_loop-round left array i y len more (char {c = b} nz h) e f g k =
      rw (more, ne→== b 0 nz) (onward _ e ∙ onward _ f ∙ onward _ g ∙ onward _ k)

  -- Each round stores a word, until all are stored.
  split_loop-words :
      (left : ℕ) (pre post : Words) (ws : List (List ℕ)) (x s : List ℕ) (i : ℕ)
      → Holds x s
      → words is_c s ≡ ws
      → length s < 2 ^ 32
      → i ≡ length pre
      → i + length ws < 2 ^ 32
      → length ws < left
      → split_loop left c (pre ++ (replicate (length ws) none ++ post)) x i (i + length ws)
        ≡ some (pre ++ (entries ws ++ post), i + length ws)
  unfolding words
  split_loop-words zero pre post ws x s i h e fits at below enough = absurd (omega arith)
  split_loop-words (suc left) pre post [] x s i h e fits at below enough =
      split_loop-done left _ x i (i + 0) (ground arith) ∙ ground arith
  split_loop-words (suc left) pre post (w ∷ ws) x [] i h e fits at below enough =
      absurd (ground arith)
  split_loop-words (suc left) pre post (w ∷ ws) x (a ∷ s) i h e fits at below enough =
      let (x', skipped, k) = skip_between-skip (is_char c) is_c (λ a. refl) h in
      let f =
        FirstWord-first (first is_c (a ∷ s)) k (words-skip is_c (a ∷ s) ∙ e)
          (omega (arith, length-skip is_c (a ∷ s))) in
      let entry = some (held w ++ (some 0 ∷ [])) in
      let next =
        split_loop-words left (pre ++ (some entry ∷ [])) post ws _ f.behind (i + 1) f.on f.others
          f.fits (omega (arith, length-append pre (some entry ∷ []))) (omega arith) (omega arith) in
      split_loop-round left _ i (i + suc (length ws)) (length w) (ground arith) h skipped f.size
        f.copied (store_word-at pre (replicate (length ws) none ++ post) none entry i at)
      ∙ rw
          (
            small i (length ws) below,
            shift i (length ws),
            sym (append_assoc pre (some entry ∷ []) (replicate (length ws) none ++ post)),
            sym (append_assoc pre (some entry ∷ []) (entries ws ++ post)),
          )
          next

pub replicate-suc :
    (n : ℕ) → ◌≡◌ {A = Words} (replicate (suc n) none) (replicate n none ++ (none ∷ []))
replicate-suc zero = refl
replicate-suc (suc n) = ap (λ (l : Words). none ∷ l) (replicate-suc n)

-- Where the object holds a string of less than 2 ^ 32 - 1 chars, `ft_strsplit` does not fault: it gives
-- the words of the string between the chars `c`, in order and each with a NUL, and a NULL behind
-- them, in an array that they fill.
pub ft_strsplit-words :
    (x s : List ℕ) (c : ℕ)
    → c_string x ≡ some s
    → length s + 1 < 2 ^ 32
    → ft_strsplit x c ≡ some (entries (words (λ a. a == c) s) ++ (some none ∷ []))
unfolding ft_strsplit
ft_strsplit-words x s c e fits =
    let h = holds x s e in
    let ws = words (λ a. a == c) s in
    let fewer = length-words (λ a. a == c) s in
    onward _ (wc-words c h (omega arith))
    ∙ onward _ (
        ap (λ (array : Words). split_loop (length ws + 1) c array x 0 (length ws)) (room ws fewer)
        ∙ rw (zero-add (length ws)) at (
            split_loop-words c (length ws + 1) [] (none ∷ []) ws x s 0 h refl (omega arith) refl
              (omega arith) (omega arith)))
    ∙ store_word-at (entries ws) [] none none (length ws) (sym (length-map _ ws))
  where
    room :
        (ws : List (List ℕ))
        → length ws ≤ length s
        → ◌≡◌ {A = Words}
            (replicate ((length ws + 1) % 2 ^ 32) none)
            (replicate (length ws) none ++ (none ∷ []))
    room ws fewer =
        let one : (length ws + 1) % 2 ^ 32 ≡ suc (length ws) = omega arith in
        ap (λ (n : ℕ). replicate n none) one ∙ replicate-suc (length ws)
