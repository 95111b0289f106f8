-- ===== src/Libft/Split.antt =====
-- ft_strsplit.c and ft_split.c: the words of a string, in an array of pointers that NULL ends. A string
-- is the list of the bytes from its pointer to the end of its object. `malloc` does not fail. The loops
-- over words take the rounds that they may make; `none` is an access outside, or too few rounds.
pub mod Words
pub mod Parts
pub mod Counted
pub mod Filled
pub mod Charset
use mathlib.Core.Option
use nm.Common.{
  ℕ, zero, suc, ◌+◌, ◌%◌, ◌^◌, Bool, true, false, not, Option, none, some, List, [], ◌∷◌, get_elem?,
  set, replicate, drop, length, ltb, ◌==◌, if◌then◌else◌,
}
use nm.Common.Options.{◌>>=◌}
use nm.Libft.Buffer.{Buffer, malloc, store}
use nm.Libft.Copies.{ncopy_loop}

-- An array of `char *`: an entry that is not set, NULL, or a word.
abbrev pub Words : Type 0
Words = List (Option (Option Buffer))

unfoldable pub store_word : Words → (i : ℕ) → Option Buffer → Option Words
store_word words i w = elim (get_elem? words i) [
  | none ↦ none
  | some old ↦ some (set words i (some w))
]

-- `check_include`: whether `a` is one of the chars of the string.
unfoldable pub check_include : (a : ℕ) → (charset : List ℕ) → Option Bool
check_include a [] = none
check_include a (b ∷ charset) =
    if b == 0 then some false else if a == b then some true else check_include a charset

-- The tests for a char between words, in ft_strsplit and in ft_split.
abbrev pub is_char : (c : ℕ) → ℕ → Option Bool
is_char c a = some (a == c)

abbrev pub is_included : (charset : List ℕ) → ℕ → Option Bool
is_included charset a = check_include a charset

module _ (between : ℕ → Option Bool) where
  -- `while (*s && *s == c) s++;`
  unfoldable pub skip_between : List ℕ → Option (List ℕ)
  skip_between [] = none
  skip_between (a ∷ s) =
      if a == 0 then some (a ∷ s) else do b ← between a; if b then skip_between s else some (a ∷ s)

  -- `while (*s && *s != c) s++;`
  unfoldable pub skip_word : List ℕ → Option (List ℕ)
  skip_word [] = none
  skip_word (a ∷ s) =
      if a == 0 then some (a ∷ s) else do b ← between a; if b then some (a ∷ s) else skip_word s

  -- `while (*s && *s != c) { s++; len++; }`
  unfoldable pub word_length : List ℕ → (len : ℕ) → Option ℕ
  word_length [] len = none
  word_length (a ∷ s) len =
      if a == 0
      then some len
      else do b ← between a; if b then some len else word_length s ((len + 1) % 2 ^ 32)

  -- `if (*s && *s != c) { count++; while (*s && *s != c) s++; }`
  unfoldable pub count_word : List ℕ → (count : ℕ) → Option (List ℕ × ℕ)
  count_word [] count = none
  count_word (a ∷ s) count = if a == 0 then some (a ∷ s, count) else do
    b ← between a
    if b
        then some (a ∷ s, count)
        else Option.map (λ r. (r, (count + 1) % 2 ^ 32)) (skip_word (a ∷ s))

  -- `while (*s)` of `wc` and of `number_word`
  unfoldable pub wc_loop : ℕ → List ℕ → (count : ℕ) → Option ℕ
  wc_loop zero s count = none
  wc_loop (suc left) [] count = none
  wc_loop (suc left) (a ∷ s) count = if a == 0 then some count else do
    s' ← skip_between (a ∷ s)
    (s'', count') ← count_word s' count
    wc_loop left s'' count'

unfoldable pub ft_nbwords : List ℕ → (c : ℕ) → Option ℕ
ft_nbwords s c = word_length (is_char c) s 0

unfoldable pub wc : List ℕ → (c : ℕ) → Option ℕ
wc s c = wc_loop (is_char c) (length s) s 0

unfoldable pub number_word : List ℕ → (charset : List ℕ) → Option ℕ
number_word s charset = wc_loop (is_included charset) (length s) s 0

unfoldable pub ft_fillwords : (l : ℕ) → List ℕ → Option Buffer
ft_fillwords l str = do (s, j) ← ncopy_loop (malloc (l + 1)) 0 str l; store s j 0

-- `while (i < y && *s)`
unfoldable pub split_loop : ℕ → (c : ℕ) → Words → List ℕ → (i y : ℕ) → Option (Words × ℕ)
split_loop zero c words s i y = none
split_loop (suc left) c words s i y = if not (ltb i y) then some (words, i) else elim s [
  | [] ↦ none
  | a ∷ r ↦ if a == 0 then some (words, i) else do
    s' ← skip_between (is_char c) (a ∷ r)
    len ← ft_nbwords s' c
    word ← ft_fillwords len s'
    words' ← store_word words i (some word)
    split_loop left c words' (drop len s') ((i + 1) % 2 ^ 32) y
]

unfoldable pub ft_strsplit : List ℕ → (c : ℕ) → Option Words
ft_strsplit s c = do
  y ← wc s c
  (words, i) ← split_loop (y + 1) c (replicate ((y + 1) % 2 ^ 32) none) s 0 y
  store_word words i none

-- `while (++k < length) result[i][k] = *str++;`
unfoldable pub chars_loop : Buffer → (k : ℕ) → List ℕ → (left : ℕ) → Option Buffer
chars_loop word k str zero = some word
chars_loop word k [] (suc left) = none
chars_loop word k (c ∷ str) (suc left) = do
  word' ← store word k c
  chars_loop word' (k + 1) str left

-- One round of ft_split: the word is copied behind the others.
unfoldable pub copy_word : (charset : List ℕ) → Words → List ℕ → (i : ℕ) → Option (Words × List ℕ)
copy_word charset result str i = do
  length ← word_length (is_included charset) str 0
  word ← chars_loop (malloc (length + 1)) 0 str length
  word' ← store word length 0
  result' ← store_word result i (some word')
  some (result', drop length str)

-- `if (!*str) break ;`
abbrev pub at_end : List ℕ → Option Bool
at_end [] = none
at_end (c ∷ str) = some (c == 0)

-- `while (*str)` of ft_split
unfoldable pub words_loop : ℕ → (charset : List ℕ) → Words → List ℕ → (i : ℕ) → Option (Words × ℕ)
words_loop zero charset result str i = none
words_loop (suc left) charset result [] i = none
words_loop (suc left) charset result (c ∷ str) i = if c == 0 then some (result, i) else do
  str' ← skip_between (is_included charset) (c ∷ str)
  stop ← at_end str'
  let next = (do
    (result', str'') ← copy_word charset result str' i
    words_loop left charset result' str'' (i + 1))
  if stop then some (result, i) else next

unfoldable pub ft_split : (str charset : List ℕ) → Option Words
ft_split str charset = do
  n ← number_word str charset
  (result, i) ← words_loop (length str) charset (replicate (n + 1) none) str 0
  store_word result i none
