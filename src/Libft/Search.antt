-- ===== src/Libft/Search.antt =====
-- The functions of libft that look for a char or a string in another (ft_strstr.c, ft_strnstr.c,
-- ft_strrchr.c), and those that tell chars apart (ft_is*.c). A pointer into the string is its offset,
-- and NULL is a `none` inside. The loop of ft_strstr takes the rounds that it may make.
pub mod First
use mathlib.Core.Option
use nm.Common.{
  ℕ, zero, suc, ◌+◌, ◌-◌, Bool, true, false, not, ◌&&◌, ◌||◌, Option, none, some, List, [], ◌∷◌,
  get_elem?, drop, length, leb, ltb, ◌==◌, if◌then◌else◌,
}
use nm.Common.Options.{◌>>=◌}
use nm.Libft.Strings.{ft_strlen}
use nm.Libft.Split.{at_end}

-- `while (*haystack && *needle && *haystack != *needle) haystack++;`
unfoldable pub skip_to : List ℕ → (needle : List ℕ) → (i : ℕ) → Option (List ℕ × ℕ)
skip_to [] needle i = none
skip_to (a ∷ s) [] i = if a == 0 then some (a ∷ s, i) else none
skip_to (a ∷ s) (b ∷ t) i =
    if a == 0 || b == 0 || a == b then some (a ∷ s, i) else skip_to s (b ∷ t) (i + 1)

-- `while (*cp_haystack && *cp_needle && *cp_haystack == *cp_needle)`, and then `!*cp_needle`
unfoldable pub starts_with : List ℕ → (needle : List ℕ) → Option Bool
starts_with [] t = none
starts_with (a ∷ s) [] = none
starts_with (a ∷ s) (b ∷ t) =
    if not (a == 0) && not (b == 0) && a == b then starts_with s t else some (b == 0)

-- `while (*haystack)`
unfoldable pub strstr_loop : ℕ → List ℕ → (needle : List ℕ) → (i : ℕ) → Option (Option ℕ)
strstr_loop zero s t i = none
strstr_loop (suc left) [] t i = none
strstr_loop (suc left) (a ∷ s) t i = if a == 0 then some none else do
  (s', j) ← skip_to (a ∷ s) t i
  ended ← at_end s'
  elim ended [
    | true ↦ some none
    | false ↦ do
      same ← starts_with s' t
      elim same [ true ↦ some (some j) | false ↦ strstr_loop left (drop 1 s') t (j + 1) ]
  ]

unfoldable pub ft_strstr : (haystack needle : List ℕ) → Option (Option ℕ)
ft_strstr s [] = none
ft_strstr s (b ∷ t) = if b == 0 then some (some 0) else strstr_loop (length s) s (b ∷ t) 0

-- `while (big[i + j] && big[i + j] == little[j] && (i + j) <= len)`, with a count of the values of `j` that are
-- left.
unfoldable pub strnstr_inner : List ℕ → (little : List ℕ) → (left : ℕ) → Option Bool
strnstr_inner [] little left = none
strnstr_inner (a ∷ big) [] left = if a == 0 then some false else none
strnstr_inner (a ∷ big) (b ∷ little) zero = some false
strnstr_inner (a ∷ big) (b ∷ little) (suc left) =
    if not (a == 0) && a == b
    then (do
      ended ← at_end little
      elim ended [ true ↦ some true | false ↦ strnstr_inner big little left ])
    else some false

-- `while (i < len && big[i])`
unfoldable pub strnstr_loop : List ℕ → (little : List ℕ) → (i left : ℕ) → Option (Option ℕ)
strnstr_loop big little i zero = some none
strnstr_loop [] little i (suc left) = none
strnstr_loop (a ∷ big) little i (suc left) = if a == 0 then some none else do
  same ← strnstr_inner (a ∷ big) little (suc (suc left))
  elim same [ true ↦ some (some i) | false ↦ strnstr_loop big little (i + 1) left ]

unfoldable pub ft_strnstr : (big little : List ℕ) → (len : ℕ) → Option (Option ℕ)
ft_strnstr big little len = do
  ended ← at_end little
  if ended then some (some 0) else strnstr_loop big little 0 len

-- `while (i >= 0 && c != *(s + i)) i--;`, where the count is of the places from 0 to `i`
unfoldable pub strrchr_loop : List ℕ → (c left : ℕ) → Option (Option ℕ)
strrchr_loop s c zero = some none
strrchr_loop s c (suc i) = do
  a ← get_elem? s i
  let rest = strrchr_loop s c i
  if c == a then some (some i) else rest

unfoldable pub ft_strrchr : List ℕ → (c : ℕ) → Option (Option ℕ)
ft_strrchr s c = do n ← ft_strlen s; strrchr_loop s c (n + 1)

-- The chars that are given as an int that is not negative.
unfoldable pub ft_isalpha : ℕ → Bool
ft_isalpha c = leb 65 c && leb c 90 || leb 97 c && leb c 122

unfoldable pub ft_isdigit : ℕ → Bool
ft_isdigit c = leb 48 c && leb c 57

unfoldable pub ft_isalnum : ℕ → Bool
ft_isalnum c = ft_isalpha c || ft_isdigit c

unfoldable pub ft_isascii : ℕ → Bool
ft_isascii c = leb c 127

unfoldable pub ft_isprint : ℕ → Bool
ft_isprint c = ltb 31 c && ltb c 127
