-- ===== src/Libft/Copies.antt =====
-- The string functions of libft (libft/ft_str*.c) that write: a destination is an array of chars, and a
-- source the list of the bytes from its pointer to the end of its object. A string that is counted by an
-- int is taken to be shorter than 2 ^ 31. `malloc` does not fail. No pointer is NULL.
pub mod Laws
pub mod Trim
use mathlib.Core.Option
use nm.Common.{
  ℕ, zero, suc, ◌+◌, ◌-◌, ◌/◌, ◌%◌, ◌^◌, ◌||◌, Bool, Option, none, some, List, [], ◌∷◌, get_elem?,
  drop, leb, ltb, ◌==◌, if◌then◌else◌,
}
use nm.Common.Options.{◌>>=◌}
use nm.Libft.Buffer.{Buffer, malloc, store, written}
use nm.Libft.Strings.{ft_strlen}
use nm.Libft.Memory.{load, put, ft_bzero}

-- `while (*src) dest[i++] = *src++;`: the destination and `i`.
unfoldable pub copy_loop : Buffer → (i : ℕ) → (src : List ℕ) → Option (Buffer × ℕ)
copy_loop dest i [] = none
copy_loop dest i (c ∷ src) =
    if c == 0 then some (dest, i) else do dest' ← store dest i c; copy_loop dest' (i + 1) src

unfoldable pub ft_strcpy : Buffer → List ℕ → Option Buffer
ft_strcpy dest src = do (copied, i) ← copy_loop dest 0 src; store copied i 0

unfoldable pub ft_strcat : Buffer → List ℕ → Option Buffer
ft_strcat dest src = do
  length ← ft_strlen (written dest)
  (copied, i) ← copy_loop dest length src
  store copied i 0

unfoldable pub ft_strdup : List ℕ → Option Buffer
ft_strdup s = do n ← ft_strlen s; (copy, i) ← copy_loop (malloc (n + 1)) 0 s; store copy i 0

unfoldable pub ft_strjoin : List ℕ → List ℕ → Option Buffer
ft_strjoin s1 s2 = do
  n1 ← ft_strlen s1
  n2 ← ft_strlen s2
  add ← ft_strcpy (malloc (n1 + n2 + 1)) s1
  ft_strcat add s2

-- `while (i < n && *src)`
unfoldable pub ncopy_loop : Buffer → (i : ℕ) → List ℕ → (left : ℕ) → Option (Buffer × ℕ)
ncopy_loop dest i src zero = some (dest, i)
ncopy_loop dest i [] (suc left) = none
ncopy_loop dest i (c ∷ src) (suc left) =
    if c == 0 then some (dest, i) else do dest' ← store dest i c; ncopy_loop dest' (i + 1) src left

-- `while (i < n) dest[i++] = '\0';`
unfoldable pub fill_loop : Buffer → (i left : ℕ) → Option Buffer
fill_loop dest i zero = some dest
fill_loop dest i (suc left) = do dest' ← store dest i 0; fill_loop dest' (i + 1) left

unfoldable pub ft_strncpy : Buffer → List ℕ → (n : ℕ) → Option Buffer
ft_strncpy dest src n = do (copied, i) ← ncopy_loop dest 0 src n; fill_loop copied i (n - i)

-- `while (*src && i < n)` reads a char that it may not copy.
unfoldable pub ncat_loop : Buffer → (i : ℕ) → List ℕ → (left : ℕ) → Option (Buffer × ℕ)
ncat_loop dest i [] left = none
ncat_loop dest i (c ∷ src) zero = some (dest, i)
ncat_loop dest i (c ∷ src) (suc left) =
    if c == 0 then some (dest, i) else do dest' ← store dest i c; ncat_loop dest' (i + 1) src left

unfoldable pub ft_strncat : Buffer → List ℕ → (n : ℕ) → Option Buffer
ft_strncat dest src n = do
  length ← ft_strlen (written dest)
  (copied, i) ← ncat_loop dest length src n
  store copied i 0

-- `while (i-- != 0 && *dst != '\0') dst++;`
unfoldable pub end_within : Buffer → (dst i : ℕ) → Option ℕ
end_within dest dst zero = some dst
end_within dest dst (suc i) = do
  c ← load dest dst
  let rest = end_within dest (dst + 1) i
  if c == 0 then some dst else rest

-- `while (*sc)`: at `i` = 1 the chars are only counted. The destination, `dst` and `sc - src`.
unfoldable pub lcat_loop : Buffer → (dst i : ℕ) → List ℕ → (passed : ℕ) → Option (Buffer × ℕ × ℕ)
lcat_loop dest dst i [] passed = none
lcat_loop dest dst i (c ∷ sc) passed =
    let skip = lcat_loop dest dst i sc (passed + 1) in
    let copy = (do dest' ← store dest dst c; lcat_loop dest' (dst + 1) (i - 1) sc (passed + 1)) in
    if c == 0 then some (dest, dst, passed) else if i == 1 then skip else copy

unfoldable pub ft_strlcat : Buffer → List ℕ → (n : ℕ) → Option (Buffer × ℕ)
ft_strlcat dest src n = do
  dstlen ← end_within dest 0 n
  if n - dstlen == 0 then Option.map (λ l. (dest, dstlen + l)) (ft_strlen src) else do
    (copied, dst, passed) ← lcat_loop dest dstlen (n - dstlen) src 0
    ended ← store copied dst 0
    some (ended, dstlen + passed)

-- `while (i < len) result[i++] = s[start++];`, where `start` is an unsigned int
unfoldable pub sub_loop : Buffer → List ℕ → (start i left : ℕ) → Option Buffer
sub_loop result s start i zero = some result
sub_loop result s start i (suc left) = do
  c ← get_elem? s start
  result' ← store result i c
  sub_loop result' s ((start + 1) % 2 ^ 32) (i + 1) left

unfoldable pub ft_strsub : List ℕ → (start len : ℕ) → Option Buffer
ft_strsub s start len = do result ← sub_loop (malloc (len + 1)) s start 0 len; store result len 0

abbrev pub is_blank : ℕ → Bool
is_blank c = c == b' ' || c == 9 || c == 10

-- The first loop of ft_strtrim: `s` from `i` on.
unfoldable pub skip_blanks : List ℕ → (i : ℕ) → Option ℕ
skip_blanks [] i = none
skip_blanks (c ∷ s) i =
    if c == 0 then some i else if is_blank c then skip_blanks s (i + 1) else some i

-- `while (end != 0 && end >= i && ...) end--;`
unfoldable pub trim_end : List ℕ → (i end : ℕ) → Option ℕ
trim_end s i zero = some zero
trim_end s i (suc end) = if ltb (suc end) i then some (suc end) else do
  c ← get_elem? s (suc end)
  let rest = trim_end s i end
  if is_blank c then rest else some (suc end)

-- Lengths are numbers of 64 bits, which wrap at the empty string and where all chars are blank.
unfoldable pub ft_strtrim : List ℕ → Option Buffer
ft_strtrim s = do
  n ← ft_strlen s
  i ← skip_blanks s 0
  end ← trim_end s i ((n + 2 ^ 64 - 1) % 2 ^ 64)
  let len = (end + 2 ^ 64 + 1 - i) % 2 ^ 64
  result ← ft_strncpy (malloc ((len + 1) % 2 ^ 64)) (drop i s) len
  store result len 0

-- `while (*(s + i))` of ft_strmapi; ft_strmap is the same with a function that does not read `i`.
unfoldable pub map_loop : (ℕ → ℕ → ℕ) → Buffer → (i : ℕ) → List ℕ → Option (Buffer × ℕ)
map_loop f new_string i [] = none
map_loop f new_string i (c ∷ s) =
    if c == 0
    then some (new_string, i)
    else do new_string' ← store new_string i (f i c); map_loop f new_string' (i + 1) s

unfoldable pub ft_strmapi : List ℕ → (f : ℕ → ℕ → ℕ) → Option Buffer
ft_strmapi s f = do n ← ft_strlen s; (mapped, i) ← map_loop f (malloc (n + 1)) 0 s; store mapped i 0

unfoldable pub ft_strmap : List ℕ → (f : ℕ → ℕ) → Option Buffer
ft_strmap s f = do
  n ← ft_strlen s
  (mapped, i) ← map_loop (λ i c. f c) (malloc (n + 1)) 0 s
  store mapped i 0

unfoldable pub ft_swap : Buffer → (a b : ℕ) → Option Buffer
ft_swap str a b = do
  tmp ← load str a
  other ← load str b
  str' ← store str a other
  store str' b tmp

-- `while (i > (size / 2))`
unfoldable pub rev_loop : Buffer → (size y i : ℕ) → Option Buffer
rev_loop str size y zero = some str
rev_loop str size y (suc i) =
    if ltb (size / 2) (suc i)
    then (do str' ← ft_swap str y i; rev_loop str' size (y + 1) i)
    else some str

unfoldable pub ft_strrev : Buffer → Option Buffer
ft_strrev str = do size ← ft_strlen (written str); rev_loop str size 0 size

unfoldable pub ft_strclr : Buffer → Option Buffer
ft_strclr s = do n ← ft_strlen (written s); ft_bzero s 0 n
