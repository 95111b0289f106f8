-- ===== src/Libft/Memory.antt =====
-- The memory functions of libft (libft/ft_mem*.c and ft_bzero.c), over a stretch of memory. A pointer
-- is an offset in it; a byte may not have been set. `none` is an access outside of the stretch, or a
-- test of a byte that was not set. A `size_t` is the number of rounds.
pub mod Move
use nm.Common.{
  ℕ, zero, suc, ◌+◌, ◌-◌, ◌%◌, ◌&&◌, Option, none, some, get_elem?, set, leb, ltb, ◌==◌,
  if◌then◌else◌,
}
use nm.Common.Int.{ℤ, pos, sub_ℕ}
use nm.Common.Options.{◌>>=◌}
use nm.Libft.Buffer.{Buffer, malloc}

-- A byte that is moved as it is, set or not.
unfoldable pub put : Buffer → ℕ → Option ℕ → Option Buffer
put mem i cell = elim (get_elem? mem i) [ none ↦ none | some old ↦ some (set mem i cell) ]

-- A byte whose value is needed.
unfoldable pub load : Buffer → ℕ → Option ℕ
load mem i = elim (get_elem? mem i) [ none ↦ none | some cell ↦ cell ]

-- `while (n-- > 0) *set_byte++ = c;`
unfoldable pub ft_memset : Buffer → (s c n : ℕ) → Option Buffer
ft_memset mem s c zero = some mem
ft_memset mem s c (suc n) = do mem' ← put mem s (some (c % 256)); ft_memset mem' (s + 1) c n

unfoldable pub ft_bzero : Buffer → (s n : ℕ) → Option Buffer
ft_bzero mem s n = ft_memset mem s 0 n

unfoldable pub ft_memalloc : (size : ℕ) → Option Buffer
ft_memalloc size = ft_bzero (malloc size) 0 size

unfoldable pub ft_strnew : (size : ℕ) → Option Buffer
ft_strnew size = ft_memalloc (size + 1)

-- `while (n-- > 0) *byte_dest++ = *byte_src++;`
unfoldable pub ft_memcpy : Buffer → (dest src n : ℕ) → Option Buffer
ft_memcpy mem dest src zero = some mem
ft_memcpy mem dest src (suc n) = do
  cell ← get_elem? mem src
  mem' ← put mem dest cell
  ft_memcpy mem' (dest + 1) (src + 1) n

-- `while (n >= 1)`
unfoldable pub backward_loop : Buffer → (result ori n : ℕ) → Option Buffer
backward_loop mem result ori zero = some mem
backward_loop mem result ori (suc n) = do
  cell ← get_elem? mem (ori + n)
  mem' ← put mem (result + n) cell
  backward_loop mem' result ori n

unfoldable pub ft_memmove : Buffer → (dest src n : ℕ) → Option Buffer
ft_memmove mem dest src n =
    if leb dest src then ft_memcpy mem dest src n else backward_loop mem dest src n

-- `while (n--)`: the memory, and the pointer behind the byte `c` in `dest`, or NULL.
unfoldable pub ft_memccpy : Buffer → (dest src c n : ℕ) → Option (Buffer × Option ℕ)
ft_memccpy mem dest src c zero = some (mem, none)
ft_memccpy mem dest src c (suc n) = do
  byte ← load mem src
  mem' ← put mem dest (some byte)
  last ← load mem' src
  let rest = ft_memccpy mem' (dest + 1) (src + 1) c n
  if last == c % 256 then some (mem', some (dest + 1)) else rest

-- `while (i < n)`: a pointer into `s`, or NULL.
unfoldable pub ft_memchr : Buffer → (s c n : ℕ) → Option (Option ℕ)
ft_memchr mem s c zero = some none
ft_memchr mem s c (suc n) = do
  byte ← load mem s
  let rest = ft_memchr mem (s + 1) c n
  if byte == c % 256 then some (some s) else rest

-- `while (*copy_s1 == *copy_s2 && n > 1)`, after the test for `n == 0`
unfoldable pub ft_memcmp : Buffer → (s1 s2 n : ℕ) → Option ℤ
ft_memcmp mem s1 s2 zero = some (pos 0)
ft_memcmp mem s1 s2 (suc n) = do
  a ← load mem s1
  b ← load mem s2
  let rest = ft_memcmp mem (s1 + 1) (s2 + 1) n
  if a == b && ltb 0 n then rest else some (sub_ℕ a b)
