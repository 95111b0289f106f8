-- ===== src/Libft/Strings.antt =====
-- The string functions of libft (libft/*.c) that read. A `const char *` is the list of the bytes
-- from where it points to the end of its object. To read past the end is a fault, `none`.
-- A pointer that a function returns is the offset from its argument, and NULL is a `none` inside.
pub mod Laws
pub mod Prefix
pub mod Holds
use mathlib.Core.Option
use nm.Common.{
  ℕ, zero, suc, ◌+◌, ◌-◌, Bool, true, false, ◌&&◌, ◌||◌, not, Option, none, some, List, [], ◌∷◌,
  leb, ltb, ◌==◌, if◌then◌else◌,
}
use nm.Common.Int.{ℤ, pos, sub_ℕ, is_zero}

-- `while (*s++) len++;`
unfoldable pub ft_strlen : List ℕ → Option ℕ
ft_strlen [] = none
ft_strlen (c ∷ s) = if c == 0 then some 0 else Option.map suc (ft_strlen s)

-- `while (*cp_s1 && *cp_s2 && *cp_s1 == *cp_s2)`; the bytes are unsigned, their difference an int.
unfoldable pub ft_strcmp : List ℕ → List ℕ → Option ℤ
ft_strcmp [] t = none
ft_strcmp (a ∷ s) [] = none
ft_strcmp (a ∷ s) (b ∷ t) =
    if not (a == 0) && not (b == 0) && a == b then ft_strcmp s t else some (sub_ℕ a b)

-- `while (*cp_s1 && *cp_s2 && *cp_s1 == *cp_s2 && n > 1)`, after the test for `n == 0`
unfoldable pub ft_strncmp : List ℕ → List ℕ → ℕ → Option ℤ
ft_strncmp s t zero = some (pos 0)
ft_strncmp [] t (suc n) = none
ft_strncmp (a ∷ s) [] (suc n) = none
ft_strncmp (a ∷ s) (b ∷ t) (suc n) =
    if not (a == 0) && not (b == 0) && a == b && ltb 0 n then ft_strncmp s t n else some (sub_ℕ a b)

-- For pointers that are not NULL.
unfoldable pub ft_strequ : List ℕ → List ℕ → Option Bool
ft_strequ s t = Option.map is_zero (ft_strcmp s t)

unfoldable pub ft_strnequ : List ℕ → List ℕ → ℕ → Option Bool
ft_strnequ s t n = Option.map is_zero (ft_strncmp s t n)

-- `while (c != *s && *s) s++;`, where `c` is a char
unfoldable pub ft_strchr : List ℕ → ℕ → Option (Option ℕ)
ft_strchr [] c = none
ft_strchr (a ∷ s) c =
    if a == c
    then some (some 0)
    else if a == 0
    then some none
    else Option.map (Option.map suc) (ft_strchr s c)

unfoldable pub ft_toupper : ℕ → ℕ
ft_toupper c = if leb b'a' c && leb c b'z' then c - b'a' + b'A' else c

unfoldable pub ft_tolower : ℕ → ℕ
ft_tolower c = if leb b'A' c && leb c b'Z' then c - b'A' + b'a' else c
