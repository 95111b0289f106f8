-- ===== src/Printf/Put.antt =====
-- put.c, cacul.c, `ft_wstrlen` and `ft_putwstr` of con_o.c, and ft_putchar.c and ft_putstr.c of libft:
-- chars to the standard output.
pub mod Utf8
use nm.Common.{
  ℕ, zero, suc, ◌+◌, ◌-◌, ◌/◌, ◌%◌, ◌^◌, Bool, not, ◌&&◌, ◌||◌, Option, none, some, List, [], ◌∷◌,
  replicate, leb, ◌==◌, if◌then◌else◌,
}
use nm.Common.Int.{ℤ, pos_part, ltb_ℤ}
use nm.Printf.Monad.{Print, pure, emit, attempt, ◌>>=◌, ◌>>◌}

-- `while (c != *s && *s && size > 0)`, with the number of chars that are left
unfoldable pub ft_strnchr : List ℕ → (c size : ℕ) → Option (Option ℕ)
ft_strnchr [] c size = none
ft_strnchr (a ∷ s) c size =
    if a == c
    then some (some 0)
    else if a == 0 || size == 0
    then some none
    else elim (ft_strnchr s c (size - 1)) [
      | none ↦ none
      | some none ↦ some none
      | some (some at) ↦ some (some (at + 1))
    ]

-- The second loop of `ft_strnchr_double`: how often `c` stands there in a row.
unfoldable pub count_row : List ℕ → (c size : ℕ) → Option ℕ
count_row [] c size = none
count_row (a ∷ s) c size =
    if a == c && not (a == 0) && not (size == 0)
    then (elim (count_row s c (size - 1)) [ none ↦ none | some i ↦ some (i + 1) ])
    else some 0

-- Whether the first row of `c` has an even length.
unfoldable pub ft_strnchr_double : List ℕ → (c size : ℕ) → Option Bool
ft_strnchr_double [] c size = none
ft_strnchr_double (a ∷ s) c size =
    if a == c || a == 0 || size == 0
    then (elim (count_row (a ∷ s) c size) [ none ↦ none | some i ↦ some (i % 2 == 0) ])
    else ft_strnchr_double s c (size - 1)

unfoldable pub ft_putchar : ℕ → Print (Unit {0})
ft_putchar c = emit (c ∷ [])

-- `if (s) while (*s) write(1, s++, 1);`, for an `s` that is not NULL
unfoldable pub putstr_loop : List ℕ → Option (List ℕ)
putstr_loop [] = none
putstr_loop (c ∷ s) =
    if c == 0 then some [] else (elim (putstr_loop s) [ none ↦ none | some out ↦ some (c ∷ out) ])

unfoldable pub ft_putstr : List ℕ → Print (Unit {0})
ft_putstr s = do out ← attempt (putstr_loop s); emit out

-- `while (*s && nbr-- >= 1) write(1, s++, 1);`, for an `s` that is not NULL
unfoldable pub putnstr_loop : List ℕ → ℕ → Option (List ℕ)
putnstr_loop [] nbr = none
putnstr_loop (c ∷ s) zero = some []
putnstr_loop (c ∷ s) (suc nbr) =
    if c == 0
    then some []
    else (elim (putnstr_loop s nbr) [ none ↦ none | some out ↦ some (c ∷ out) ])

unfoldable pub ft_putnstr : List ℕ → ℤ → Print (Unit {0})
ft_putnstr s nbr = do out ← attempt (putnstr_loop s (pos_part nbr)); emit out

-- A number below 1 writes nothing.
unfoldable pub ft_putnchar : ℕ → ℤ → Print (Unit {0})
ft_putnchar c nbr = emit (replicate (pos_part nbr) c)

unfoldable pub nb_digit : List ℕ → Option ℕ
nb_digit [] = none
nb_digit (c ∷ s) =
    if leb b'0' c && leb c b'9'
    then (elim (nb_digit s) [ none ↦ none | some i ↦ some (i + 1) ])
    else some 0

unfoldable pub max_2 : ℤ → ℤ → ℤ
max_2 x y = if ltb_ℤ y x then x else y

unfoldable pub max_3 : ℤ → ℤ → ℤ → ℤ
max_3 x y z = let max = if ltb_ℤ x y then y else x in if ltb_ℤ max z then z else max

-- The bytes for a wchar_t, in an array of 5 chars that are 0 before. A negative one is 2 ^ 31 or more.
unfoldable pub we_to_char : ℕ → List ℕ
we_to_char we =
    if leb we 0x7f || leb (2 ^ 31) we
    then we % 256 ∷ 0 ∷ 0 ∷ 0 ∷ 0 ∷ []
    else if leb we 0x7ff
    then (we / 2 ^ 6 + 192) % 256 ∷ (we % 64 + 128) ∷ 0 ∷ 0 ∷ 0 ∷ []
    else if leb we 0xffff
    then (we / 2 ^ 12 + 224) % 256 ∷ (we / 2 ^ 6 + 192) % 256 ∷ (we % 64 + 128) ∷ 0 ∷ 0 ∷ []
    else if leb we 0x1fffff
    then (we / 2 ^ 18 + 240) % 256
      ∷ (we / 2 ^ 12 + 224) % 256
      ∷ (we / 2 ^ 6 + 192) % 256
      ∷ (we % 64 + 128)
      ∷ 0
      ∷ []
    else 0 ∷ 0 ∷ 0 ∷ 0 ∷ 0 ∷ []

-- `write(1, c, ft_strlen(c))`
unfoldable pub ft_putwchar : ℕ → Print (Unit {0})
ft_putwchar we = do out ← attempt (putstr_loop (we_to_char we)); emit out

unfoldable pub putnwstr_loop : List ℕ → ℕ → Print (Unit {0})
putnwstr_loop [] nbr = attempt none
putnwstr_loop (we ∷ s) zero = pure tt
putnwstr_loop (we ∷ s) (suc nbr) =
    if we == 0 then pure tt else (do ft_putwchar we; putnwstr_loop s nbr)

-- NULL is a `none`.
unfoldable pub ft_putnwstr : Option (List ℕ) → ℤ → Print (Unit {0})
ft_putnwstr none nbr = pure tt
ft_putnwstr (some s) nbr = putnwstr_loop s (pos_part nbr)

-- `while (we && *we++) i++;`
unfoldable pub wstrlen_loop : List ℕ → Option ℕ
wstrlen_loop [] = none
wstrlen_loop (we ∷ s) =
    if we == 0 then some 0 else (elim (wstrlen_loop s) [ none ↦ none | some i ↦ some (i + 1) ])

-- `while (we && *we) ft_putwchar(*we++);`
unfoldable pub putwstr_loop : List ℕ → Print (Unit {0})
putwstr_loop [] = attempt none
putwstr_loop (we ∷ s) = if we == 0 then pure tt else (do ft_putwchar we; putwstr_loop s)

unfoldable pub ft_putwstr : Option (List ℕ) → Print (Unit {0})
ft_putwstr none = pure tt
ft_putwstr (some s) = putwstr_loop s

unfoldable pub ft_wstrlen : Option (List ℕ) → Option ℕ
ft_wstrlen none = some 0
ft_wstrlen (some s) = wstrlen_loop s
