-- ===== src/Printf/Format.antt =====
-- ft_printf.c and ini_set.c: the format and its directives.
pub mod Bytes
pub mod Text
pub mod Fuel
use nm.Common.{
  ℕ, zero, suc, ◌+◌, Bool, ◌||◌, Option, none, some, List, [], ◌∷◌, length, drop, get_elem?, ◌==◌,
  if◌then◌else◌,
}
use nm.Common.Int.{ℤ, pos, ◌+ℤ◌}
use nm.Printf.Monad.{Print, pure, attempt, ◌>>=◌, ◌>>◌}
use nm.Printf.Put.{ft_putchar}
use nm.Printf.Data.{Data}
use nm.Printf.Con.{
  con_s, con_bigs, con_o, con_bigo, con_d, con_bigd, con_c, con_bigc, con_u, con_bigu, con_per,
  con_p, con_x, con_bigx, con_b,
}

unfoldable pub is_f : ℕ → Bool
is_f c =
    c == b's'
    || c == b'S'
    || c == b'p'
    || c == b'd'
    || c == b'D'
    || c == b'i'
    || c == b'o'
    || c == b'O'
    || c == b'u'
    || c == b'U'
    || c == b'x'
    || c == b'X'
    || c == b'c'
    || c == b'C'
    || c == b'b'

-- The table `set`, as a choice by the letter.
unfoldable pub ini_set : ℕ → Option (List ℕ → ℕ → Print Data)
ini_set c =
    if c == b's'
    then some con_s
    else if c == b'S'
    then some con_bigs
    else if c == b'o'
    then some con_o
    else if c == b'O'
    then some con_bigo
    else if c == b'd'
    then some con_d
    else if c == b'D'
    then some con_bigd
    else if c == b'i'
    then some con_d
    else if c == b'c'
    then some con_c
    else if c == b'C'
    then some con_bigc
    else if c == b'u'
    then some con_u
    else if c == b'U'
    then some con_bigu
    else if c == b'%'
    then some con_per
    else if c == b'p'
    then some con_p
    else if c == b'x'
    then some con_x
    else if c == b'X'
    then some con_bigx
    else if c == b'b'
    then some con_b
    else none

-- The place of the conversion's letter: of the next '%', the next letter of a conversion or the NUL.
-- The first char is the '%' of the directive. `i` is the place of the first char of what is left.
unfoldable pub letter_loop : List ℕ → (i : ℕ) → Option ℕ
letter_loop [] i = none
letter_loop (c ∷ s) i = if c == 0 || is_f c || c == b'%' then some i else letter_loop s (i + 1)

-- A directive, at a '%': the number of chars that it prints, and the place of its letter.
unfoldable pub directive : List ℕ → Print (ℤ × ℕ)
directive format = do
  i ← attempt (letter_loop (drop 1 format) 1)
  c ← attempt (get_elem? format i)
  elim (ini_set c) [ none ↦ pure (pos 0, i) | some func ↦ do d ← func format i; pure (d.len, i) ]

-- `while (format && *format)`: each round passes over a char, so that the length of the format is
-- fuel enough. A directive with no letter passes over the NUL, and goes on behind the format.
unfoldable pub format_loop : ℕ → List ℕ → (nbr : ℤ) → Print ℤ
format_loop left [] nbr = attempt none
format_loop zero (c ∷ format) nbr = pure nbr
format_loop (suc left) (c ∷ format) nbr =
    if c == 0
    then pure nbr
    else if c == b'%'
    then (do (len, i) ← directive (c ∷ format); format_loop left (drop i format) (nbr +ℤ len))
    else do ft_putchar c; format_loop left format (nbr +ℤ pos 1)

unfoldable pub ft_printf : List ℕ → Print ℤ
ft_printf format = format_loop (length format) format (pos 0)
