-- ===== src/Printf/Itoa.antt =====
-- itoa_max.c, and ft_itoa.c of libft: signed numbers in decimal. The four functions differ in the
-- width of the unsigned type that holds the digits' number.
pub mod Numeral
pub mod Read
use nm.Common.{ℕ, ◌+◌, ◌-◌, ◌%◌, ◌^◌, Option, some, List}
use nm.Common.Int.{ℤ, pos, negsuc}
use nm.Common.Options.{◌>>=◌}
use nm.Libft.Buffer.{malloc, store, written}
use nm.Printf.Digits.{nb_dg_loop, digits_loop, store_zero}

-- `(unsigned)n * -1` for a negative `n`, and `(unsigned)n` for another, in `w` bits
abbrev pub magnitude : (w : ℕ) → ℤ → ℕ
magnitude w (pos n) = n % 2 ^ w
magnitude w (negsuc n) = (2 ^ w - (2 ^ w - 1 - n % 2 ^ w)) % 2 ^ w

-- `nb_dg` and `nb_dg_short`, of an intmax_t, and `nb_digit_itoa` of an int
unfoldable pub nb_dg : ℤ → ℕ
nb_dg (pos n) = nb_dg_loop 10 64 (magnitude 64 (pos n)) 1
nb_dg (negsuc n) = nb_dg_loop 10 64 (magnitude 64 (negsuc n)) 2

unfoldable pub nb_digit_itoa : ℤ → ℕ
nb_digit_itoa (pos n) = nb_dg_loop 10 64 (magnitude 32 (pos n)) 1
nb_digit_itoa (negsuc n) = nb_dg_loop 10 64 (magnitude 32 (negsuc n)) 2

-- What follows in all four: `cp_n` is the number whose digits are stored.
unfoldable pub itoa_into : (len : ℕ) → ℤ → (cp_n : ℕ) → Option (List ℕ)
itoa_into len n cp_n = do
  ended ← store (malloc (len + 1)) len 0
  number ← (elim n [ pos k ↦ store_zero k ended | negsuc k ↦ store ended 0 b'-' ])
  filled ← digits_loop 64 number len cp_n
  some (written filled)

unfoldable pub ft_itoa_short : ℤ → Option (List ℕ)
ft_itoa_short n = itoa_into (nb_dg n) n (magnitude 16 n)

unfoldable pub ft_itoa_max : ℤ → Option (List ℕ)
ft_itoa_max n = itoa_into (nb_dg n) n (magnitude 64 n)

unfoldable pub ft_itoa_signchar : ℤ → Option (List ℕ)
ft_itoa_signchar n = itoa_into (nb_dg n) n (magnitude 8 n)

unfoldable pub ft_itoa : ℤ → Option (List ℕ)
ft_itoa n = itoa_into (nb_digit_itoa n) n (magnitude 32 n)
