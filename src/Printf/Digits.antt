-- ===== src/Printf/Digits.antt =====
-- convert_base.c, itoa_hexbase.c and itoa_max.c: the digits of numbers. The result of a function that
-- returns a pointer into a buffer is what can be read through it. `malloc` does not fail.
pub mod Little
pub mod Unmax
pub mod Turn
pub mod Alphabet
pub mod Convert
pub mod Base
pub mod Overflow
use nm.Common.{
  ℕ, zero, suc, ◌+◌, ◌-◌, ◌*◌, ◌/◌, ◌%◌, ◌^◌, Bool, not, Option, none, some, List, [], ◌∷◌,
  get_elem?, drop, length, ltb, ◌==◌, if◌then◌else◌,
}
use nm.Common.Options.{◌>>=◌}
use nm.Common.Int.{ℤ, pos, negsuc}
use nm.Libft.Buffer.{Buffer, malloc, store, written}
use nm.Libft.Strings.{ft_strlen}

-- `while (n > base_to - 1)` of `nb_dg_inbase`, and the same loop, with the base 10, of `nb_dg`,
-- `nb_dg_short` and `nb_digit_itoa`. A number of 64 bits has at most 64 digits.
unfoldable pub nb_dg_loop : (base : ℕ) → ℕ → (n i : ℕ) → ℕ
nb_dg_loop base zero n i = i
nb_dg_loop base (suc left) n i =
    let rest = nb_dg_loop base left (n / base) (i + 1) in if ltb (base - 1) n then rest else i

unfoldable pub nb_dg_inbase : (n base_to : ℕ) → ℕ
nb_dg_inbase n base_to = nb_dg_loop base_to 64 n 1

-- `while (n) { number[--len] = n % 10 + '0'; n = n / 10; }`. At `len` = 0 the place is outside.
unfoldable pub digits_loop : ℕ → Buffer → (len n : ℕ) → Option Buffer
digits_loop zero number len n = some number
digits_loop (suc left) number zero n = if n == 0 then some number else none
digits_loop (suc left) number (suc len) n =
    if n == 0
    then some number
    else do number' ← store number len (n % 10 + b'0'); digits_loop left number' len (n / 10)

-- `if (!n) number[0] = '0';`
abbrev pub store_zero : ℕ → Buffer → Option Buffer
store_zero n number = if n == 0 then store number 0 b'0' else some number

unfoldable pub ft_itoa_unmax : ℕ → Option (List ℕ)
ft_itoa_unmax n = do
  let len = nb_dg_inbase n 10
  ended ← store (malloc (len + 1)) len 0
  number ← store_zero n ended
  filled ← digits_loop 64 number len n
  some (written filled)

unfoldable pub base_length : List ℕ → Option ℕ
base_length base = ft_strlen base

-- `while (search != *base)`: a char that is not in the base is looked for behind its end.
unfoldable pub position_in_base : List ℕ → ℕ → Option ℕ
position_in_base [] search = none
position_in_base (c ∷ base) search =
    if c == search then some 0 else (do i ← position_in_base base search; some (i + 1))

-- `while (*nbr)`: the value in uintmax_t. `number_base` is `base_length(base_from)`.
unfoldable pub value_loop : List ℕ → (number_base : ℕ) → List ℕ → ℕ → Option ℕ
value_loop base_from number_base [] in_ten_b = none
value_loop base_from number_base (c ∷ nbr) in_ten_b = if c == 0 then some in_ten_b else do
  d ← position_in_base base_from c
  value_loop base_from number_base nbr ((in_ten_b * number_base + d) % 2 ^ 64)

-- `while (in_ten_b > 0)`: the buffer and the next place in it.
unfoldable pub convert_loop : ℕ → List ℕ → Buffer → (i in_ten_b : ℕ) → Option (Buffer × ℕ)
convert_loop zero base_to result i in_ten_b = some (result, i)
convert_loop (suc left) base_to result i in_ten_b = if in_ten_b == 0 then some (result, i) else do
  n ← base_length base_to
  digit ← get_elem? base_to (in_ten_b % n)
  result' ← store result i digit
  convert_loop left base_to result' (i + 1) (in_ten_b / n)

-- `while (i < j - 1)`: a round swaps the ends and goes inwards.
unfoldable pub reverse_loop : ℕ → Buffer → (i j : ℕ) → Option Buffer
reverse_loop zero tab i j = some tab
reverse_loop (suc left) tab i j = if not (ltb (i + 1) j) then some tab else do
  temp ← get_elem? (written tab) i
  other ← get_elem? (written tab) (j - 1)
  tab' ← store tab i other
  tab'' ← store tab' (j - 1) temp
  reverse_loop left tab'' (i + 1) (j - 1)

-- `while (!position_in_base(base_to, *tab)) tab++;`
unfoldable pub delete_zeros : List ℕ → List ℕ → Option (List ℕ)
delete_zeros base_to [] = none
delete_zeros base_to (c ∷ tab) = do
  p ← position_in_base base_to c
  elim p [ zero ↦ delete_zeros base_to tab | suc d ↦ some (c ∷ tab) ]

unfoldable pub reverse_delect_first_zeros : Buffer → List ℕ → Option (List ℕ)
reverse_delect_first_zeros tab base_to = do
  j ← ft_strlen (written tab)
  turned ← reverse_loop j tab 0 j
  delete_zeros base_to (written turned)

unfoldable pub ft_convert_base : (nbr base_from base_to : List ℕ) → Option (List ℕ)
ft_convert_base nbr base_from base_to = do
  number_base ← base_length base_from
  in_ten_b ← value_loop base_from number_base nbr 0
  let result = malloc (nb_dg_inbase in_ten_b 10 + 1)
  if in_ten_b == 0
      then (do
        digit ← get_elem? base_to 0
        result' ← store result 0 digit
        result'' ← store result' 1 0
        some (written result''))
      else do
        (filled, i) ← convert_loop 64 base_to result 0 in_ten_b
        ended ← store filled i 0
        reverse_delect_first_zeros ended base_to

abbrev pub decimal_digits : List ℕ
decimal_digits = b'0' ∷ b'1' ∷ b'2' ∷ b'3' ∷ b'4' ∷ b'5' ∷ b'6' ∷ b'7' ∷ b'8' ∷ b'9' ∷ 0 ∷ []

abbrev pub hex_digits : List ℕ
hex_digits =
    b'0' ∷ b'1' ∷ b'2' ∷ b'3' ∷ b'4' ∷ b'5' ∷ b'6' ∷ b'7' ∷ b'8' ∷ b'9' ∷ b'a' ∷ b'b' ∷ b'c' ∷ b'd'
    ∷ b'e' ∷ b'f' ∷ 0 ∷ []

abbrev pub hex_capitals : List ℕ
hex_capitals =
    b'0' ∷ b'1' ∷ b'2' ∷ b'3' ∷ b'4' ∷ b'5' ∷ b'6' ∷ b'7' ∷ b'8' ∷ b'9' ∷ b'A' ∷ b'B' ∷ b'C' ∷ b'D'
    ∷ b'E' ∷ b'F' ∷ 0 ∷ []

-- `set_base` for one of its arrays: '0' and the chars behind it.
unfoldable pub set_base : (a : ℕ) → ℕ → List ℕ
set_base a zero = 0 ∷ []
set_base a (suc left) = a ∷ set_base (a + 1) left

-- Both arrays have `from + 1` chars: a `to` above `from` is written outside.
unfoldable pub itoa_base : (nb from to : ℕ) → Option (List ℕ)
itoa_base nb from to =
    if ltb from to
    then none
    else do ori ← ft_itoa_unmax nb; ft_convert_base ori (set_base b'0' from) (set_base b'0' to)

-- `x` is 'x' or 'X'; with another the result is NULL, which nobody asks for.
unfoldable pub itoa_hex : (nb x : ℕ) → Option (List ℕ)
itoa_hex nb x = do
  ori ← ft_itoa_unmax nb
  if x == b'x'
      then ft_convert_base ori decimal_digits hex_digits
      else if x == b'X'
      then ft_convert_base ori decimal_digits hex_capitals
      else none
