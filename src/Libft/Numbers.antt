-- ===== src/Libft/Numbers.antt =====
-- ft_atoi.c: numbers read from text.
use nm.Common.{
  ℕ, ◌+◌, ◌-◌, ◌*◌, ◌%◌, ◌^◌, Bool, ◌&&◌, ◌||◌, Option, none, some, List, [], ◌∷◌, ltb, leb, ◌==◌,
  if◌then◌else◌,
}
use nm.Common.Int.{ℤ, pos, negsuc, signed32}

-- The chars that are passed over in front.
abbrev pub is_space : ℕ → Bool
is_space c = c == 9 || c == 11 || c == 12 || c == 10 || c == 13 || c == b' '

-- `while (... && result >= 0)`: `result` is a long, negative from 2 ^ 63 on; its overflow is taken to
-- wrap.
unfoldable pub atoi_loop : List ℕ → (result : ℕ) → Option ℕ
atoi_loop [] result = none
atoi_loop (c ∷ s) result =
    if leb b'0' c && leb c b'9' && ltb result (2 ^ 63)
    then atoi_loop s ((result * 10 + c + (2 ^ 64 - b'0')) % 2 ^ 64)
    else some result

-- The results for a long that is negative, and the cut to an int.
unfoldable pub atoi_result : (negative : Bool) → ℕ → ℤ
atoi_result negative result =
    if leb (2 ^ 63) result
    then if negative then pos 0 else negsuc 0
    else signed32 (if negative then 2 ^ 64 - result else result)

unfoldable pub atoi_signed : List ℕ → Option ℤ
atoi_signed [] = none
atoi_signed (c ∷ s) = elim (atoi_loop (if c == b'-' || c == b'+' then s else c ∷ s) 0) [
  | none ↦ none
  | some result ↦ some (atoi_result (c == b'-') result)
]

unfoldable pub ft_atoi : List ℕ → Option ℤ
ft_atoi [] = none
ft_atoi (c ∷ s) = if is_space c then ft_atoi s else atoi_signed (c ∷ s)
