-- ===== src/Examples/Overflow.antt =====
-- itoa_base on a number whose binary digits are more than its decimal ones.
use nm.Common.{◌+◌, ◌≤◌, ◌≡◌, none, some, [], ◌∷◌, ◌++◌, length, arith}
use nm.Common.Options.{◌>>=◌}
use nm.Libft.Buffer.{malloc, store}
use nm.Libft.Buffer.Laws.{held}
use nm.Printf.Digits.{
  nb_dg_inbase, base_length, value_loop, convert_loop, ft_itoa_unmax, set_base, itoa_base,
}
use nm.Printf.Digits.Little.{spell, little}
use nm.Printf.Digits.Unmax.{decimal_numeral}
use nm.Printf.Digits.Overflow.{binary, itoa_base-overflow}

itoa_base-overflow_example :
    (ft_itoa_unmax 5 ≡ some (b'5' ∷ 0 ∷ []))
    × (base_length (set_base b'0' 10) ≡ some 10)
    × (value_loop (set_base b'0' 10) 10 (b'5' ∷ 0 ∷ []) 0 ≡ some 5)
    × (nb_dg_inbase 5 10 + 1 ≤ length (binary 5))
    × ((convert_loop 64 (set_base b'0' 2) (malloc (length (binary 5) + 1)) 0 5 >>= λ r.
          store r.0 r.1 0)
        ≡ some (held (b'1' ∷ b'0' ∷ b'1' ∷ []) ++ (some 0 ∷ [])))
    × (itoa_base 5 10 2 ≡ none)
unfolding decimal_numeral spell little
itoa_base-overflow_example = itoa_base-overflow 5 (omega arith) (omega arith)
