-- ===== src/Printf/Format/Bytes.antt =====
-- `%.2x` on the value of a byte: its two digits, by a look at each byte.
use nm.Common.{
  ℕ, ◌/◌, ◌%◌, ◌<◌, ◌≡◌, refl, ap, ◌∙◌, Bool, true, false, ◌&&◌, Option, none, some, List, [], ◌∷◌,
  ◌++◌, ◌==◌, arith,
}
use nm.Common.Int.{ℤ, pos, negsuc}
use nm.Common.Tables.{all_below, all_below-holds}
use nm.Printf.Monad.{Arg, word}
use nm.Printf.Digits.Alphabet.{hex_letter}
use nm.Libft.Strings.{ft_strlen, ft_strchr}
use nm.Printf.Monad.{◌>>=◌, next_word, next_text, next_wide}
use nm.Printf.Digits.{
  nb_dg_loop, nb_dg_inbase, digits_loop, ft_itoa_unmax, base_length, position_in_base, value_loop,
  convert_loop, reverse_loop, delete_zeros, reverse_delect_first_zeros, ft_convert_base, set_base,
  itoa_base, itoa_hex,
}
use nm.Printf.Put.{
  ft_strnchr, count_row, ft_strnchr_double, ft_putchar, putstr_loop, ft_putstr, putnstr_loop,
  ft_putnstr, ft_putnchar, nb_digit, max_2, max_3, we_to_char, ft_putwchar, putnwstr_loop,
  ft_putnwstr, wstrlen_loop, ft_wstrlen,
}
use nm.Printf.Data.{
  init, has, has_before, set_cast, put_flag, add_flag, set_zero_flag, flags_star, is_star, is_width,
  flags_loop, set_flags,
}
use nm.Printf.Unsigned.{
  size_of, first_of, is_octal, for_setoux, set_precison, set_oxu, put_prefix, for_print_oux,
  for_right_oux, go_right_oux, put_nopre, put_zero_oux, put_octal_zero, set_print_oxu_hash,
}
use nm.Printf.Signed.{
  make_room, set_d_len, set_d, plus_blank, put_digits, put_zeros, go_right, zero_noze, put_zero_d,
  set_print_d,
}
use nm.Printf.Itoa.{
  nb_dg, nb_digit_itoa, itoa_into, ft_itoa_short, ft_itoa_max, ft_itoa_signchar, ft_itoa,
}
use nm.Printf.Con.{
  parse, cast_nu_x, cast_nu_bigx, con_x, con_bigx, con_o, con_b, con_bigo, cast_nu_u, con_u,
  con_bigu, signed_digits, cast_nu_d, con_d, con_bigd, full_precison, shown_length, set_print_s,
  set_print_bigs, con_s, con_bigs, put_c, set_print_c, con_c, con_bigc, add_hash_p,
  put_null_pointer, con_p, con_per,
}
use nm.Printf.Format.{is_f, ini_set, letter_loop, directive, format_loop, ft_printf}
use nm.Libft.Buffer.{store, written}
use nm.Libft.Numbers.{atoi_loop, atoi_result, atoi_signed, ft_atoi}
use nm.Printf.Monad.{word}

-- The two digits of a byte in base 16.
abbrev pub hex_pair : ℕ → List ℕ
hex_pair b = hex_letter (b / 16) ∷ hex_letter (b % 16) ∷ []

abbrev same : List ℕ → List ℕ → Bool
same [] [] = true
same [] (d ∷ ds) = false
same (c ∷ cs) [] = false
same (c ∷ cs) (d ∷ ds) = (c == d) && same cs ds

same-eq : (cs ds : List ℕ) → same cs ds ≡ true → cs ≡ ds
same-eq [] [] h = refl
same-eq [] (d ∷ ds) h = absurd (ground arith)
same-eq (c ∷ cs) [] h = absurd (ground arith)
same-eq (c ∷ cs) (d ∷ ds) h =
    let first : c ≡ d = ground arith in
    let others : same cs ds ≡ true = ground arith in
    ap (λ (x : ℕ). x ∷ cs) first ∙ ap (λ (l : List ℕ). d ∷ l) (same-eq cs ds others)

-- A run of ft_printf that takes all of its arguments, with its count and its output.
abbrev prints : Option (ℤ × List ℕ × List Arg) → ℕ → List ℕ → Bool
prints none n out = false
prints (some (negsuc m, o, args)) n out = false
prints (some (pos m, o, a ∷ args)) n out = false
prints (some (pos m, o, [])) n out = (m == n) && same o out

prints-eq :
    (r : Option (ℤ × List ℕ × List Arg)) (n : ℕ) (out : List ℕ)
    → prints r n out ≡ true
    → r ≡ some (pos n, out, [])
prints-eq none n out h = absurd (ground arith)
prints-eq (some (negsuc m, o, args)) n out h = absurd (ground arith)
prints-eq (some (pos m, o, a ∷ args)) n out h = absurd (ground arith)
prints-eq (some (pos m, o, [])) n out h =
    let count : m ≡ n = ground arith in
    let output : same o out ≡ true = ground arith in
    ap (λ (k : ℕ). some (pos k, o, [])) count
    ∙ ap (λ (l : List ℕ). some (pos n, l, [])) (same-eq o out output)

abbrev pub byte_format : List ℕ
byte_format = b'%' ∷ b'.' ∷ b'2' ∷ b'x' ∷ 0 ∷ []

abbrev pub byte_space_format : List ℕ
byte_space_format = b'%' ∷ b'.' ∷ b'2' ∷ b'x' ∷ b' ' ∷ 0 ∷ []

-- Both formats, for one byte.
abbrev prints_both : ℕ → Bool
prints_both b =
    prints (ft_printf byte_format (word b ∷ [])) 2 (hex_pair b)
    && prints (ft_printf byte_space_format (word b ∷ [])) 3 (hex_pair b ++ (b' ' ∷ []))

every_byte : all_below 256 prints_both ≡ true
unfolding all_below ft_strlen ft_strchr ◌>>=◌ next_word next_text next_wide nb_dg_loop nb_dg_inbase
    digits_loop ft_itoa_unmax base_length position_in_base value_loop convert_loop reverse_loop
    delete_zeros reverse_delect_first_zeros ft_convert_base set_base itoa_base itoa_hex ft_strnchr
    count_row ft_strnchr_double ft_putchar putstr_loop ft_putstr putnstr_loop ft_putnstr ft_putnchar
    nb_digit max_2 max_3 we_to_char ft_putwchar putnwstr_loop ft_putnwstr wstrlen_loop ft_wstrlen
    init has has_before set_cast put_flag add_flag set_zero_flag flags_star is_star is_width
    flags_loop set_flags size_of first_of is_octal for_setoux set_precison set_oxu put_prefix
    for_print_oux for_right_oux go_right_oux put_nopre put_zero_oux put_octal_zero
    set_print_oxu_hash make_room set_d_len set_d plus_blank put_digits put_zeros go_right zero_noze
    put_zero_d set_print_d nb_dg nb_digit_itoa itoa_into ft_itoa_short ft_itoa_max ft_itoa_signchar
    ft_itoa parse cast_nu_x cast_nu_bigx con_x con_bigx con_o con_b con_bigo cast_nu_u con_u
    con_bigu signed_digits cast_nu_d con_d con_bigd full_precison shown_length set_print_s
    set_print_bigs con_s con_bigs put_c set_print_c con_c con_bigc add_hash_p put_null_pointer con_p
    con_per is_f ini_set letter_loop directive format_loop ft_printf store written atoi_loop
    atoi_result atoi_signed ft_atoi
every_byte = refl

-- For every byte b, ft_printf("%.2x", b) and ft_printf("%.2x ", b) do not fault; they print the two
-- digits of b in base 16, a zero in front included, with a blank behind them for the second, and
-- return the number of chars.
pub ft_printf-hex_pair :
    (b : ℕ)
    → b < 256
    → (ft_printf byte_format (word b ∷ []) ≡ some (pos 2, hex_pair b, []))
      × (ft_printf byte_space_format (word b ∷ []) ≡ some (pos 3, hex_pair b ++ (b' ' ∷ []), []))
ft_printf-hex_pair b h =
    let both = all_below-holds 256 prints_both b every_byte h in
    (
      prints-eq _ 2 (hex_pair b) (ground (arith, both)),
      prints-eq _ 3 (hex_pair b ++ (b' ' ∷ [])) (ground (arith, both)),
    )
