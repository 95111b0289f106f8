-- ===== src/Examples/Printf.antt =====
-- ft_printf on formats, and the theorems of Printf at concrete numbers.
use nm.Common.{◌↔◌, ◌⊎◌, ◌<◌, ◌/◌, ◌%◌, ◌≡◌, refl, some, [], ◌∷◌}
use nm.Common.Int.{pos}
use nm.Libft.Strings.{ft_strlen, ft_strchr}
use nm.Printf.Monad.{◌>>=◌, next_word, next_text, next_wide}
use nm.Printf.Digits.{
  nb_dg_loop, nb_dg_inbase, digits_loop, ft_itoa_unmax, base_length, position_in_base, value_loop,
  convert_loop, reverse_loop, delete_zeros, reverse_delect_first_zeros, ft_convert_base, set_base,
  itoa_base, itoa_hex,
}
use nm.Printf.Put.{
  ft_strnchr, count_row, ft_strnchr_double, ft_putchar, putstr_loop, ft_putstr, putnstr_loop,
  ft_putnstr, ft_putnchar, nb_digit, max_2, max_3, we_to_char, ft_putwchar, putnwstr_loop,
  ft_putnwstr, wstrlen_loop, ft_wstrlen,
}
use nm.Printf.Data.{
  init, has, has_before, set_cast, put_flag, add_flag, set_zero_flag, flags_star, is_star, is_width,
  flags_loop, set_flags,
}
use nm.Printf.Unsigned.{
  size_of, first_of, is_octal, for_setoux, set_precison, set_oxu, put_prefix, for_print_oux,
  for_right_oux, go_right_oux, put_nopre, put_zero_oux, put_octal_zero, set_print_oxu_hash,
}
use nm.Printf.Signed.{
  make_room, set_d_len, set_d, plus_blank, put_digits, put_zeros, go_right, zero_noze, put_zero_d,
  set_print_d,
}
use nm.Printf.Itoa.{
  nb_dg, nb_digit_itoa, itoa_into, ft_itoa_short, ft_itoa_max, ft_itoa_signchar, ft_itoa,
}
use nm.Printf.Con.{
  parse, cast_nu_x, cast_nu_bigx, con_x, con_bigx, con_o, con_b, con_bigo, cast_nu_u, con_u,
  con_bigu, signed_digits, cast_nu_d, con_d, con_bigd, full_precison, shown_length, set_print_s,
  set_print_bigs, con_s, con_bigs, put_c, set_print_c, con_c, con_bigc, add_hash_p,
  put_null_pointer, con_p, con_per,
}
use nm.Printf.Format.{is_f, ini_set, letter_loop, directive, format_loop, ft_printf}
use nm.Libft.Buffer.{store, written}
use nm.Libft.Numbers.{atoi_loop, atoi_result, atoi_signed, ft_atoi}
use nm.Printf.Monad.{word}
use nm.Common.{List, ℕ, arith}
use nm.Printf.Monad.{text}
use nm.Libft.Strings.Laws.{c_string}
use nm.Printf.Digits.Little.{spell, little}
use nm.Printf.Digits.Unmax.{decimal_numeral, ft_itoa_unmax-decimal_numeral}
use nm.Printf.Digits.Base.{hex_numeral, itoa_hex-hex_numeral}
use nm.Printf.Format.Bytes.{byte_format, byte_space_format, ft_printf-hex_pair}
use nm.Printf.Put.Utf8.{utf8, we_to_char-utf8}
use nm.Printf.Format.Fuel.{format_loop-enough}
use nm.Printf.Format.Text.{symbol_format, name_format, ft_printf-text}

-- "%.2x" of 5 prints "05".
two_digits :
    ft_printf (b'%' ∷ b'.' ∷ b'2' ∷ b'x' ∷ 0 ∷ []) (word 5 ∷ [])
    ≡ some (pos 2, b'0' ∷ b'5' ∷ [], [])
unfolding ft_strlen ft_strchr ◌>>=◌ next_word next_text next_wide nb_dg_loop nb_dg_inbase
    digits_loop ft_itoa_unmax base_length position_in_base value_loop convert_loop reverse_loop
    delete_zeros reverse_delect_first_zeros ft_convert_base set_base itoa_base itoa_hex ft_strnchr
    count_row ft_strnchr_double ft_putchar putstr_loop ft_putstr putnstr_loop ft_putnstr ft_putnchar
    nb_digit max_2 max_3 we_to_char ft_putwchar putnwstr_loop ft_putnwstr wstrlen_loop ft_wstrlen
    init has has_before set_cast put_flag add_flag set_zero_flag flags_star is_star is_width
    flags_loop set_flags size_of first_of is_octal for_setoux set_precison set_oxu put_prefix
    for_print_oux for_right_oux go_right_oux put_nopre put_zero_oux put_octal_zero
    set_print_oxu_hash make_room set_d_len set_d plus_blank put_digits put_zeros go_right zero_noze
    put_zero_d set_print_d nb_dg nb_digit_itoa itoa_into ft_itoa_short ft_itoa_max ft_itoa_signchar
    ft_itoa parse cast_nu_x cast_nu_bigx con_x con_bigx con_o con_b con_bigo cast_nu_u con_u
    con_bigu signed_digits cast_nu_d con_d con_bigd full_precison shown_length set_print_s
    set_print_bigs con_s con_bigs put_c set_print_c con_c con_bigc add_hash_p put_null_pointer con_p
    con_per is_f ini_set letter_loop directive format_loop ft_printf store written atoi_loop
    atoi_result atoi_signed ft_atoi
two_digits = refl

-- " 5|+00042" and a string that is cut
number_and_text :
    ft_printf
      (b'%' ∷ b'2' ∷ b'd' ∷ b'|' ∷ b'%' ∷ b'+' ∷ b'.' ∷ b'5' ∷ b'i' ∷ b'%' ∷ b'.' ∷ b'1' ∷ b's' ∷ 0
        ∷ [])
      (word 5 ∷ word 42 ∷ text (some (b'a' ∷ b'b' ∷ 0 ∷ [])) ∷ [])
    ≡ some (pos 10, b' ' ∷ b'5' ∷ b'|' ∷ b'+' ∷ b'0' ∷ b'0' ∷ b'0' ∷ b'4' ∷ b'2' ∷ b'a' ∷ [], [])
unfolding ft_strlen ft_strchr ◌>>=◌ next_word next_text next_wide nb_dg_loop nb_dg_inbase
    digits_loop ft_itoa_unmax base_length position_in_base value_loop convert_loop reverse_loop
    delete_zeros reverse_delect_first_zeros ft_convert_base set_base itoa_base itoa_hex ft_strnchr
    count_row ft_strnchr_double ft_putchar putstr_loop ft_putstr putnstr_loop ft_putnstr ft_putnchar
    nb_digit max_2 max_3 we_to_char ft_putwchar putnwstr_loop ft_putnwstr wstrlen_loop ft_wstrlen
    init has has_before set_cast put_flag add_flag set_zero_flag flags_star is_star is_width
    flags_loop set_flags size_of first_of is_octal for_setoux set_precison set_oxu put_prefix
    for_print_oux for_right_oux go_right_oux put_nopre put_zero_oux put_octal_zero
    set_print_oxu_hash make_room set_d_len set_d plus_blank put_digits put_zeros go_right zero_noze
    put_zero_d set_print_d nb_dg nb_digit_itoa itoa_into ft_itoa_short ft_itoa_max ft_itoa_signchar
    ft_itoa parse cast_nu_x cast_nu_bigx con_x con_bigx con_o con_b con_bigo cast_nu_u con_u
    con_bigu signed_digits cast_nu_d con_d con_bigd full_precison shown_length set_print_s
    set_print_bigs con_s con_bigs put_c set_print_c con_c con_bigc add_hash_p put_null_pointer con_p
    con_per is_f ini_set letter_loop directive format_loop ft_printf store written atoi_loop
    atoi_result atoi_signed ft_atoi
number_and_text = refl

ft_itoa_unmax-decimal_numeral_example : ft_itoa_unmax 42 ≡ some (b'4' ∷ b'2' ∷ 0 ∷ [])
unfolding decimal_numeral spell little
ft_itoa_unmax-decimal_numeral_example = ft_itoa_unmax-decimal_numeral 42 (omega arith)

itoa_hex-hex_numeral_example :
    (itoa_hex 0xfa b'x' ≡ some (b'f' ∷ b'a' ∷ 0 ∷ []))
    × (itoa_hex 0xfa b'X' ≡ some (b'F' ∷ b'A' ∷ 0 ∷ []))
unfolding hex_numeral spell little
itoa_hex-hex_numeral_example = itoa_hex-hex_numeral 0xfa (omega arith)

ft_printf-hex_pair_example :
    (ft_printf byte_format (word 0x0c ∷ []) ≡ some (pos 2, b'0' ∷ b'c' ∷ [], []))
    × (ft_printf byte_space_format (word 0x0c ∷ []) ≡ some (pos 3, b'0' ∷ b'c' ∷ b' ' ∷ [], []))
ft_printf-hex_pair_example = ft_printf-hex_pair 0x0c (omega arith)

abbrev hi : List ℕ
hi = b'h' ∷ b'i' ∷ 0 ∷ b'x' ∷ []

ft_printf-text_example :
    (ft_printf symbol_format (text (some hi) ∷ []) ≡ some (pos 3, b'h' ∷ b'i' ∷ 10 ∷ [], []))
    × (ft_printf name_format (text (some hi) ∷ []) ≡ some (pos 4, b'h' ∷ b'i' ∷ b':' ∷ 10 ∷ [], []))
unfolding c_string
ft_printf-text_example = ft_printf-text hi (b'h' ∷ b'i' ∷ []) refl

format_loop-enough_example :
    format_loop 10 symbol_format (pos 0) (text (some hi) ∷ [])
    ≡ ft_printf symbol_format (text (some hi) ∷ [])
format_loop-enough_example = format_loop-enough 6 symbol_format (text (some hi) ∷ [])

-- The euro sign.
we_to_char-utf8_example :
    (we_to_char 0x20ac ≡ utf8 0x20ac) ↔ ((0x20ac < 0x800) ⊎ (0x20ac / 4096 % 4 ≡ 3))
we_to_char-utf8_example = we_to_char-utf8 0x20ac (omega arith)
