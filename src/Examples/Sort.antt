-- ===== src/Examples/Sort.antt =====
-- sort_list_by_name.c at a list of three symbols.
use nm.Common.{◌≡◌, refl, true, false, List, [], ◌∷◌, arith}
use nm.Machine.{Machine, ok, ◌>>=◌, byte_at, string_at, read8, read_le}
use nm.Libft.Strings.{ft_strcmp}
use nm.Libft.Strings.Laws.{c_string}
use nm.FtNm.NotFat.{Symbol}
use nm.FtNm.Sort.{
  compare_words, compare_add, compare_name, out_of_order, compare_exchange, jump_loop, cp_loop,
  sort_list_by_name,
}
use nm.FtNm.Sort.Order.{IsReadable, key}
use nm.FtNm.Sort.Laws.{SortsTo, sort_list_by_name-SortsTo}

-- The names "b" and "a", and the values 7, 5 and 6 of 32 bits.
abbrev memory : Machine
memory = record {
  g_begin = 0x1000;
  g_map_size = 16;
  bytes = b'b' ∷ 0 ∷ b'a' ∷ 0 ∷ 7 ∷ 0 ∷ 0 ∷ 0 ∷ 5 ∷ 0 ∷ 0 ∷ 0 ∷ 6 ∷ 0 ∷ 0 ∷ 0 ∷ [];
}

abbrev b7 : Symbol
b7 = record { is_64 = false; type = b't'; add = 0x1004; name = 0x1000 }

abbrev b5 : Symbol
b5 = record { is_64 = false; type = b't'; add = 0x1008; name = 0x1000 }

abbrev a6 : Symbol
a6 = record { is_64 = false; type = b't'; add = 0x100c; name = 0x1002 }

abbrev symbols : List Symbol
symbols = b7 ∷ b5 ∷ a6 ∷ []

sorted_up : sort_list_by_name false symbols memory ≡ ok (a6 ∷ b5 ∷ b7 ∷ []) memory
unfolding sort_list_by_name cp_loop jump_loop compare_exchange out_of_order compare_name compare_add
    compare_words string_at ft_strcmp read_le read8 byte_at ◌>>=◌
sorted_up = refl

b7-IsReadable : IsReadable memory false (λ n. 0) b7
unfolding key c_string string_at read_le read8 byte_at ◌>>=◌
b7-IsReadable = record {
  width = refl;
  named = refl;
  valued = refl;
  above = omega arith;
  below = omega arith;
  fits = omega arith;
}

b5-IsReadable : IsReadable memory false (λ n. 0) b5
unfolding key c_string string_at read_le read8 byte_at ◌>>=◌
b5-IsReadable = record {
  width = refl;
  named = refl;
  valued = refl;
  above = omega arith;
  below = omega arith;
  fits = omega arith;
}

a6-IsReadable : IsReadable memory false (λ n. 0) a6
unfolding key c_string string_at read_le read8 byte_at ◌>>=◌
a6-IsReadable = record {
  width = refl;
  named = refl;
  valued = refl;
  above = omega arith;
  below = omega arith;
  fits = omega arith;
}

sort_list_by_name-SortsTo_example : (out : List Symbol) × SortsTo memory true symbols out
sort_list_by_name-SortsTo_example =
    sort_list_by_name-SortsTo memory true false (λ n. 0) symbols
      (b7-IsReadable, (b5-IsReadable, (a6-IsReadable, tt)))
