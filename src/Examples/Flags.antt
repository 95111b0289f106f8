-- ===== src/Examples/Flags.antt =====
-- set_flag.c at concrete command lines.
use nm.Common.{ℕ, ◌≡◌, refl, false, some, List, arith, [], ◌∷◌}
use nm.Libft.Strings.{ft_strchr}
use nm.FtNm.Flags.{
  parsed, usage, is_flag, store_flag, add_flag, add_flags, flags_loop, set_flags_nm,
}
use nm.FtNm.Print.{can_show_list, is_extern}
use nm.FtNm.Print.Shown.{shows, can_show_list-shows}
use nm.FtNm.Flags.Spec.{contains, collect, first_bad, option_letters, option_count, buffer}
use nm.FtNm.Flags.Laws.{set_flags_nm-finish, set_flags_nm-bounds, IsBuffer}

-- -rp -r file
abbrev arguments : List (List ℕ)
arguments = (b'-' ∷ b'r' ∷ b'p' ∷ []) ∷ (b'-' ∷ b'r' ∷ []) ∷ (b'f' ∷ b'i' ∷ b'l' ∷ b'e' ∷ []) ∷ []

flags_of_arguments : set_flags_nm arguments ≡ parsed (buffer (b'r' ∷ b'p' ∷ []), 3)
unfolding set_flags_nm flags_loop add_flags add_flag store_flag is_flag ft_strchr
flags_of_arguments = refl

bad_option : set_flags_nm ((b'-' ∷ b'r' ∷ b'x' ∷ []) ∷ []) ≡ usage b'x'
unfolding set_flags_nm flags_loop add_flags add_flag store_flag is_flag ft_strchr
bad_option = refl

set_flags_nm-finish_example : set_flags_nm arguments ≡ parsed (buffer (b'r' ∷ b'p' ∷ []), 3)
unfolding first_bad option_letters option_count collect contains is_flag
set_flags_nm-finish_example = set_flags_nm-finish arguments

set_flags_nm-bounds_example : IsBuffer (buffer (b'r' ∷ b'p' ∷ []))
set_flags_nm-bounds_example =
    set_flags_nm-bounds arguments (buffer (b'r' ∷ b'p' ∷ [])) 3 flags_of_arguments

no_nul : contains 0 (b'g' ∷ b'u' ∷ []) ≡ false
unfolding contains
no_nul = refl

-- An undefined symbol that is not external, with -gu.
can_show_list-shows_example : can_show_list b'u' (buffer (b'g' ∷ b'u' ∷ [])).flags ≡ some false
unfolding contains shows is_extern
can_show_list-shows_example = can_show_list-shows b'u' (b'g' ∷ b'u' ∷ []) no_nul (omega arith)
