-- ===== src/FtOtool/Perform.antt =====
-- The calls of dump.c and handle_not_fat.c that print, carried out.
pub mod Lines
pub mod Section
use nm.Common.{ℕ, Option, none, some, List, [], ◌∷◌, ◌++◌}
use nm.Common.Int.{ℤ, pos}
use nm.Printf.Monad.{Arg, word, text}
use nm.Printf.Put.{putstr_loop}
use nm.Printf.Format.{ft_printf}
use nm.Printf.Format.Bytes.{byte_format, byte_space_format}
use nm.FtOtool.Dump.{Call, put_byte, put_byte_space, put_tab, put_newline, put_heading}

abbrev pub text_format : List ℕ
text_format = b'%' ∷ b's' ∷ 0 ∷ []

abbrev pub tab : List ℕ
tab = 9 ∷ 0 ∷ []

abbrev pub newline : List ℕ
newline = 10 ∷ 0 ∷ []

abbrev pub heading : List ℕ
heading =
    b'C' ∷ b'o' ∷ b'n' ∷ b't' ∷ b'e' ∷ b'n' ∷ b't' ∷ b's' ∷ b' ' ∷ b'o' ∷ b'f' ∷ b' ' ∷ b'(' ∷ b'_'
    ∷ b'_' ∷ b'T' ∷ b'E' ∷ b'X' ∷ b'T' ∷ b',' ∷ b'_' ∷ b'_' ∷ b't' ∷ b'e' ∷ b'x' ∷ b't' ∷ b')'
    ∷ b' ' ∷ b's' ∷ b'e' ∷ b'c' ∷ b't' ∷ b'i' ∷ b'o' ∷ b'n' ∷ 10 ∷ 0 ∷ []

-- The output of a call of ft_printf
abbrev pub printed : Option (ℤ × List ℕ × List Arg) → Option (List ℕ)
printed none = none
printed (some (n, out, args)) = some out

unfoldable pub perform : Call → Option (List ℕ)
perform (put_byte b) = printed (ft_printf byte_format (word b ∷ []))
perform (put_byte_space b) = printed (ft_printf byte_space_format (word b ∷ []))
perform put_tab = printed (ft_printf text_format (text (some tab) ∷ []))
perform put_newline = printed (ft_printf newline [])
perform put_heading = putstr_loop heading

unfoldable pub perform_all : List Call → Option (List ℕ)
perform_all [] = some []
perform_all (c ∷ calls) = elim (perform c) [
  | none ↦ none
  | some out ↦ elim (perform_all calls) [ none ↦ none | some rest ↦ some (out ++ rest) ]
]
