-- ===== src/FtNm/Lines.antt =====
-- print_nm_list.c: the lines of the symbols that are shown.
pub mod Printed
pub mod Recorded
use nm.Common.{ℕ, Bool, true, not, ◌||◌, Option, none, some, List, [], ◌∷◌, if◌then◌else◌}
use nm.Machine.{Machine, string_at}
use nm.Libft.Strings.{ft_strchr}
use nm.Printf.Monad.{word, text}
use nm.Printf.Format.{ft_printf}
use nm.Printf.Format.Text.{name_format, letter_format, symbol_format}
use nm.System.{Task, Event, standard_output, ◌>>=◌, ◌>>◌, pure, ask, working, attempt, print}
use nm.FtOtool.Dump.{Status, success, failure, hexdump_address}
use nm.FtOtool.Perform.{perform_all}
use nm.FtNm.NotFat.{Symbol}
use nm.FtNm.Print.{is_some, can_show_list}
use nm.FtNm.Report.{put_error}

abbrev pub malformed_message : List ℕ
malformed_message =
    b':' ∷ b' ' ∷ b'I' ∷ b's' ∷ b' ' ∷ b'm' ∷ b'a' ∷ b'l' ∷ b'f' ∷ b'o' ∷ b'r' ∷ b'm' ∷ b'e' ∷ b'd'
    ∷ b' ' ∷ b'f' ∷ b'i' ∷ b'l' ∷ b'e' ∷ b'.' ∷ 10 ∷ 0 ∷ []

-- The truth of `ft_strchr(flags, c)`.
abbrev pub flag : {S : Type 0} → List ℕ → ℕ → Task S Bool
flag flags c = do at ← attempt (ft_strchr flags c); pure (is_some at)

-- `hexdump_address`, with its calls carried out.
unfoldable pub put_address : Symbol → Task Machine (Unit {0})
put_address x = do
  calls ← working (hexdump_address x.add x.is_64)
  out ← attempt (perform_all calls)
  (λ m. some (tt, standard_output out ∷ [], m))

-- The line of a symbol that is shown.
unfoldable pub put_symbol : List ℕ → Symbol → Task Machine (Unit {0})
put_symbol flags x = do
  u ← flag flags b'u'
  j ← (if u then pure true else flag flags b'j')
  if not j then (do put_address x; print (ft_printf letter_format (word x.type ∷ []))) else pure tt
  name ← ask (λ m. (string_at m x.name, m))
  print (ft_printf symbol_format (text (some name) ∷ []))

-- The loop of `print_nm_list`.
unfoldable pub list_loop : List ℕ → List Symbol → Task Machine (Unit {0})
list_loop flags [] = pure tt
list_loop flags (x ∷ list) = do
  show ← attempt (can_show_list x.type flags)
  if show then put_symbol flags x else pure tt
  list_loop flags list

unfoldable pub print_nm_list :
    List Symbol → (name : List ℕ) → (mu : Bool) → (flags : List ℕ) → Task Machine Status
print_nm_list [] name mu flags = do put_error name malformed_message; pure failure
print_nm_list (x ∷ list) name mu flags = do
  if mu then print (ft_printf name_format (text (some name) ∷ [])) else pure tt
  list_loop flags (x ∷ list)
  pure success
