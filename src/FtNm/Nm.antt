-- ===== src/FtNm/Nm.antt =====
-- nm.c: one file that is mapped. `nm_file` is the function `nm`.
pub mod Object
use nm.Common.{ℕ, Bool, not, List, [], ◌∷◌, if◌then◌else◌}
use nm.Machine.{Machine, Ptr, ◌⊕◌, read32}
use nm.System.{Task, ◌>>=◌, ◌>>◌, pure, ask, working}
use nm.FtOtool.Dump.{Status}
use nm.FtNm.Safe.{is_safe}
use nm.FtNm.Magic.{is_fat_file, is_64_file, should_swap_file, not_valid_file}
use nm.FtNm.Fat.{handle_nm}
use nm.FtNm.Print.{sort_nm_list}
use nm.FtNm.Report.{put_error_with_return, print_new_line}
use nm.FtNm.Lines.{print_nm_list}

abbrev pub not_object_message : List ℕ
not_object_message =
    b':' ∷ b' ' ∷ b'i' ∷ b's' ∷ b' ' ∷ b'n' ∷ b'o' ∷ b't' ∷ b' ' ∷ b'a' ∷ b'n' ∷ b' ' ∷ b'o' ∷ b'b'
    ∷ b'j' ∷ b'e' ∷ b'c' ∷ b't' ∷ b' ' ∷ b'f' ∷ b'i' ∷ b'l' ∷ b'e' ∷ b'.' ∷ 10 ∷ 0 ∷ []

unfoldable pub nm_file :
    Ptr → (name : List ℕ) → (multi first : Bool) → (flags : List ℕ) → Task Machine Status
nm_file p name multi first flags = do
  safe ← ask (λ m. (is_safe (p ⊕ 32) m, m))
  if not safe then put_error_with_return name not_object_message else do
    magic_number ← working (read32 p)
    if not_valid_file magic_number then put_error_with_return name not_object_message else do
      nm_list ← working (
          handle_nm (is_fat_file magic_number) (is_64_file magic_number)
            (should_swap_file magic_number) p)
      sorted ← working (sort_nm_list nm_list flags)
      print_new_line multi first
      print_nm_list sorted name multi flags
