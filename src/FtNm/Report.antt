-- ===== src/FtNm/Report.antt =====
-- dump.c, and `print_new_line` of helper.c: what is reported.
use nm.Common.{ℕ, Bool, not, ◌&&◌, List, [], ◌∷◌, if◌then◌else◌}
use nm.System.{Task, ◌>>◌, pure, print, write_error}
use nm.Printf.Format.{ft_printf}
use nm.FtOtool.Dump.{Status, failure}

unfoldable pub put_error : {S : Type 0} → List ℕ → List ℕ → Task S (Unit {0})
put_error s1 s2 = do write_error s1; write_error s2

-- `EXIT_FAILURE`
unfoldable pub return_error : {S : Type 0} → List ℕ → Task S ℕ
return_error s1 = do write_error s1; pure 1

unfoldable pub put_error_with_return : {S : Type 0} → List ℕ → List ℕ → Task S Status
put_error_with_return s1 s2 = do write_error s1; write_error s2; pure failure

unfoldable pub print_new_line : {S : Type 0} → (multi first : Bool) → Task S (Unit {0})
print_new_line multi first =
    if not first && multi then print (ft_printf (10 ∷ 0 ∷ []) []) else pure tt
