-- ===== src/Examples/Magic.antt =====
-- Magic numbers, pointer tests and letters at concrete inputs.
use nm.Common.{◌+◌, ◌≤◌, ◌≡◌, ◌↔◌, refl, true, false, arith}
use nm.FtNm.Safe.{is_safe}
use nm.FtNm.Safe.Bounds.{is_safe_iff}
use nm.FtNm.SwapBytes.{swap_uint32}
use nm.FtNm.Magic.{not_valid_file}
use nm.FtNm.Magic.Laws.{IsOpposite, swap_uint32-IsOpposite}
use nm.FtNm.SymbolLetter.{pre_symbol_letter, extern_letter}
use nm.FtNm.SymbolLetter.Classes.{class_letter, pre_symbol_letter-class}
use nm.Examples.SwapBytes.{small}

is_safe_iff_example : (is_safe 0x1006 small ≡ true) ↔ ((0x1000 ≤ 0x1006) × (0x1006 ≤ 0x1000 + 6))
is_safe_iff_example = is_safe_iff 0x1006 small (omega arith) (omega arith)

cafebabe_is_valid : not_valid_file 0xcafebabe ≡ false
unfolding not_valid_file
cafebabe_is_valid = refl

swap_uint32-IsOpposite_example : IsOpposite 0xcafebabe (swap_uint32 0xcafebabe)
swap_uint32-IsOpposite_example = swap_uint32-IsOpposite 0xcafebabe cafebabe_is_valid

-- An external absolute symbol.
pre_symbol_letter-class_example : (pre_symbol_letter 3 0 16 ≡ b'a') × (extern_letter b'a' 3 ≡ b'A')
unfolding class_letter
pre_symbol_letter-class_example = pre_symbol_letter-class 3 0 16 b'a' (omega arith)
