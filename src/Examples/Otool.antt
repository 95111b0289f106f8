-- ===== src/Examples/Otool.antt =====
-- ft_otool on an object at the address 4096 whose section __text holds three bytes.
use nm.Common.{ℕ, ◌≡◌, refl, some, true, false, List, [], ◌∷◌, ◌++◌, arith, map, replicate, inr}
use nm.Machine.{Machine, ok, ◌>>=◌, byte_at, string_at, read8, write8, read_le, write_le}
use nm.Libft.Strings.{ft_strcmp}
use nm.FtNm.Safe.{is_safe, is_lc_safe, is_segmant_safe}
use nm.FtNm.Get.{get_lc, get_add}
use nm.FtNm.SymbolLetter.{same_name, is_section_named}
use nm.FtOtool.Dump.{
  Call, success, put_byte, put_byte_space, put_tab, put_newline, put_heading, address_loop,
  hexdump_address, data_loop, hexdump_data, add_16, dump_loop, dump_section,
}
use nm.FtOtool.Section.{
  text_loop, text_in_seg, segment_loop, get_text_section, put_text_section, handle_not_fat,
  handle_otool,
}
use nm.Machine.Words.{le_bytes}
use nm.FtOtool.Dump.Rows.{layout}
use nm.FtOtool.Perform.Section.{text_rows, dump_section-text_rows}
use nm.FtOtool.Perform.{perform_all}
use nm.FtOtool.Perform.Lines.{hexdump_data-hex_columns, hexdump_address-hex_pairs}

-- The header with one load command, and the segment with one section.
abbrev pub before_section : List ℕ
before_section =
    0xcf ∷ 0xfa ∷ 0xed ∷ 0xfe ∷ replicate 12 0
    ++ (1 ∷ replicate 15 0)
    ++ (0x19 ∷ 0 ∷ 0 ∷ 0 ∷ 152 ∷ replicate 59 0 ++ (1 ∷ replicate 7 0))

abbrev pub names : List ℕ
names =
    b'_' ∷ b'_' ∷ b't' ∷ b'e' ∷ b'x' ∷ b't' ∷ replicate 10 0
    ++ (b'_' ∷ b'_' ∷ b'T' ∷ b'E' ∷ b'X' ∷ b'T' ∷ replicate 10 0)

-- The field `addr`; then the fields from `size` on, and the contents.
abbrev pub addr : ℕ → List ℕ
addr low = low ∷ 0x0f ∷ 0 ∷ 0 ∷ 1 ∷ 0 ∷ 0 ∷ 0 ∷ []

abbrev pub behind : List ℕ
behind = 3 ∷ replicate 7 0 ++ (184 ∷ replicate 31 0)

abbrev pub contents : List ℕ
contents = 0x55 ∷ 0x48 ∷ 0x89 ∷ []

abbrev pub binary : ℕ → Machine
binary low = record {
  g_begin = 4096;
  g_map_size = 187;
  bytes = before_section ++ names ++ addr low ++ behind ++ contents;
}

abbrev address : List Call
address = map put_byte (0 ∷ 0 ∷ 0 ∷ 1 ∷ 0 ∷ 0 ∷ 0x0f ∷ 0x20 ∷ [])

abbrev printed : List Call
printed = put_heading ∷ address ++ (put_tab ∷ map put_byte_space contents) ++ (put_newline ∷ [])

otool_of_binary :
    handle_otool false true false 4096 (binary 0x20) ≡ ok (success, printed) (binary 0x30)
unfolding handle_otool handle_not_fat get_lc get_add get_text_section segment_loop text_in_seg
    text_loop put_text_section dump_section dump_loop hexdump_address address_loop hexdump_data
    data_loop add_16 is_safe is_lc_safe is_segmant_safe is_section_named same_name ft_strcmp read_le
    write_le read8 write8 byte_at string_at ◌>>=◌
otool_of_binary = refl

hexdump_data-hex_columns_example :
    (calls : List Call) × (hexdump_data 4280 0 3 (binary 0x20) ≡ ok calls (binary 0x20))
    × (perform_all calls ≡ some (b'5' ∷ b'5' ∷ b' ' ∷ b'4' ∷ b'8' ∷ b' ' ∷ b'8' ∷ b'9' ∷ b' ' ∷ []))
hexdump_data-hex_columns_example =
    hexdump_data-hex_columns (binary 0x20) 4280 0 3 (before_section ++ names ++ addr 0x20 ++ behind)
      contents [] (omega arith) refl refl (omega arith)
      (record { inside = omega arith; short = omega arith; ends = inr refl })
      (omega arith, (omega arith, (omega arith, tt)))

hexdump_address-hex_pairs_example :
    (calls : List Call) × (hexdump_address 4232 true (binary 0x20) ≡ ok calls (binary 0x20))
    × (perform_all calls
        ≡ some (
            b'0' ∷ b'0' ∷ b'0' ∷ b'0' ∷ b'0' ∷ b'0' ∷ b'0' ∷ b'1' ∷ b'0' ∷ b'0' ∷ b'0' ∷ b'0' ∷ b'0'
            ∷ b'f' ∷ b'2' ∷ b'0' ∷ []))
hexdump_address-hex_pairs_example =
    hexdump_address-hex_pairs (binary 0x20) 4232 true (0 ∷ 0 ∷ 0 ∷ 1 ∷ 0 ∷ 0 ∷ 0x0f ∷ 0x20 ∷ [])
      (before_section ++ names) (behind ++ contents) refl refl refl (omega arith)
      (
        omega arith,
        (
          omega arith,
          (
            omega arith,
            (omega arith, (omega arith, (omega arith, (omega arith, (omega arith, tt))))),
          ),
        ),
      )

-- The row "0000000100000f20", a tab and "55 48 89 ".
abbrev pub row : List ℕ
row =
    b'0' ∷ b'0' ∷ b'0' ∷ b'0' ∷ b'0' ∷ b'0' ∷ b'0' ∷ b'1' ∷ b'0' ∷ b'0' ∷ b'0' ∷ b'0' ∷ b'0' ∷ b'f'
    ∷ b'2' ∷ b'0' ∷ 9 ∷ b'5' ∷ b'5' ∷ b' ' ∷ b'4' ∷ b'8' ∷ b' ' ∷ b'8' ∷ b'9' ∷ b' ' ∷ 10 ∷ []

abbrev pub laid_out : ℕ → Machine
laid_out a = layout 4096 187 true (before_section ++ names) behind contents [] a

dump_section-text_rows_example :
    (a' : ℕ) × (calls : List Call) × (dump_section 4232 true 3 184 4096 (laid_out 0x100000f20)
      ≡ ok (success, calls) (laid_out a'))
    × (perform_all calls ≡ some row)
unfolding text_rows le_bytes
dump_section-text_rows_example =
    dump_section-text_rows 4096 187 true (before_section ++ names) behind contents [] 0x100000f20
      184 4096 (omega arith) (omega arith) (omega arith) (omega arith) refl
      (omega arith, (omega arith, (omega arith, tt)))
