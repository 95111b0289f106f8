-- ===== src/Examples/Object.antt =====
-- A fat file at the address 4096 with a slice for i386, which is skipped, and one for x86_64: a
-- Mach-O object of 104 bytes at the address 4144.
use nm.Common.{
  ◌⊎◌, zero, suc, ◌<◌, ℕ, ◌≡◌, refl, true, false, List, [], ◌∷◌, ◌++◌, arith, replicate,
}
use nm.Machine.{Machine, ok, ◌>>=◌, byte_at, read8, read_le}
use nm.FtNm.Safe.{is_safe, is_lc_safe}
use nm.FtNm.Get.{get_nlist, get_symbol_name, get_offsize_arch}
use nm.FtNm.SymbolLetter.{get_symbol_letter, pre_symbol_letter, extern_letter}
use nm.FtNm.NotFat.{Symbol, handle_not_fat, list_symtab}
use nm.FtNm.NotFat.Table.{adds, entry_values, list_symtab-Entered}
use nm.FtNm.Memory.Laws.{handle_not_fat_unchanged}
use nm.FtNm.SwapBytes.{swap_uint32}
use nm.FtNm.Magic.{
  my_cpu_i386, is_hostarch, host_arch_of, not_valid_header, is_64_file, is_fat_file,
  should_swap_file,
}
use nm.FtNm.Fat.{handle_fat, get_nfat_arch}
use nm.FtNm.Fat.Choice.{IsOther, IsNative, handle_fat-IsNative}
use nm.FtNm.NotFat.Commands.{here, next}
use nm.FtNm.NotFat.Listing.{IsEntry, list_symtab-AreEntries}
use nm.FtNm.NotFat.Object.{IsObject, IsSymtab, handle_not_fat-IsObject}

-- Big-endian: two slices; cputype, cpusubtype, offset, size and align of each.
abbrev fat_header : List ℕ
fat_header =
    0xca ∷ 0xfe ∷ 0xba ∷ 0xbe ∷ 0 ∷ 0 ∷ 0 ∷ 2 ∷ 0 ∷ 0 ∷ 0 ∷ 7 ∷ 0 ∷ 0 ∷ 0 ∷ 3 ∷ 0 ∷ 0 ∷ 0 ∷ 0 ∷ 0
    ∷ 0 ∷ 0 ∷ 0 ∷ 0 ∷ 0 ∷ 0 ∷ 0 ∷ 1 ∷ 0 ∷ 0 ∷ 7 ∷ 0 ∷ 0 ∷ 0 ∷ 3 ∷ 0 ∷ 0 ∷ 0 ∷ 48 ∷ 0 ∷ 0 ∷ 0 ∷ 104
    ∷ 0 ∷ 0 ∷ 0 ∷ 0 ∷ []

-- The header, with two load commands.
abbrev pub header : List ℕ
header =
    0xcf
    ∷ 0xfa
    ∷ 0xed
    ∷ 0xfe
    ∷ 7
    ∷ 0
    ∷ 0
    ∷ 1
    ∷ 3
    ∷ 0
    ∷ 0
    ∷ 0
    ∷ 2
    ∷ 0
    ∷ 0
    ∷ 0
    ∷ 2
    ∷ 0
    ∷ 0
    ∷ 0
    ∷ 32
    ∷ 0
    ∷ 0
    ∷ 0
    ∷ replicate 8 0

-- A command of another kind, and LC_SYMTAB: symoff 64, nsyms 2, stroff 96, strsize 8.
abbrev pub commands : List ℕ
commands =
    0x1b ∷ 0 ∷ 0 ∷ 0 ∷ 8 ∷ 0 ∷ 0 ∷ 0 ∷ 2 ∷ 0 ∷ 0 ∷ 0 ∷ 24 ∷ 0 ∷ 0 ∷ 0 ∷ 64 ∷ 0 ∷ 0 ∷ 0 ∷ 2 ∷ 0 ∷ 0
    ∷ 0 ∷ 96 ∷ 0 ∷ 0 ∷ 0 ∷ 8 ∷ 0 ∷ 0 ∷ 0 ∷ []

-- An undefined symbol, an absolute one, and their names.
abbrev pub entries : List ℕ
entries =
    1 ∷ 0 ∷ 0 ∷ 0 ∷ 1 ∷ 0 ∷ 0 ∷ 0 ∷ replicate 8 0
    ++ (4 ∷ 0 ∷ 0 ∷ 0 ∷ 3 ∷ 0 ∷ 0 ∷ 0 ∷ 16 ∷ replicate 7 0)
    ++ (0 ∷ b'_' ∷ b'a' ∷ 0 ∷ b'_' ∷ b'b' ∷ 0 ∷ 0 ∷ [])

abbrev pub object : Machine
object = record {
  g_begin = 4096;
  g_map_size = 152;
  bytes = fat_header ++ header ++ commands ++ entries;
}

abbrev pub undefined_symbol : Symbol
undefined_symbol = record { is_64 = true; type = b'U'; add = 4216; name = 4241 }

abbrev pub absolute_symbol : Symbol
absolute_symbol = record { is_64 = true; type = b'A'; add = 4232; name = 4244 }

abbrev pub table : List Symbol
table = undefined_symbol ∷ absolute_symbol ∷ []

first_IsEntry : IsEntry object 4184 4144 true 4240 2 64 0 undefined_symbol
unfolding is_safe get_nlist get_symbol_letter pre_symbol_letter extern_letter get_symbol_name
    read_le read8 byte_at ◌>>=◌
first_IsEntry = record {
  in_file = refl;
  lettered = refl;
  named = refl;
  name_in_file = refl;
  valued = refl;
  width = refl;
}

second_IsEntry : IsEntry object 4184 4144 true 4240 2 64 1 absolute_symbol
unfolding is_safe get_nlist get_symbol_letter pre_symbol_letter extern_letter get_symbol_name
    read_le read8 byte_at ◌>>=◌
second_IsEntry = record {
  in_file = refl;
  lettered = refl;
  named = refl;
  name_in_file = refl;
  valued = refl;
  width = refl;
}

object_IsSymtab : IsSymtab object 4144 4184 true table
unfolding is_safe read_le read8 byte_at ◌>>=◌
object_IsSymtab = record {
  stroff = 96;
  symoff = 64;
  in_file = refl;
  stroff_at = refl;
  symoff_at = refl;
  nsyms_at = refl;
  fits = omega arith;
  strings_in_file = refl;
  entries = (first_IsEntry, (second_IsEntry, tt));
}

pub object_IsObject : IsObject object 4144 true table
unfolding is_safe is_lc_safe read_le read8 byte_at ◌>>=◌
object_IsObject = record {
  ncmds = 2;
  before = 1;
  lc = 4184;
  size = 24;
  in_file = refl;
  header_in_file = refl;
  ncmds_at = refl;
  others = next 0x1b 8 (record { in_file = refl; kind = refl; sized = refl }) refl here;
  command = record { in_file = refl; kind = refl; sized = refl };
  counted = omega arith;
  symtab = object_IsSymtab;
}

handle_not_fat-IsObject_example : handle_not_fat true false 4144 object ≡ ok table object
handle_not_fat-IsObject_example = handle_not_fat-IsObject object 4144 true table object_IsObject

handle_not_fat_unchanged_example : object ≡ object
handle_not_fat_unchanged_example =
    handle_not_fat_unchanged true 4144 object object table handle_not_fat-IsObject_example

list_symtab_of_object : list_symtab 4184 4144 false true object ≡ ok table object
unfolding is_safe read_le read8 byte_at ◌>>=◌
list_symtab_of_object =
    list_symtab-AreEntries object 4184 4144 true 96 2 64 table refl refl refl refl (omega arith)
      refl refl (first_IsEntry, (second_IsEntry, tt))

list_symtab-Entered_example : (table ≡ []) ⊎ (adds table ≡ 4216 ∷ 4232 ∷ [])
unfolding read_le read8 byte_at ◌>>=◌ entry_values get_nlist
list_symtab-Entered_example =
    list_symtab-Entered object object 4184 4144 true 2 64 table refl refl (omega arith)
      list_symtab_of_object

i386_IsOther : (j : ℕ) → j < 1 → IsOther object 4096 false true j
unfolding is_safe is_hostarch host_arch_of swap_uint32 read_le read8 byte_at ◌>>=◌
i386_IsOther zero lt = record { arch = my_cpu_i386; in_file = refl; hosted = refl; other = refl }
i386_IsOther (suc j) lt = absurd (omega arith)

x86_64_IsNative : IsNative object 4096 false true 1 table
unfolding is_safe is_hostarch host_arch_of get_offsize_arch swap_uint32 not_valid_header is_64_file
    is_fat_file should_swap_file read_le read8 byte_at ◌>>=◌
x86_64_IsNative = record {
  offset = 48;
  magic = 0xfeedfacf;
  in_file = refl;
  hosted = refl;
  offset_at = refl;
  magic_at = refl;
  valid = refl;
  native = refl;
  object = object_IsObject;
}

handle_fat-IsNative_example : handle_fat false true 4096 object ≡ ok table object
unfolding is_safe get_nfat_arch swap_uint32 read_le read8 byte_at ◌>>=◌
handle_fat-IsNative_example =
    handle_fat-IsNative object 4096 false true 2 1 undefined_symbol (absolute_symbol ∷ []) refl refl
      (omega arith) i386_IsOther x86_64_IsNative
