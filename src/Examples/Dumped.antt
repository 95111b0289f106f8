-- ===== src/Examples/Dumped.antt =====
-- The program ft_otool on the object of Otool, over a system with that one file.
use nm.Common.{ℕ, ◌+◌, ◌≡◌, refl, true, false, List, [], ◌∷◌, ◌++◌, arith, some}
use nm.Machine.{Machine, ◌>>=◌, byte_at, string_at, read8, read_le}
use nm.Machine.Words.{le_bytes}
use nm.Libft.Strings.{ft_strcmp}
use nm.Libft.Strings.Laws.{c_string}
use nm.System.{Os, descriptor}
use nm.System.Runs.{Runs}
use nm.FtNm.Safe.{is_safe, is_lc_safe, is_segmant_safe}
use nm.FtNm.Magic.{is_fat_file, is_64_file, should_swap_file, not_valid_file}
use nm.FtNm.Get.{get_add}
use nm.FtNm.SymbolLetter.{same_name, is_section_named}
use nm.FtNm.Main.Exit.{Opens}
use nm.FtOtool.Section.Search.{IsSection}
use nm.FtOtool.Section.Commands.{IsSegment, HasText, here}
use nm.FtOtool.Section.Object.{IsObject, IsText, dump}
use nm.FtOtool.Main.{main}
use nm.FtOtool.Main.Printed.{IsBinary, none_left, file, main-Dumps}
use nm.Examples.Otool.{before_section, names, addr, behind, contents, laid_out}

abbrev m : Machine
m = laid_out 0x100000f20

given_IsSegment : IsSegment m 4128 true 1
unfolding is_safe is_segmant_safe get_add read_le read8 byte_at ◌>>=◌ le_bytes
given_IsSegment = record {
  size = 152;
  command = record { cmd = 0x19; in_file = refl; kind = refl; segment = refl; sized = refl };
  whole = refl;
  count = refl;
}

section_IsSection : IsSection m 4128 true 0 true
unfolding is_safe is_section_named same_name ft_strcmp read_le read8 byte_at string_at ◌>>=◌
    le_bytes
section_IsSection = record { in_file = refl; named = refl }

segment_HasText : HasText m 4128 true 0
segment_HasText = record {
  nb = 1;
  segment = given_IsSegment;
  inside = omega arith;
  others = λ j lt. absurd (omega arith);
  text = section_IsSection;
}

object_IsObject : IsObject m 4096 true 4128 0
unfolding is_safe is_lc_safe read_le read8 byte_at ◌>>=◌ le_bytes
object_IsObject = record {
  ncmds = 1;
  before = 0;
  in_file = refl;
  header_in_file = refl;
  ncmds_at = refl;
  others = here;
  text = segment_HasText;
  counted = omega arith;
}

object_IsText :
    IsText 4096 187 true (before_section ++ names) behind contents [] 0x100000f20 4096 4200
unfolding is_safe read_le read8 byte_at ◌>>=◌ le_bytes
object_IsText = record {
  offset = 184;
  whole = refl;
  sized = refl;
  placed = refl;
  field = refl;
  contents = refl;
  in_file = omega arith;
  low = omega arith;
  small = omega arith;
  no_wrap = omega arith;
  are_bytes = (omega arith, (omega arith, (omega arith, tt)));
}

abbrev file_bytes : List ℕ
file_bytes = before_section ++ names ++ addr 0x20 ++ behind ++ contents

object_IsBinary : IsBinary 4096 file_bytes 187 true 0x100000f20 contents
unfolding is_safe is_fat_file is_64_file should_swap_file not_valid_file read_le read8 byte_at ◌>>=◌
    le_bytes
object_IsBinary = record {
  magic = 0xfeedfacf;
  lc = 4128;
  n = 0;
  pre = before_section ++ names;
  mid = behind;
  post = [];
  same = refl;
  safe = refl;
  number = refl;
  valid = refl;
  thin = refl;
  wide = refl;
  native = refl;
  object = object_IsObject;
  text = object_IsText;
}

-- Every name is that of the one file; the state is how many calls there were.
abbrev one_object_system : Os
one_object_system = record {
  State = ℕ;
  open_file = λ s name. (descriptor 3, s + 1);
  fstat = λ s fd. (some (record { st_size = 187; is_dir = false }), s + 1);
  close = λ s fd. s + 1;
  mmap = λ s size fd. (some (4096, file_bytes), s + 1);
  munmap = λ s p size. (true, s + 1);
}

file-Opens : Opens one_object_system 0 (b'f' ∷ 0 ∷ []) 4096 file_bytes 187 5
file-Opens = record {
  fd = 3;
  stat = record { st_size = 187; is_dir = false };
  opened_state = 1;
  known_state = 2;
  sized_state = 3;
  mapped_state = 4;
  opened = refl;
  known = refl;
  no_directory = refl;
  sized = refl;
  mapped = refl;
  unmapped = refl;
}

name_string : c_string (b'f' ∷ 0 ∷ []) ≡ some (b'f' ∷ [])
unfolding c_string
name_string = refl

main-Dumps_example :
    Runs
      (main one_object_system ((b'f' ∷ []) ∷ []))
      0
      0
      ((b'f' ∷ b':' ∷ 10 ∷ []) ++ dump true 0x100000f20 contents ++ [])
      5
main-Dumps_example = main-Dumps one_object_system (b'f' ∷ []) [] 0 5 _ (
    file (b'f' ∷ []) 4096 file_bytes 187 true 0x100000f20 contents name_string file-Opens
      object_IsBinary none_left refl)
