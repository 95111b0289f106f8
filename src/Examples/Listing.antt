-- ===== src/Examples/Listing.antt =====
-- The object of Object as ft_nm prints it, and the calls of dump.c.
use nm.Common.{ℕ, ◌≡◌, ◌↔◌, refl, true, false, List, [], ◌∷◌, ◌++◌, arith, take, drop}
use nm.Machine.{◌>>=◌, byte_at, string_at, read8, read_le}
use nm.Libft.Strings.Laws.{c_string}
use nm.FtNm.NotFat.{Symbol}
use nm.FtNm.Safe.{is_safe}
use nm.FtNm.Magic.{is_fat_file, is_64_file, should_swap_file, not_valid_file, not_valid_header}
use nm.FtNm.Flags.Spec.{contains, buffer}
use nm.FtNm.Sort.Order.{IsReadable, key}
use nm.FtNm.Lines.{print_nm_list}
use nm.FtNm.Lines.Printed.{IsInFile, line, lines, is_shown, print_nm_list-lines}
use nm.FtNm.Lines.Recorded.{recorded_lines, ShowsNoU, print_nm_list-ShowsNoU}
use nm.FtNm.Print.Shown.{shows}
use nm.FtOtool.Dump.{success}
use nm.System.Runs.{Runs}
use nm.FtNm.Nm.Object.{entry, Listed, nm_file-Listed}
use nm.Examples.Object.{object, table, undefined_symbol, absolute_symbol, object_IsObject}

undefined-IsReadable : IsReadable object true (λ n. 0) undefined_symbol
unfolding key c_string string_at read_le read8 byte_at ◌>>=◌
undefined-IsReadable = record {
  width = refl;
  named = refl;
  valued = refl;
  above = omega arith;
  below = omega arith;
  fits = omega arith;
}

absolute-IsReadable : IsReadable object true (λ n. 0) absolute_symbol
unfolding key c_string string_at read_le read8 byte_at ◌>>=◌
absolute-IsReadable = record {
  width = refl;
  named = refl;
  valued = refl;
  above = omega arith;
  below = omega arith;
  fits = omega arith;
}

undefined-IsInFile : IsInFile object (entry object undefined_symbol)
unfolding entry key c_string string_at
undefined-IsInFile = record {
  before = take 120 object.bytes;
  behind = drop 128 object.bytes;
  size = refl;
  held = refl;
  place = refl;
  fits = omega arith;
  bytes = (
    omega arith,
    (
      omega arith,
      (omega arith, (omega arith, (omega arith, (omega arith, (omega arith, (omega arith, tt)))))),
    ),
  );
  letter = omega arith;
  named = refl;
}

absolute-IsInFile : IsInFile object (entry object absolute_symbol)
unfolding entry key c_string string_at
absolute-IsInFile = record {
  before = take 136 object.bytes;
  behind = drop 144 object.bytes;
  size = refl;
  held = refl;
  place = refl;
  fits = omega arith;
  bytes = (
    omega arith,
    (
      omega arith,
      (omega arith, (omega arith, (omega arith, (omega arith, (omega arith, (omega arith, tt)))))),
    ),
  );
  letter = omega arith;
  named = refl;
}

abbrev file_name : List ℕ
file_name = b'f' ∷ []

-- The name of the file, the undefined symbol and the absolute one.
abbrev listing : List ℕ
listing =
    b'f' ∷ b':' ∷ 10 ∷ b'0' ∷ b'0' ∷ b'0' ∷ b'0' ∷ b'0' ∷ b'0' ∷ b'0' ∷ b'0' ∷ b'0' ∷ b'0' ∷ b'0'
    ∷ b'0' ∷ b'0' ∷ b'0' ∷ b'0' ∷ b'0' ∷ b' ' ∷ b'U' ∷ b' ' ∷ b'_' ∷ b'a' ∷ 10 ∷ b'0' ∷ b'0' ∷ b'0'
    ∷ b'0' ∷ b'0' ∷ b'0' ∷ b'0' ∷ b'0' ∷ b'0' ∷ b'0' ∷ b'0' ∷ b'0' ∷ b'0' ∷ b'0' ∷ b'1' ∷ b'0'
    ∷ b' ' ∷ b'A' ∷ b' ' ∷ b'_' ∷ b'b' ∷ 10 ∷ []

print_nm_list-lines_example :
    Runs
      (print_nm_list table (file_name ++ (0 ∷ [])) true (buffer []).flags)
      object
      success
      listing
      object
unfolding entry key c_string string_at contains lines line is_shown shows read_le read8 byte_at
    ◌>>=◌
print_nm_list-lines_example =
    print_nm_list-lines [] refl (omega arith) object (entry object undefined_symbol)
      (entry object absolute_symbol ∷ []) (file_name ++ (0 ∷ [])) file_name true
      (undefined-IsInFile, (absolute-IsInFile, tt)) refl

-- The listing has a line with the letter U.
print_nm_list-ShowsNoU_example :
    (out : List ℕ) × Runs
      (print_nm_list table (file_name ++ (0 ∷ [])) true (buffer []).flags)
      object
      success
      out
      object
    × ((out
          ≡ (file_name ++ (b':' ∷ 10 ∷ []))
            ++ recorded_lines []
                (entry object undefined_symbol ∷ entry object absolute_symbol ∷ []))
        ↔ ShowsNoU [] (entry object undefined_symbol ∷ entry object absolute_symbol ∷ []))
unfolding entry key c_string string_at contains read_le read8 byte_at ◌>>=◌
print_nm_list-ShowsNoU_example =
    print_nm_list-ShowsNoU [] refl refl refl (omega arith) object (entry object undefined_symbol)
      (entry object absolute_symbol ∷ []) (file_name ++ (0 ∷ [])) file_name true
      (undefined-IsInFile, (absolute-IsInFile, tt)) refl

nm_file-Listed_example :
    (out : List Symbol) × Listed object 4144
      (file_name ++ (0 ∷ []))
      true
      false
      []
      file_name
      table
      out
unfolding entry key c_string string_at contains is_safe is_fat_file is_64_file should_swap_file
    not_valid_file not_valid_header read_le read8 byte_at ◌>>=◌
nm_file-Listed_example =
    nm_file-Listed [] refl (omega arith) object 4144 0xfeedfacf (λ n. 0) (file_name ++ (0 ∷ []))
      file_name true false undefined_symbol (absolute_symbol ∷ []) refl refl refl refl refl refl
      object_IsObject
      ((undefined-IsReadable, undefined-IsInFile), ((absolute-IsReadable, absolute-IsInFile), tt))
      refl
