-- ===== src/Examples/Program.antt =====
-- The whole program on a file that holds the object of Object, over a system with that one file.
use nm.Common.{
  All, ◌↔◌, ℕ, ◌+◌, ◌≡◌, refl, true, false, List, [], ◌∷◌, ◌++◌, arith, take, drop, some, none,
}
use nm.Machine.{Machine, ◌>>=◌, byte_at, string_at, read8, read_le}
use nm.Libft.Strings.Laws.{c_string}
use nm.System
use nm.System.{Os, Opened, descriptor, open_failed, Stat, Event, standard_error, write_error}
use nm.FtNm.NotFat.{Symbol}
use nm.FtNm.NotFat.Commands.{here, next}
use nm.FtNm.NotFat.Listing.{IsEntry}
use nm.FtNm.NotFat.Object.{IsObject, IsSymtab}
use nm.FtNm.Get.{get_nlist, get_symbol_name}
use nm.FtNm.SymbolLetter.{get_symbol_letter, pre_symbol_letter, extern_letter}
use nm.FtNm.Safe.{is_safe, is_lc_safe}
use nm.FtNm.Magic.{is_fat_file, is_64_file, should_swap_file, not_valid_file, not_valid_header}
use nm.FtNm.Flags.{is_flag}
use nm.FtNm.Flags.Spec.{contains, collect, first_bad, option_letters, option_count}
use nm.FtNm.Sort.Order.{IsReadable, key}
use nm.FtNm.Lines.Printed.{IsInFile}
use nm.FtNm.Nm.Object.{entry}
use nm.Libft.Strings.{ft_strlen}
use nm.FtNm.Report.{put_error}
use nm.FtNm.Main.{
  mapping, no_file_message, get_fd, handle_opened, handle_each_arg, args_loop, multi_args,
}
use nm.FtNm.Main.Statuses.{Handled, multi_args-Handled}
use nm.FtNm.Main.Exit.{Opens, Succeeds, main-Succeeds}
use nm.Examples.Object.{header, commands, entries, table, undefined_symbol, absolute_symbol}

abbrev thin_bytes : List ℕ
thin_bytes = header ++ commands ++ entries

abbrev thin : Machine
thin = mapping 4144 thin_bytes 104

first_IsEntry : IsEntry thin 4184 4144 true 4240 2 64 0 undefined_symbol
unfolding is_safe get_nlist get_symbol_letter pre_symbol_letter extern_letter get_symbol_name
    read_le read8 byte_at ◌>>=◌
first_IsEntry = record {
  in_file = refl;
  lettered = refl;
  named = refl;
  name_in_file = refl;
  valued = refl;
  width = refl;
}

second_IsEntry : IsEntry thin 4184 4144 true 4240 2 64 1 absolute_symbol
unfolding is_safe get_nlist get_symbol_letter pre_symbol_letter extern_letter get_symbol_name
    read_le read8 byte_at ◌>>=◌
second_IsEntry = record {
  in_file = refl;
  lettered = refl;
  named = refl;
  name_in_file = refl;
  valued = refl;
  width = refl;
}

thin-IsSymtab : IsSymtab thin 4144 4184 true table
unfolding is_safe read_le read8 byte_at ◌>>=◌
thin-IsSymtab = record {
  stroff = 96;
  symoff = 64;
  in_file = refl;
  stroff_at = refl;
  symoff_at = refl;
  nsyms_at = refl;
  fits = omega arith;
  strings_in_file = refl;
  entries = (first_IsEntry, (second_IsEntry, tt));
}

thin-IsObject : IsObject thin 4144 true table
unfolding is_safe is_lc_safe read_le read8 byte_at ◌>>=◌
thin-IsObject = record {
  ncmds = 2;
  before = 1;
  lc = 4184;
  size = 24;
  in_file = refl;
  header_in_file = refl;
  ncmds_at = refl;
  others = next 0x1b 8 (record { in_file = refl; kind = refl; sized = refl }) refl here;
  command = record { in_file = refl; kind = refl; sized = refl };
  counted = omega arith;
  symtab = thin-IsSymtab;
}

undefined-IsReadable : IsReadable thin true (λ n. 0) undefined_symbol
unfolding key c_string string_at read_le read8 byte_at ◌>>=◌
undefined-IsReadable = record {
  width = refl;
  named = refl;
  valued = refl;
  above = omega arith;
  below = omega arith;
  fits = omega arith;
}

absolute-IsReadable : IsReadable thin true (λ n. 0) absolute_symbol
unfolding key c_string string_at read_le read8 byte_at ◌>>=◌
absolute-IsReadable = record {
  width = refl;
  named = refl;
  valued = refl;
  above = omega arith;
  below = omega arith;
  fits = omega arith;
}

undefined-IsInFile : IsInFile thin (entry thin undefined_symbol)
unfolding entry key c_string string_at
undefined-IsInFile = record {
  before = take 72 thin.bytes;
  behind = drop 80 thin.bytes;
  size = refl;
  held = refl;
  place = refl;
  fits = omega arith;
  bytes = (
    omega arith,
    (
      omega arith,
      (omega arith, (omega arith, (omega arith, (omega arith, (omega arith, (omega arith, tt)))))),
    ),
  );
  letter = omega arith;
  named = refl;
}

absolute-IsInFile : IsInFile thin (entry thin absolute_symbol)
unfolding entry key c_string string_at
absolute-IsInFile = record {
  before = take 88 thin.bytes;
  behind = drop 96 thin.bytes;
  size = refl;
  held = refl;
  place = refl;
  fits = omega arith;
  bytes = (
    omega arith,
    (
      omega arith,
      (omega arith, (omega arith, (omega arith, (omega arith, (omega arith, (omega arith, tt)))))),
    ),
  );
  letter = omega arith;
  named = refl;
}

-- Every name is that of the one file; the state is how many calls there were.
abbrev one_file_system : Os
one_file_system = record {
  State = ℕ;
  open_file = λ s name. (descriptor 3, s + 1);
  fstat = λ s fd. (some (record { st_size = 104; is_dir = false }), s + 1);
  close = λ s fd. s + 1;
  mmap = λ s size fd. (some (4144, thin_bytes), s + 1);
  munmap = λ s p size. (true, s + 1);
}

abbrev file : List ℕ
file = b'f' ∷ []

abbrev command_line : List (List ℕ)
command_line = (b'-' ∷ b'r' ∷ []) ∷ file ∷ []

file-Opens : Opens one_file_system 0 (file ++ (0 ∷ [])) 4144 thin_bytes 104 5
file-Opens = record {
  fd = 3;
  stat = record { st_size = 104; is_dir = false };
  opened_state = 1;
  known_state = 2;
  sized_state = 3;
  mapped_state = 4;
  opened = refl;
  known = refl;
  no_directory = refl;
  sized = refl;
  mapped = refl;
  unmapped = refl;
}

main-Succeeds_example :
    (out : List Symbol) × Succeeds one_file_system command_line 0 5 thin (b'r' ∷ []) table out
unfolding c_string contains collect first_bad option_letters option_count is_flag is_safe
    is_fat_file is_64_file should_swap_file not_valid_file not_valid_header read_le read8 byte_at
    ◌>>=◌
main-Succeeds_example =
    main-Succeeds one_file_system command_line file 0 5 4144 thin_bytes 104 0xfeedfacf (λ n. 0)
      undefined_symbol (absolute_symbol ∷ []) refl refl refl refl file-Opens refl refl refl refl
      refl thin-IsObject
      ((undefined-IsReadable, undefined-IsInFile), ((absolute-IsReadable, absolute-IsInFile), tt))

-- A system without files.
abbrev empty_system : Os
empty_system = record {
  State = ℕ;
  open_file = λ s name. (open_failed, s + 1);
  fstat = λ s fd. (none, s + 1);
  close = λ s fd. s + 1;
  mmap = λ s size fd. (none, s + 1);
  munmap = λ s p size. (false, s + 1);
}

abbrev complaint : List Event
complaint = standard_error file ∷ standard_error (take 29 no_file_message) ∷ []

two_missing : multi_args empty_system (file ∷ file ∷ []) [] 0 ≡ some (1, complaint ++ complaint, 2)
unfolding multi_args args_loop handle_each_arg get_fd handle_opened put_error write_error ft_strlen
    System.◌>>=◌
two_missing = refl

multi_args-Handled_example :
    (statuses : List ℕ) × Handled empty_system [] true (file ∷ file ∷ []) 0 statuses 2
    × ((◌≡◌ {A = ℕ} 1 0) ↔ All (λ n. n ≡ 0) statuses)
multi_args-Handled_example =
    multi_args-Handled empty_system [] (file ∷ file ∷ []) 1 (complaint ++ complaint) 0 2 two_missing
