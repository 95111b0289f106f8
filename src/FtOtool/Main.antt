-- ===== src/FtOtool/Main.antt =====
-- main.c and get.c: the program, over the operating system. The strings of `av` are given without
-- their NUL.
pub mod Printed
use nm.Common.{ℕ, not, Option, none, some, List, [], ◌∷◌, ◌++◌, bit_or, if◌then◌else◌}
use nm.Machine.{Machine, Ptr, ◌⊕◌, read32}
use nm.Printf.Monad.{text}
use nm.Printf.Format.{ft_printf}
use nm.System.{
  Os, descriptor, access_denied, open_failed, Task, standard_output, standard_error, ◌>>=◌, ◌>>◌,
  pure, ask, working, attempt, print, within, write_error,
}
use nm.FtNm.Safe.{is_safe}
use nm.FtNm.Magic.{is_fat_file, is_64_file, should_swap_file, not_valid_file}
use nm.FtNm.Report.{put_error, return_error}
use nm.Printf.Format.Text.{name_format}
use nm.FtNm.Main.{
  mapping, denied_message, no_file_message, directory_message, fstat_message, mmap_message,
  munmap_message,
}
use nm.FtOtool.Dump.{Status, success, failure}
use nm.FtOtool.Section.{handle_otool}
use nm.FtOtool.Perform.{perform_all}

abbrev pub no_object_message : List ℕ
no_object_message =
    b':' ∷ b' ' ∷ b'i' ∷ b's' ∷ b' ' ∷ b'n' ∷ b'o' ∷ b't' ∷ b' ' ∷ b'a' ∷ b'n' ∷ b' ' ∷ b'o' ∷ b'b'
    ∷ b'j' ∷ b'e' ∷ b'c' ∷ b't' ∷ b' ' ∷ b'f' ∷ b'i' ∷ b'l' ∷ b'e' ∷ 10 ∷ 0 ∷ []

abbrev pub no_argument_message : List ℕ
no_argument_message =
    b'f' ∷ b't' ∷ b'_' ∷ b'o' ∷ b't' ∷ b'o' ∷ b'o' ∷ b'l' ∷ b':' ∷ b' ' ∷ b'A' ∷ b't' ∷ b' ' ∷ b'l'
    ∷ b'e' ∷ b'a' ∷ b's' ∷ b't' ∷ b' ' ∷ b'o' ∷ b'n' ∷ b'e' ∷ b' ' ∷ b'f' ∷ b'i' ∷ b'l' ∷ b'e'
    ∷ b' ' ∷ b'm' ∷ b'u' ∷ b's' ∷ b't' ∷ b' ' ∷ b'b' ∷ b'e' ∷ b' ' ∷ b's' ∷ b'p' ∷ b'e' ∷ b'c'
    ∷ b'i' ∷ b'f' ∷ b'i' ∷ b'e' ∷ b'd' ∷ b'.' ∷ 10 ∷ 0 ∷ []

-- `write(2, "mmap", 5)`: the NUL is written too.
abbrev pub report_mmap : {S : Type 0} → Task S (Unit {0})
report_mmap s = some (tt, standard_error (b'm' ∷ b'm' ∷ b'a' ∷ b'p' ∷ 0 ∷ []) ∷ [], s)

-- The calls that print are carried out behind `handle_otool`, in their order.
unfoldable pub otool : Ptr → (name : List ℕ) → Task Machine Status
otool p name = do
  safe ← ask (λ m. (is_safe (p ⊕ 32) m, m))
  if not safe then (do put_error name no_object_message; pure failure) else do
    magic_number ← working (read32 p)
    if not_valid_file magic_number then (do put_error name no_object_message; pure failure) else do
      print (ft_printf name_format (text (some name) ∷ []))
      (status, calls) ← working (
          handle_otool (is_fat_file magic_number) (is_64_file magic_number)
            (should_swap_file magic_number) p)
      out ← attempt (perform_all calls)
      (λ m. some (status, standard_output out ∷ [], m))

module _ (os : Os) where
  -- `none` is -1, also for a directory.
  unfoldable pub get_fd : (name : List ℕ) → Task os.State (Option ℕ)
  get_fd name = do
    opened ← ask (λ s. os.open_file s name)
    elim opened [
      | access_denied ↦ do put_error name denied_message; pure none
      | open_failed ↦ do put_error name no_file_message; pure none
      | descriptor fd ↦ do
        buf ← ask (λ s. os.fstat s fd)
        elim buf [
          | none ↦ do ask (λ s. (tt, os.close s fd)); pure none
          | some stat ↦
              if stat.is_dir
              then (do put_error name directory_message; pure none)
              else pure (some fd)
        ]
    ]

  -- The rest of `handle_each_arg`, with the mapping of `size` bytes at `p`.
  unfoldable pub handle_mapped : (av : List ℕ) → (size : ℕ) → Ptr → List ℕ → Task os.State ℕ
  handle_mapped av size p bytes = do
    status ← within (mapping p bytes size) (otool p av)
    elim status [
      | failure ↦ pure 1
      | success ↦ do
        unmapped ← ask (λ s. os.munmap s p size)
        if unmapped then pure 0 else return_error munmap_message
    ]

  unfoldable pub handle_each_arg : (av : List ℕ) → Task os.State ℕ
  handle_each_arg av = do
    opened ← get_fd av
    elim opened [
      | none ↦ pure 1
      | some fd ↦ do
        buf ← ask (λ s. os.fstat s fd)
        elim buf [
          | none ↦ return_error fstat_message
          | some stat ↦ do
            mapped ← ask (λ s. os.mmap s stat.st_size fd)
            elim mapped [
              | none ↦ do report_mmap; pure 1
              | some (p, bytes) ↦ handle_mapped av stat.st_size p bytes
            ]
        ]
    ]

  -- The loop of `handle_args`.
  unfoldable pub args_loop : List (List ℕ) → (res : ℕ) → Task os.State ℕ
  args_loop [] res = pure res
  args_loop (av ∷ more) res = do
    one ← handle_each_arg (av ++ (0 ∷ []))
    args_loop more (bit_or res one)

  unfoldable pub handle_args : List (List ℕ) → Task os.State ℕ
  handle_args [] = do write_error no_argument_message; args_loop [] 0
  handle_args (av ∷ more) = args_loop (av ∷ more) 0

  -- `av` without the name of the program
  unfoldable pub main : (av : List (List ℕ)) → Task os.State ℕ
  main av = handle_args av
