-- ===== src/FtNm/Main.antt =====
-- main.c, `get_fd` of get.c and `put_usage` of set_flag.c: the program, over the operating system. The
-- strings of `av` are given without their NUL.
pub mod Exit
pub mod Statuses
use nm.Common.{
  ℕ, ◌-◌, ◌%◌, ◌^◌, Bool, true, false, Option, none, some, List, [], ◌∷◌, ◌++◌, drop, bit_or,
  if◌then◌else◌,
}
use nm.Machine.{Machine, Ptr}
use nm.System.{
  Os, Stat, descriptor, access_denied, open_failed, Task, standard_error, ◌>>=◌, ◌>>◌, pure, ask,
  within, write_error,
}
use nm.FtOtool.Dump.{Status, success, failure}
use nm.FtNm.Flags.{parsed, usage, overrun, set_flags_nm}
use nm.FtNm.Report.{put_error, put_error_with_return, return_error}
use nm.FtNm.Nm.{nm_file}

abbrev pub denied_message : List ℕ
denied_message =
    b':' ∷ b' ' ∷ b'P' ∷ b'e' ∷ b'r' ∷ b'm' ∷ b'i' ∷ b's' ∷ b's' ∷ b'i' ∷ b'o' ∷ b'n' ∷ b' ' ∷ b'd'
    ∷ b'e' ∷ b'n' ∷ b'i' ∷ b'e' ∷ b'd' ∷ b'.' ∷ 10 ∷ 0 ∷ []

abbrev pub no_file_message : List ℕ
no_file_message =
    b':' ∷ b' ' ∷ b'N' ∷ b'o' ∷ b' ' ∷ b's' ∷ b'u' ∷ b'c' ∷ b'h' ∷ b' ' ∷ b'f' ∷ b'i' ∷ b'l' ∷ b'e'
    ∷ b' ' ∷ b'o' ∷ b'r' ∷ b' ' ∷ b'd' ∷ b'i' ∷ b'r' ∷ b'e' ∷ b'c' ∷ b't' ∷ b'o' ∷ b'r' ∷ b'y'
    ∷ b'.' ∷ 10 ∷ 0 ∷ []

abbrev pub directory_message : List ℕ
directory_message =
    b':' ∷ b' ' ∷ b'I' ∷ b's' ∷ b' ' ∷ b'a' ∷ b' ' ∷ b'd' ∷ b'i' ∷ b'r' ∷ b'e' ∷ b'c' ∷ b'r' ∷ b'o'
    ∷ b'r' ∷ b'y' ∷ b'.' ∷ 10 ∷ 0 ∷ []

abbrev pub fstat_message : List ℕ
fstat_message = b'f' ∷ b's' ∷ b't' ∷ b'a' ∷ b't' ∷ 0 ∷ []

abbrev pub mmap_message : List ℕ
mmap_message = b'm' ∷ b'm' ∷ b'a' ∷ b'p' ∷ 0 ∷ []

abbrev pub munmap_message : List ℕ
munmap_message = b'm' ∷ b'u' ∷ b'n' ∷ b'm' ∷ b'a' ∷ b'p' ∷ 0 ∷ []

abbrev pub default_name : List ℕ
default_name = b'a' ∷ b'.' ∷ b'o' ∷ b'u' ∷ b't' ∷ 0 ∷ []

abbrev pub illegal_option_message : List ℕ
illegal_option_message =
    b'f' ∷ b't' ∷ b'_' ∷ b'n' ∷ b'm' ∷ b':' ∷ b' ' ∷ b'i' ∷ b'l' ∷ b'l' ∷ b'e' ∷ b'g' ∷ b'a' ∷ b'l'
    ∷ b' ' ∷ b'o' ∷ b'p' ∷ b't' ∷ b'i' ∷ b'o' ∷ b'n' ∷ b' ' ∷ b'-' ∷ b'-' ∷ b' ' ∷ 0 ∷ []

abbrev pub usage_message : List ℕ
usage_message =
    b'u' ∷ b's' ∷ b'a' ∷ b'g' ∷ b'e' ∷ b':' ∷ b' ' ∷ b'f' ∷ b't' ∷ b'_' ∷ b'n' ∷ b'm' ∷ b' ' ∷ b'['
    ∷ b'-' ∷ b'g' ∷ b'p' ∷ b'r' ∷ b'u' ∷ b'U' ∷ b'j' ∷ b']' ∷ b' ' ∷ b'[' ∷ b'f' ∷ b'i' ∷ b'l'
    ∷ b'e' ∷ b' ' ∷ b'.' ∷ b'.' ∷ b'.' ∷ b']' ∷ 10 ∷ 0 ∷ []

-- What `mmap` gives, with the globals that `handle_each_arg` sets.
abbrev pub mapping : Ptr → List ℕ → (size : ℕ) → Machine
mapping p bytes size = record { g_begin = p; g_map_size = size % 2 ^ 32; bytes = bytes }

module _ (os : Os) where
  -- `none` is -1. A directory is reported, and its descriptor is returned all the same.
  unfoldable pub get_fd : (name : List ℕ) → Task os.State (Option ℕ)
  get_fd name = do
    opened ← ask (λ s. os.open_file s name)
    elim opened [
      | access_denied ↦ do put_error name denied_message; pure none
      | open_failed ↦ do put_error name no_file_message; pure none
      | descriptor fd ↦ do
        buf ← ask (λ s. os.fstat s fd)
        elim buf [
          | none ↦ do ask (λ s. (tt, os.close s fd)); pure none
          | some stat ↦ do
            if stat.is_dir
                then (do put_error_with_return name directory_message; pure tt)
                else pure tt
            pure (some fd)
        ]
    ]

  -- The parts of `handle_each_arg`, from the last to the first: behind the call of `nm`, of `mmap`, of
  -- `fstat` and of `get_fd`.
  unfoldable pub handle_listed : Ptr → (size : ℕ) → Status → Task os.State ℕ
  handle_listed p size failure = pure 1
  handle_listed p size success = do
    unmapped ← ask (λ s. os.munmap s p size)
    if unmapped then pure 0 else return_error munmap_message

  unfoldable pub handle_mapped :
      (av : List ℕ) (multi first : Bool) (flags : List ℕ) (size : ℕ)
      → Option (Ptr × List ℕ)
      → Task os.State ℕ
  handle_mapped av multi first flags size none = return_error mmap_message
  handle_mapped av multi first flags size (some (p, bytes)) = do
    status ← within (mapping p bytes size) (nm_file p av multi first flags)
    handle_listed p size status

  unfoldable pub handle_sized :
      (av : List ℕ) (multi first : Bool) (flags : List ℕ) (fd : ℕ) → Option Stat → Task os.State ℕ
  handle_sized av multi first flags fd none = return_error fstat_message
  handle_sized av multi first flags fd (some stat) = do
    mapped ← ask (λ s. os.mmap s stat.st_size fd)
    handle_mapped av multi first flags stat.st_size mapped

  unfoldable pub handle_opened :
      (av : List ℕ) (multi first : Bool) (flags : List ℕ) → Option ℕ → Task os.State ℕ
  handle_opened av multi first flags none = pure 1
  handle_opened av multi first flags (some fd) = do
    buf ← ask (λ s. os.fstat s fd)
    handle_sized av multi first flags fd buf

  unfoldable pub handle_each_arg :
      (av : List ℕ) → (multi first : Bool) → (flags : List ℕ) → Task os.State ℕ
  handle_each_arg av multi first flags = do
    opened ← get_fd av
    handle_opened av multi first flags opened

  -- The arguments that are left: at most one.
  unfoldable pub one_arg : List (List ℕ) → (flags : List ℕ) → Task os.State ℕ
  one_arg [] flags = handle_each_arg default_name false true flags
  one_arg (av ∷ more) flags = handle_each_arg (av ++ (0 ∷ [])) false true flags

  -- The loop of `multi_args`; `first` is `!i`.
  unfoldable pub args_loop :
      List (List ℕ) → (first : Bool) → (flags : List ℕ) → (res : ℕ) → Task os.State ℕ
  args_loop [] first flags res = pure res
  args_loop (av ∷ more) first flags res = do
    one ← handle_each_arg (av ++ (0 ∷ [])) true first flags
    args_loop more false flags (bit_or res one)

  unfoldable pub multi_args : List (List ℕ) → (flags : List ℕ) → Task os.State ℕ
  multi_args av flags = args_loop av true flags 0

  -- The four calls of `write` in `put_usage`, at the char `c`.
  unfoldable pub put_usage : (c : ℕ) → Task os.State (Unit {0})
  put_usage c = do
    write_error illegal_option_message
    (λ s. some (tt, standard_error (c ∷ []) ∷ standard_error (10 ∷ []) ∷ [], s))
    write_error usage_message

  abbrev pub few : List (List ℕ) → Bool
  few [] = true
  few (av ∷ []) = true
  few (av ∷ other ∷ more) = false

  -- `av` without the name of the program, which the count of `set_flags_nm` includes.
  unfoldable pub main : (av : List (List ℕ)) → Task os.State ℕ
  main av = elim (set_flags_nm av) [
    | overrun ↦ λ s. none
    | usage c ↦ do put_usage c; pure 1
    | parsed (f, forward) ↦
        let files = drop (forward - 1) av in
        if few files then one_arg files f.flags else multi_args files f.flags
  ]
