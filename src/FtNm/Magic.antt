-- ===== src/FtNm/Magic.antt =====
-- question.c, and the tests of is_safe.c on the magic number: what kind of file it is.
-- `should_swap_arch` and `should_swap_file` stand in nm.c and in handle_each_arch.c alike.
pub mod Laws
use nm.Common.{ℕ, Bool, not, ◌&&◌, ◌||◌, ◌==◌, if◌then◌else◌}
use nm.Macho.{
  mh_magic, mh_cigam, mh_magic_64, mh_cigam_64, fat_magic, fat_cigam, fat_magic_64, fat_cigam_64,
  cpu_type_i386, cpu_type_x86_64,
}
use nm.Machine.{Ptr, Proc, ◌>>=◌, pure, read32}
use nm.FtNm.SwapBytes.{swap_uint32}

unfoldable pub is_fat_file : ℕ → Bool
is_fat_file magic =
    magic == fat_cigam || magic == fat_magic || magic == fat_cigam_64 || magic == fat_magic_64

unfoldable pub is_64_arch : ℕ → Bool
is_64_arch magic = magic == fat_cigam_64 || magic == fat_magic_64

unfoldable pub is_64_file : ℕ → Bool
is_64_file magic =
    if is_fat_file magic then is_64_arch magic else magic == mh_cigam_64 || magic == mh_magic_64

unfoldable pub should_swap_arch : ℕ → Bool
should_swap_arch magic = magic == fat_cigam || magic == fat_cigam_64

unfoldable pub should_swap_file : ℕ → Bool
should_swap_file magic =
    if is_fat_file magic then should_swap_arch magic else magic == mh_cigam || magic == mh_cigam_64

infix 50 ◌!=◌
abbrev pub ◌!=◌ : ℕ → ℕ → Bool
a != b = not (a == b)

unfoldable pub not_valid_header : ℕ → Bool
not_valid_header magic =
    magic != mh_cigam_64
    && magic != mh_cigam
    && magic != mh_magic_64
    && magic != mh_cigam_64
    && magic != mh_magic
    && magic != mh_cigam

unfoldable pub not_valid_file : ℕ → Bool
not_valid_file magic =
    magic != fat_magic
    && magic != fat_magic_64
    && magic != fat_cigam
    && magic != fat_cigam_64
    && magic != mh_cigam_64
    && magic != mh_cigam
    && magic != mh_magic_64
    && magic != mh_cigam_64
    && magic != mh_magic
    && magic != mh_cigam

-- The answers 0, MY_CPU_X86_64 and MY_CPU_I386 of `is_hostarch`.
pub data HostArch : Type 0 where
  not_host my_cpu_x86_64 my_cpu_i386 : HostArch

unfoldable pub host_arch_of : ℕ → HostArch
host_arch_of type =
    if type == cpu_type_x86_64
    then my_cpu_x86_64
    else if type == cpu_type_i386
    then my_cpu_i386
    else not_host

unfoldable pub is_hostarch : Ptr → Bool → Proc HostArch
is_hostarch array swap_arch = do
  type ← read32 array
  pure (host_arch_of (if swap_arch then swap_uint32 type else type))
