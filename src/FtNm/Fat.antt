-- ===== src/FtNm/Fat.antt =====
-- handle_each_arch.c and handle_nm.c: the slices of a fat file, and the choice between them.
pub mod Choice
use nm.Common.{ℕ, zero, suc, ◌+◌, ◌*◌, Bool, true, false, not, List, [], ◌∷◌, if◌then◌else◌}
use nm.Macho.{sizeof_fat_header, nfat_arch_offset, sizeof_fat_arch, sizeof_fat_arch_64}
use nm.Machine.{Ptr, Proc, ◌>>=◌, pure, ◌⊕◌, read32, asks}
use nm.FtNm.SwapBytes.{swap_uint32}
use nm.FtNm.Magic.{
  HostArch, not_host, my_cpu_x86_64, my_cpu_i386, is_hostarch, not_valid_header, is_64_file,
  should_swap_file,
}
use nm.FtNm.Safe.{is_safe}
use nm.FtNm.Get.{get_offsize_arch}
use nm.FtNm.NotFat.{Symbol, handle_not_fat}

-- t_fat
pub record Fat : Type 0 where
  pub should_swap : Bool
  pub is_64 : Bool
  pub found_64 : Bool

abbrev pub is_x86_64 : HostArch → Bool
is_x86_64 my_cpu_x86_64 = true
is_x86_64 my_cpu_i386 = false
is_x86_64 not_host = false

abbrev pub is_i386 : HostArch → Bool
is_i386 my_cpu_x86_64 = false
is_i386 my_cpu_i386 = true
is_i386 not_host = false

abbrev pub is_host : HostArch → Bool
is_host my_cpu_x86_64 = true
is_host my_cpu_i386 = true
is_host not_host = false

-- The guards of `handle_each_arch` on the slice's architecture: `none` to go on.
unfoldable pub skips_arch : (found_64 : Bool) → HostArch → Bool
skips_arch found_64 not_host = true
skips_arch found_64 my_cpu_i386 = found_64
skips_arch found_64 my_cpu_x86_64 = false

-- The callee may set `fat->found_64`, so the new `fat` is a result.
unfoldable pub handle_each_arch : (array p : Ptr) → Fat → Proc (List Symbol × Fat)
handle_each_arch array p fat = do
  safe ← asks (is_safe array)
  if not safe then pure ([], fat) else do
    arch ← is_hostarch array fat.should_swap
    if skips_arch fat.found_64 arch then pure ([], fat) else do
      offset ← get_offsize_arch array fat.should_swap fat.is_64
      magic ← read32 (p ⊕ offset)
      if not_valid_header magic then pure ([], fat) else do
        list ← handle_not_fat (is_64_file magic) (should_swap_file magic) (p ⊕ offset)
        pure (list, record fat { found_64 = if is_x86_64 arch then true else fat.found_64 })

-- `ptr + i * size + sizeof(struct fat_header)`
abbrev pub arch_address : (is_64 : Bool) → Ptr → ℕ → Ptr
arch_address is_64 p i =
    p ⊕ i * (if is_64 then sizeof_fat_arch_64 else sizeof_fat_arch) ⊕ sizeof_fat_header

-- The loop of `init_t_fat`, with the slices that are left: whether one is for x86_64.
unfoldable pub found_64_loop : (is_64 should_swap : Bool) → Ptr → ℕ → ℕ → Proc Bool
found_64_loop is_64 should_swap p i zero = pure false
found_64_loop is_64 should_swap p i (suc left) = do
  arch ← is_hostarch (arch_address is_64 p i) should_swap
  if is_x86_64 arch then pure true else found_64_loop is_64 should_swap p (i + 1) left

unfoldable pub get_nfat_arch : (should_swap : Bool) → Ptr → Proc ℕ
get_nfat_arch should_swap p = do
  n ← read32 (p ⊕ nfat_arch_offset)
  pure (if should_swap then swap_uint32 n else n)

unfoldable pub init_t_fat : (is_64 should_swap : Bool) → Ptr → Proc Fat
init_t_fat is_64 should_swap p = do
  nb ← get_nfat_arch should_swap p
  found ← found_64_loop is_64 should_swap p 0 nb
  pure (record { should_swap = should_swap; is_64 = is_64; found_64 = found })

-- The loop of `handle_fat`, with the slices that are left: the first list that is not empty.
unfoldable pub slice_loop : (is_64 : Bool) → Ptr → Fat → ℕ → ℕ → Proc (List Symbol)
slice_loop is_64 p fat i zero = pure []
slice_loop is_64 p fat i (suc left) = do
  (list, fat') ← handle_each_arch (arch_address is_64 p i) p fat
  elim list [ [] ↦ slice_loop is_64 p fat' (i + 1) left | x ∷ xs ↦ pure (x ∷ xs) ]

unfoldable pub handle_fat : (is_64 should_swap : Bool) → Ptr → Proc (List Symbol)
handle_fat is_64 should_swap p = do
  safe ← asks (is_safe (p ⊕ sizeof_fat_header))
  if not safe then pure [] else do
    nb ← get_nfat_arch should_swap p
    fat ← init_t_fat is_64 should_swap p
    slice_loop is_64 p fat 0 nb

unfoldable pub handle_nm : (is_fat is_64 should_swap : Bool) → Ptr → Proc (List Symbol)
handle_nm is_fat is_64 should_swap p =
    if is_fat then handle_fat is_64 should_swap p else handle_not_fat is_64 should_swap p
