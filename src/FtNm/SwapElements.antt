-- ===== src/FtNm/SwapElements.antt =====
-- swap_elements.c and swap_elements_2.c: the byte order of the structures of a file, in place.
pub mod Fields
use nm.Common.{ℕ, zero, suc, ◌+◌, ◌*◌, Bool, if◌then◌else◌}
use nm.Macho.{sizeof_vm_prot}
use nm.Machine.{Ptr, Proc, ◌>>◌, pure, ◌⊕◌}
use nm.FtNm.SwapBytes.{swap_endiane, swap_32, swap_64}

-- `while (++i < nb) swap_32(ptr + i * 4);`, with the rounds that are left
unfoldable pub swap_nb_loop : Ptr → ℕ → ℕ → Proc (Unit {0})
swap_nb_loop p i zero = pure tt
swap_nb_loop p i (suc left) = do swap_32 (p ⊕ i * 4); swap_nb_loop p (i + 1) left

unfoldable pub swap_nb_32 : Ptr → ℕ → Proc (Unit {0})
swap_nb_32 p nb = swap_nb_loop p 0 nb

unfoldable pub swap_mach_header : Ptr → Proc (Unit {0})
swap_mach_header p = swap_32 (p ⊕ 16)

unfoldable pub swap_loadcommand : Ptr → Proc (Unit {0})
swap_loadcommand p = swap_nb_32 p 2

unfoldable pub swap_symtab : Ptr → Proc (Unit {0})
swap_symtab p = swap_nb_32 (p ⊕ 8) 4

unfoldable pub swap_nlist : Ptr → Bool → Proc (Unit {0})
swap_nlist p is_64 = do
  swap_nb_32 p 1
  swap_endiane (p ⊕ 5) 2
  if is_64 then swap_64 (p ⊕ 7) else swap_nb_32 (p ⊕ 7) 1

unfoldable pub swap_segment_command : Ptr → Bool → Proc (Unit {0})
swap_segment_command p is_64 =
    if is_64
    then swap_nb_32 (p ⊕ (42 + 2 * sizeof_vm_prot)) 1
    else swap_nb_32 (p ⊕ (26 + 2 * sizeof_vm_prot)) 1

unfoldable pub swap_arch : Ptr → Bool → Proc (Unit {0})
swap_arch p is_64 = if is_64 then (do swap_64 (p ⊕ 8); swap_64 (p ⊕ 16)) else swap_nb_32 (p ⊕ 8) 2

unfoldable pub swap_section : Ptr → Bool → Proc (Unit {0})
swap_section p is_64 =
    if is_64 then (do swap_64 (p ⊕ 4); swap_64 (p ⊕ 12); swap_32 (p ⊕ 20)) else swap_nb_32 (p ⊕ 4) 3
