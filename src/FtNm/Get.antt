-- ===== src/FtNm/Get.antt =====
-- get.c and helper_2.c: what is read from headers, and where it is found. `get_fd` is not here.
use nm.Common.{ℕ, ◌+◌, ◌-◌, ◌*◌, ◌^◌, Bool, not, Option, none, some, ltb, if◌then◌else◌}
use nm.Macho.{
  sizeof_mach_header, sizeof_mach_header_64, ncmds_offset, nsects_offset, sizeof_nlist,
  sizeof_nlist_64, fat_offset_offset,
}
use nm.Machine.{Ptr, Proc, ◌>>=◌, ◌>>◌, pure, ◌⊕◌, read32, read64, asks, when}
use nm.FtNm.SwapBytes.{swap_uint32, swap_uint64}
use nm.FtNm.SwapElements.{swap_mach_header}
use nm.FtNm.Safe.{is_lc_safe}

-- t_lc
pub record Lc : Type 0 where
  pub number_cmds : ℕ
  pub offset_cmds : ℕ

-- `none` is the -1.
unfoldable pub get_lc : Bool → Bool → Ptr → Proc (Option Lc)
get_lc is_64 should_swap p = do
  safe ← asks (is_lc_safe p is_64)
  if not safe then pure none else do
    when should_swap (swap_mach_header p)
    n ← read32 (p ⊕ ncmds_offset)
    pure (
        some (record {
          number_cmds = n;
          offset_cmds = if is_64 then sizeof_mach_header_64 else sizeof_mach_header;
        }))

unfoldable pub get_offsize_arch : Ptr → Bool → Bool → Proc ℕ
get_offsize_arch array swap_arch is_64_arch =
    if is_64_arch
    then (do
      offset ← read64 (array ⊕ fat_offset_offset)
      pure (if swap_arch then swap_uint64 offset else offset))
    else do
      offset ← read32 (array ⊕ fat_offset_offset)
      pure (if swap_arch then swap_uint32 offset else offset)

abbrev pub nlist_size : Bool → ℕ
nlist_size is_64 = if is_64 then sizeof_nlist_64 else sizeof_nlist

-- `p + s->symoff + i * size`, given the field `symoff`
unfoldable pub get_nlist : Ptr → ℕ → Bool → ℕ → Ptr
get_nlist p i is_64 symoff = p ⊕ symoff ⊕ i * nlist_size is_64

-- `int index = n_strx; name = stringtable + index;`: from 2 ^ 31 on the index is negative.
unfoldable pub get_symbol_name : Ptr → Ptr → Proc Ptr
get_symbol_name stringtable nlist = do
  strx ← read32 nlist
  pure (stringtable ⊕ (if ltb strx (2 ^ 31) then strx else strx + (2 ^ 64 - 2 ^ 32)))

-- `nsects` of a segment command
unfoldable pub get_add : Bool → Ptr → Proc ℕ
get_add is_64 lc = read32 (lc ⊕ nsects_offset is_64)
