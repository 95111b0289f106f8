-- ===== src/FtNm/Safe.antt =====
-- is_safe.c: the tests of pointers against the bounds of the file.
pub mod Bounds
use nm.Common.{ℕ, ◌+◌, ◌-◌, ◌%◌, ◌^◌, Bool, ◌&&◌, ltb, leb, if◌then◌else◌}
use nm.Macho.{
  sizeof_mach_header, sizeof_mach_header_64, sizeof_segment_command, sizeof_segment_command_64,
}
use nm.Machine.{Machine, Ptr, ◌⊕◌}

-- `ptr - g_begin`, a signed number of 64 bits: negative from 2 ^ 63 on
abbrev pub distance : Machine → Ptr → ℕ
distance m p = (p + 2 ^ 64 - m.g_begin) % 2 ^ 64

unfoldable pub is_safe : Ptr → Machine → Bool
is_safe p m = ltb (distance m p) (2 ^ 63) && leb (distance m p) m.g_map_size

-- The two sizes stand the wrong way round in the source.
unfoldable pub is_lc_safe : Ptr → Bool → Machine → Bool
is_lc_safe p is_64 m = is_safe (p ⊕ (if is_64 then sizeof_mach_header else sizeof_mach_header_64)) m

unfoldable pub is_segmant_safe : Ptr → Bool → Machine → Bool
is_segmant_safe p is_64 m =
    if is_64
    then is_safe (p ⊕ sizeof_segment_command_64) m
    else is_safe (p ⊕ sizeof_segment_command) m
