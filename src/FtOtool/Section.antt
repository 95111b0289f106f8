-- ===== src/FtOtool/Section.antt =====
-- helper.c, handle_not_fat.c and handle_otool.c: the section __text of an object, and the slices of a
-- fat file.
pub mod Search
pub mod Commands
pub mod Object
use nm.Common.{
  ℕ, zero, suc, ◌+◌, ◌*◌, ◌%◌, ◌^◌, Bool, true, not, ◌||◌, Option, none, some, List, [], ◌∷◌, ◌++◌,
  ◌==◌, if◌then◌else◌,
}
use nm.Macho.{
  section_size_offset, section_offset_offset, lc_segment, lc_segment_64, cmdsize_offset, sect_text,
  seg_text, sizeof_fat_header,
}
use nm.Machine.{Ptr, Proc, ◌>>=◌, ◌>>◌, pure, ◌⊕◌, asks, when, read32, read_word}
use nm.FtNm.Safe.{is_safe, is_segmant_safe}
use nm.FtNm.Magic.{is_hostarch, not_valid_header, is_64_file, should_swap_file}
use nm.FtNm.SwapElements.{swap_loadcommand, swap_segment_command, swap_section}
use nm.FtNm.SymbolLetter.{section_size, segment_size, is_section_named}
use nm.FtNm.Get.{Lc, get_lc, get_add, get_offsize_arch}
use nm.FtNm.Fat.{Fat, is_x86_64, skips_arch, arch_address, get_nfat_arch, init_t_fat}
use nm.FtOtool.Dump.{Status, success, failure, Call, put_heading, dump_section}

-- The loop of `text_in_seg` at section `i`, with the sections that are left. `none` is NULL; the
-- product is one of unsigned ints.
unfoldable pub text_loop : Ptr → (is_64 : Bool) → (i : ℕ) → ℕ → Proc (Option Ptr)
text_loop lc is_64 i zero = pure none
text_loop lc is_64 i (suc left) = do
  safe ← asks (is_safe (lc ⊕ segment_size is_64 ⊕ (i * section_size is_64) % 2 ^ 32))
  if not safe then pure none else do
    text ←
        is_section_named (lc ⊕ segment_size is_64 ⊕ (i * section_size is_64) % 2 ^ 32) sect_text
          seg_text
    if text
        then pure (some (lc ⊕ segment_size is_64 ⊕ (i * section_size is_64) % 2 ^ 32))
        else text_loop lc is_64 (i + 1) left

unfoldable pub text_in_seg : Ptr → Bool → Proc (Option Ptr)
text_in_seg lc is_64 = do nb ← get_add is_64 lc; text_loop lc is_64 0 nb

-- The loop of `get_text_section`, with the commands that are left.
unfoldable pub segment_loop : (should_swap is_64 : Bool) → ℕ → Ptr → Proc (Option Ptr)
segment_loop should_swap is_64 zero lc = pure none
segment_loop should_swap is_64 (suc left) lc = do
  safe ← asks (is_safe lc)
  if not safe then pure none else do
    when should_swap (swap_loadcommand lc)
    cmd ← read32 lc
    if cmd == lc_segment || cmd == lc_segment_64
        then (do
          whole ← asks (is_segmant_safe lc is_64)
          if not whole then pure none else do
            when should_swap (swap_segment_command lc is_64)
            res ← text_in_seg lc is_64
            elim res [
              | some text ↦ pure (some text)
              | none ↦ do
                size ← read32 (lc ⊕ cmdsize_offset)
                segment_loop should_swap is_64 left (lc ⊕ size)
            ])
        else do size ← read32 (lc ⊕ cmdsize_offset); segment_loop should_swap is_64 left (lc ⊕ size)

unfoldable pub get_text_section : Lc → Ptr → (should_swap is_64 : Bool) → Proc (Option Ptr)
get_text_section lc_info p should_swap is_64 =
    segment_loop should_swap is_64 lc_info.number_cmds (p ⊕ lc_info.offset_cmds)

-- NULL is the address 0.
abbrev pub address_of : Option Ptr → Ptr
address_of none = 0
address_of (some p) = p

-- The result of `dump_section` is not looked at.
unfoldable pub put_text_section :
    (sec : Ptr) → (should_swap is_64 : Bool) → Ptr → Proc (Status × List Call)
put_text_section sec should_swap is_64 p = do
  safe ← asks (is_safe (sec ⊕ section_size is_64))
  if not safe then pure (failure, []) else do
    when should_swap (swap_section sec is_64)
    size ← read_word is_64 (sec ⊕ section_size_offset is_64)
    offset ← read32 (sec ⊕ section_offset_offset is_64)
    (status, lines) ← dump_section (sec ⊕ 32) is_64 size offset p
    pure (success, put_heading ∷ lines)

unfoldable pub handle_not_fat : (is_64 should_swap : Bool) → Ptr → Proc (Status × List Call)
handle_not_fat is_64 should_swap p = do
  safe ← asks (is_safe p)
  if not safe then pure (failure, []) else do
    info ← get_lc is_64 should_swap p
    elim info [
      | none ↦ pure (failure, [])
      | some lc_info ↦ do
        section ← get_text_section lc_info p should_swap is_64
        (status, calls) ← put_text_section (address_of section) should_swap is_64 p
        pure (success, calls)
    ]

unfoldable pub handle_each_arch : (array p : Ptr) → Fat → Proc ((Status × List Call) × Fat)
handle_each_arch array p fat = do
  safe ← asks (is_safe array)
  if not safe then pure ((failure, []), fat) else do
    arch ← is_hostarch array fat.should_swap
    if skips_arch fat.found_64 arch then pure ((failure, []), fat) else do
      offset ← get_offsize_arch array fat.should_swap fat.is_64
      magic ← read32 (p ⊕ offset)
      if not_valid_header magic then pure ((failure, []), fat) else do
        dumped ← handle_not_fat (is_64_file magic) (should_swap_file magic) (p ⊕ offset)
        pure (dumped, record fat { found_64 = if is_x86_64 arch then true else fat.found_64 })

-- The loop of `handle_fat`, with the slices that are left: all of them, whatever their status.
unfoldable pub arch_loop : (is_64 : Bool) → Ptr → Fat → ℕ → ℕ → Proc (List Call)
arch_loop is_64 p fat i zero = pure []
arch_loop is_64 p fat i (suc left) = do
  ((status, calls), fat') ← handle_each_arch (arch_address is_64 p i) p fat
  rest ← arch_loop is_64 p fat' (i + 1) left
  pure (calls ++ rest)

unfoldable pub handle_fat : (is_64 should_swap : Bool) → Ptr → Proc (Status × List Call)
handle_fat is_64 should_swap p = do
  safe ← asks (is_safe (p ⊕ sizeof_fat_header))
  if not safe then pure (failure, []) else do
    nb ← get_nfat_arch should_swap p
    fat ← init_t_fat is_64 should_swap p
    calls ← arch_loop is_64 p fat 0 nb
    pure (success, calls)

unfoldable pub handle_otool : (is_fat is_64 should_swap : Bool) → Ptr → Proc (Status × List Call)
handle_otool is_fat is_64 should_swap p =
    if is_fat then handle_fat is_64 should_swap p else handle_not_fat is_64 should_swap p
