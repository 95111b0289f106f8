-- ===== src/FtNm/SymbolLetter.antt =====
-- get_symbol_letter.c, with `init_helper` of helper.c: the letter that is shown for a symbol.
pub mod Classes
use mathlib.Core.Option
use nm.Common.{
  ℕ, zero, suc, ◌+◌, ◌-◌, ◌*◌, ◌%◌, ◌^◌, Bool, false, not, ◌&&◌, ◌||◌, Option, none, some, List,
  leb, ◌==◌, if◌then◌else◌, bit_and,
}
use nm.Common.Int.{is_zero}
use nm.Macho.{
  sizeof_segment_command, sizeof_segment_command_64, sizeof_section, sizeof_section_64, lc_segment,
  lc_segment_64, cmdsize_offset, n_type_offset, n_sect_offset, n_desc_offset, n_value_offset,
  n_stab, n_type_mask, n_ext, n_undf, n_abs, n_sect, n_pbud, n_indr, n_weak_ref, sect_text,
  seg_text, sect_data, seg_data, sect_bss, segname_offset,
}
use nm.Machine.{
  Ptr, Proc, ◌>>=◌, ◌>>◌, pure, ◌⊕◌, look, asks, when, string_at, read8, read16, read32, read_word,
}
use nm.Libft.Strings.{ft_strcmp}
use nm.FtNm.SwapElements.{swap_segment_command, swap_section}
use nm.FtNm.Safe.{is_safe, is_segmant_safe}
use nm.FtNm.Get.{get_lc, get_add}

-- `sec` and `seg` of t_helper, as `init_helper` sets them
abbrev pub section_size : Bool → ℕ
section_size is_64 = if is_64 then sizeof_section_64 else sizeof_section

abbrev pub segment_size : Bool → ℕ
segment_size is_64 = if is_64 then sizeof_segment_command_64 else sizeof_segment_command

-- `(char *)lc + h.seg + (i - h.count - 1) * h.sec`: the product is one of unsigned ints.
unfoldable pub section_address : Bool → Ptr → (i count : ℕ) → Ptr
section_address is_64 lc i count =
    lc ⊕ segment_size is_64 ⊕ ((i + 2 ^ 32 - count + (2 ^ 32 - 1)) * section_size is_64) % 2 ^ 32

-- The loop of `get_section`, with the commands that are left. `none` is NULL.
unfoldable pub section_loop : Bool → Bool → (i : ℕ) → ℕ → Ptr → (count : ℕ) → Proc (Option Ptr)
section_loop s is_64 i zero lc count = pure none
section_loop s is_64 i (suc left) lc count = do
  safe ← asks (is_safe lc)
  if not safe then pure none else do
    cmd ← read32 lc
    if cmd == lc_segment || cmd == lc_segment_64
        then (do
          whole ← asks (is_segmant_safe lc is_64)
          if not whole then pure none else do
            when s (swap_segment_command lc is_64)
            add ← get_add is_64 lc
            if leb i ((count + add) % 2 ^ 32)
                then pure (some (section_address is_64 lc i count))
                else do
                  size ← read32 (lc ⊕ cmdsize_offset)
                  section_loop s is_64 i left (lc ⊕ size) ((count + add) % 2 ^ 32))
        else do size ← read32 (lc ⊕ cmdsize_offset); section_loop s is_64 i left (lc ⊕ size) count

-- The header has its byte order already, so it is not swapped again.
unfoldable pub get_section : Ptr → Bool → Bool → ℕ → Proc (Option Ptr)
get_section p s is_64 i = do
  info ← get_lc is_64 false p
  elim info [
    | none ↦ pure none
    | some lc ↦ section_loop s is_64 i lc.number_cmds (p ⊕ lc.offset_cmds) 0
  ]

-- `!ft_strcmp(p, s)`, for a pointer into the mapping and a literal
unfoldable pub same_name : Ptr → List ℕ → Proc Bool
same_name p s = look (λ m. Option.map is_zero (ft_strcmp (string_at m p) s))

-- `!ft_strcmp(sec_name, sect) && !ft_strcmp(seg_name, seg)`
unfoldable pub is_section_named : Ptr → (sect seg : List ℕ) → Proc Bool
is_section_named p sect seg = do
  sect_same ← same_name p sect
  if sect_same then same_name (p ⊕ segname_offset) seg else pure false

unfoldable pub section_letter : Ptr → Proc ℕ
section_letter p = do
  text ← is_section_named p sect_text seg_text
  if text then pure b't' else do
    in_data ← is_section_named p sect_data seg_data
    if in_data
        then pure b'd'
        else do bss ← is_section_named p sect_bss seg_data; pure (if bss then b'b' else b's')

unfoldable pub symbol : Ptr → Ptr → Bool → Bool → Proc ℕ
symbol p a should_swap is_64 = do
  index ← read8 (a ⊕ n_sect_offset)
  found ← get_section p should_swap is_64 index
  elim found [
    | none ↦ pure b's'
    | some section ↦ do when should_swap (swap_section section is_64); section_letter section
  ]

-- `pre_symbol_letter`, and with it `pre_64`, which differs only in the width of `n_value`.
unfoldable pub pre_symbol_letter : (n n_desc va : ℕ) → ℕ
pre_symbol_letter n n_desc va =
    let type_field = bit_and n n_type_mask in
    if not (bit_and n_stab n == 0)
    then b'-'
    else if type_field == n_undf
    then if va == 0 then b'u' else b'c'
    else if type_field == n_abs
    then b'a'
    else if type_field == n_sect
    then b's'
    else if type_field == n_pbud
    then b'u'
    else if type_field == n_indr
    then b'i'
    else if not (bit_and n_desc n_weak_ref == 0)
    then b'w'
    else b'?'

-- `if (letter != '?' && (N_EXT & l->n_type)) letter = letter - ('a' - 'A');`, in a char
unfoldable pub extern_letter : (letter n_type : ℕ) → ℕ
extern_letter letter n_type =
    if not (letter == b'?') && not (bit_and n_ext n_type == 0)
    then letter - (b'a' - b'A')
    else letter

unfoldable pub get_symbol_letter : Ptr → Ptr → Bool → Bool → Proc ℕ
get_symbol_letter p nlist s is_64 = do
  n_type ← read8 (nlist ⊕ n_type_offset)
  n_desc ← read16 (nlist ⊕ n_desc_offset)
  value ← read_word is_64 (nlist ⊕ n_value_offset)
  letter ←
      (if pre_symbol_letter n_type n_desc value == b's'
        then symbol p nlist s is_64
        else pure (pre_symbol_letter n_type n_desc value))
  ext_type ← read8 (nlist ⊕ n_type_offset)
  pure (extern_letter letter ext_type)
