-- ===== src/FtNm/NotFat/Object.antt =====
-- A whole Mach-O object in the byte order of the machine, from its header to its symbol table.
use nm.Common.{ℕ, ◌^◌, ◌<◌, ◌≡◌, refl, ◌∙◌, Bool, true, false, some, List, if◌then◌else◌, length}
use nm.Macho.{
  nsyms_offset, symoff_offset, stroff_offset, sizeof_symtab_command, ncmds_offset, lc_symtab,
  sizeof_mach_header, sizeof_mach_header_64,
}
use nm.Machine.{Machine, Ptr, ok, ◌⊕◌, read32}
use nm.Machine.Steps.{step}
use nm.FtNm.Safe.{is_safe, is_lc_safe}
use nm.FtNm.Get.{get_lc}
use nm.FtNm.NotFat.{Symbol, handle_not_fat}
use nm.FtNm.NotFat.Listing.{AreEntries, list_symtab-AreEntries}
use nm.FtNm.NotFat.Commands.{IsCommand, Skipped, get_nm_list-Skipped}

abbrev pub header_size : Bool → ℕ
header_size is_64 = if is_64 then sizeof_mach_header_64 else sizeof_mach_header

-- The memory holds at `lc` a symtab command of the object at `p`, whose table is `table`.
pub record IsSymtab (m : Machine) (p lc : Ptr) (is_64 : Bool) (table : List Symbol) : Type 0 where
  pub stroff : ℕ
  pub symoff : ℕ
  pub in_file : is_safe (lc ⊕ sizeof_symtab_command) m ≡ true
  pub stroff_at : read32 (lc ⊕ stroff_offset) m ≡ ok stroff m
  pub symoff_at : read32 (lc ⊕ symoff_offset) m ≡ ok symoff m
  pub nsyms_at : read32 (lc ⊕ nsyms_offset) m ≡ ok (length table) m
  pub fits : length table < 2 ^ 32
  pub strings_in_file : is_safe (p ⊕ stroff) m ≡ true
  pub entries : AreEntries m lc p is_64 (p ⊕ stroff) (length table) symoff 0 table

-- The memory holds at `p` an object whose first symtab command has the symbols `table`.
pub record IsObject (m : Machine) (p : Ptr) (is_64 : Bool) (table : List Symbol) : Type 0 where
  pub ncmds : ℕ
  pub before : ℕ
  pub lc : Ptr
  pub size : ℕ
  pub in_file : is_safe p m ≡ true
  pub header_in_file : is_lc_safe p is_64 m ≡ true
  pub ncmds_at : read32 (p ⊕ ncmds_offset) m ≡ ok ncmds m
  pub others : Skipped m (p ⊕ header_size is_64) lc before
  pub command : IsCommand m lc lc_symtab size
  pub counted : before < ncmds
  pub symtab : IsSymtab m p lc is_64 table

pub get_lc-header :
    (m : Machine) (p : Ptr) (is_64 : Bool) (ncmds : ℕ)
    → is_lc_safe p is_64 m ≡ true
    → read32 (p ⊕ ncmds_offset) m ≡ ok ncmds m
    → get_lc is_64 false p m
      ≡ ok (some (record { number_cmds = ncmds; offset_cmds = header_size is_64 })) m
unfolding get_lc
get_lc-header m p is_64 ncmds safe e = step _ _ refl ∙ rw safe (step _ _ refl ∙ step _ _ e)

-- For an object in the byte order of the machine whose load commands are well formed up to the first
-- LC_SYMTAB, and all entries of whose symbol table can be read with their letters and names,
-- `handle_not_fat` returns exactly the symbols of that table, in its order, and leaves the memory
-- as it is.
pub handle_not_fat-IsObject :
    (m : Machine) (p : Ptr) (is_64 : Bool) (table : List Symbol)
    → IsObject m p is_64 table
    → handle_not_fat is_64 false p m ≡ ok table m
unfolding handle_not_fat
handle_not_fat-IsObject m p is_64 table o =
    step _ _ refl
    ∙ rw o.in_file (
        step _ _ (get_lc-header m p is_64 o.ncmds o.header_in_file o.ncmds_at)
        ∙ get_nm_list-Skipped m _ p o.lc is_64 o.before o.size o.others o.command o.counted
        ∙ list_symtab-AreEntries m o.lc p is_64 t.stroff (length table) t.symoff table t.in_file
            t.stroff_at t.symoff_at t.nsyms_at t.fits t.strings_in_file refl t.entries)
  where
    t : IsSymtab m p o.lc is_64 table
    t = o.symtab
