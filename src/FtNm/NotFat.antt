-- ===== src/FtNm/NotFat.antt =====
-- handle_not_fat.c, with `init_one_nm` (helper.c) and `add_list` (helper_2.c): the symbols of one
-- Mach-O object. A list of t_nm is a list of records, NULL the empty one; `malloc` does not fail.
pub mod Table
pub mod Listing
pub mod Commands
pub mod Object
use nm.Common.{
  ℕ, zero, suc, ◌+◌, Bool, not, ◌||◌, none, some, List, [], ◌∷◌, ltb, ◌==◌, if◌then◌else◌, ◌^◌,
}
use nm.Macho.{
  sizeof_load_command, sizeof_symtab_command, lc_symtab, cmdsize_offset, symoff_offset,
  nsyms_offset, stroff_offset, n_value_offset,
}
use nm.Machine.{Ptr, Proc, ◌>>=◌, ◌>>◌, pure, ◌⊕◌, read32, asks, when}
use nm.FtNm.SwapElements.{swap_loadcommand, swap_symtab, swap_nlist}
use nm.FtNm.Safe.{is_safe}
use nm.FtNm.Get.{Lc, get_lc, get_nlist, get_symbol_name}
use nm.FtNm.SymbolLetter.{get_symbol_letter}

-- t_nm: `add` points at `n_value` in the file, `name` into its string table.
pub record Symbol : Type 0 where
  pub is_64 : Bool
  pub type : ℕ
  pub add : Ptr
  pub name : Ptr

-- Behind the last element of a list; NULL, the empty list, becomes the new element.
unfoldable pub add_list : List Symbol → Symbol → List Symbol
add_list [] new = new ∷ []
add_list (x ∷ xs) new = x ∷ add_list xs new

-- The record that `init_one_nm` makes, given the letter, and the name that its caller fills in
unfoldable pub init_one_nm : (nlist : Ptr) → (is_64 : Bool) → (letter : ℕ) → (name : Ptr) → Symbol
init_one_nm nlist is_64 letter name = record {
  is_64 = is_64;
  type = letter;
  add = nlist ⊕ n_value_offset;
  name = name;
}

-- The loop of `list_symtab` at symbol `i`. The fields of the command are read at each use, since a
-- swapped structure may overlap it. A list that is given up is freed. `nsyms` has 32 bits and `i`
-- grows, so that 2 ^ 32 rounds from `i` = 0 are always enough.
unfoldable pub symtab_loop :
    (lc p : Ptr) (s x : Bool) (stringtable : Ptr) → ℕ → ℕ → List Symbol → Proc (List Symbol)
symtab_loop lc p s x stringtable zero i list = pure list
symtab_loop lc p s x stringtable (suc left) i list = do
  nsyms ← read32 (lc ⊕ nsyms_offset)
  if not (ltb i nsyms) then pure list else do
    symoff ← read32 (lc ⊕ symoff_offset)
    strings ← asks (is_safe stringtable)
    entry ← asks (is_safe (get_nlist p i x symoff))
    if not strings || not entry then pure [] else do
      when s (swap_nlist (get_nlist p i x symoff) x)
      symoff' ← read32 (lc ⊕ symoff_offset)
      letter ← get_symbol_letter p (get_nlist p i x symoff') s x
      symoff'' ← read32 (lc ⊕ symoff_offset)
      name ← get_symbol_name stringtable (get_nlist p i x symoff'')
      named ← asks (is_safe name)
      if not named
          then pure []
          else symtab_loop lc p s x stringtable left (i + 1)
              (add_list list (init_one_nm (get_nlist p i x symoff') x letter name))

unfoldable pub list_symtab : Ptr → Ptr → (s x : Bool) → Proc (List Symbol)
list_symtab lc p s x = do
  safe ← asks (is_safe (lc ⊕ sizeof_symtab_command))
  if not safe then pure [] else do
    when s (swap_symtab lc)
    stroff ← read32 (lc ⊕ stroff_offset)
    symtab_loop lc p s x (p ⊕ stroff) (2 ^ 32) 0 []

-- The loop of `get_nm_list`, with the commands that are left.
unfoldable pub command_loop : Ptr → (s is_64 : Bool) → ℕ → Ptr → Proc (List Symbol)
command_loop p s is_64 zero lc = pure []
command_loop p s is_64 (suc left) lc = do
  safe ← asks (is_safe (lc ⊕ sizeof_load_command))
  if not safe then pure [] else do
    when s (swap_loadcommand lc)
    cmd ← read32 lc
    if cmd == lc_symtab
        then list_symtab lc p s is_64
        else do size ← read32 (lc ⊕ cmdsize_offset); command_loop p s is_64 left (lc ⊕ size)

unfoldable pub get_nm_list : Lc → Ptr → (s is_64 : Bool) → Proc (List Symbol)
get_nm_list info p s is_64 = command_loop p s is_64 info.number_cmds (p ⊕ info.offset_cmds)

unfoldable pub handle_not_fat : (is_64 should_swap : Bool) → Ptr → Proc (List Symbol)
handle_not_fat is_64 should_swap p = do
  safe ← asks (is_safe p)
  if not safe then pure [] else do
    info ← get_lc is_64 should_swap p
    elim info [ none ↦ pure [] | some lc ↦ get_nm_list lc p should_swap is_64 ]
