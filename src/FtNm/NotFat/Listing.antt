-- ===== src/FtNm/NotFat/Listing.antt =====
-- The whole symbol table of an object in the byte order of the machine: if every entry can be read,
-- `list_symtab` lists it.
use mathlib.Core.List.{append-nil, append_assoc}
use nm.Common.{
  ℕ, zero, suc, ◌+◌, ◌^◌, ◌≤◌, ◌<◌, ◌≡◌, refl, sym, ap, ◌∙◌, Bool, true, false, List, [], ◌∷◌, ◌++◌,
  ltb, arith, length, lt→ltb,
}
use nm.Macho.{n_value_offset, nsyms_offset, symoff_offset, stroff_offset, sizeof_symtab_command}
use nm.Machine.{Machine, Ptr, ok, ◌⊕◌, read32}
use nm.Machine.Steps.{step}
use nm.FtNm.Safe.{is_safe}
use nm.FtNm.Get.{get_nlist, get_symbol_name}
use nm.FtNm.SymbolLetter.{get_symbol_letter}
use nm.FtNm.NotFat.{Symbol, init_one_nm, add_list, symtab_loop, list_symtab}
use nm.FtNm.NotFat.Table.{add_list-append}

module _ (m : Machine) (lc p : Ptr) (x : Bool) (strings : Ptr) (nsyms symoff : ℕ) where
  -- Entry `i` can be read, and is the symbol `s`.
  pub record IsEntry (i : ℕ) (s : Symbol) : Type 0 where
    pub in_file : is_safe (get_nlist p i x symoff) m ≡ true
    pub lettered : get_symbol_letter p (get_nlist p i x symoff) false x m ≡ ok s.type m
    pub named : get_symbol_name strings (get_nlist p i x symoff) m ≡ ok s.name m
    pub name_in_file : is_safe s.name m ≡ true
    pub valued : s.add ≡ get_nlist p i x symoff ⊕ n_value_offset
    pub width : s.is_64 ≡ x

  -- The symbols are the entries from `i` on.
  abbrev pub AreEntries : ℕ → List Symbol → Type 0
  AreEntries i [] = Unit
  AreEntries i (s ∷ table) = IsEntry i s × AreEntries (i + 1) table

  module _ (count_at : read32 (lc ⊕ nsyms_offset) m ≡ ok nsyms m)
      (table_at : read32 (lc ⊕ symoff_offset) m ≡ ok symoff m)
      (strings_in_file : is_safe strings m ≡ true) where
    ltb_self : (i n : ℕ) → i + 0 ≡ n → ltb i n ≡ false
    ltb_self i n e = ground arith

    entry-η :
        (i : ℕ) (s : Symbol)
        → IsEntry i s
        → init_one_nm (get_nlist p i x symoff) x s.type s.name ≡ s
    unfolding init_one_nm
    entry-η i s e = rw (sym e.valued, sym e.width) refl

    symtab_loop-append :
        (table : List Symbol) (left i : ℕ) (list : List Symbol)
        → i + length table ≡ nsyms
        → length table ≤ left
        → AreEntries i table
        → symtab_loop lc p false x strings left i list m ≡ ok (list ++ table) m
    unfolding symtab_loop init_one_nm
    symtab_loop-append [] zero i list e fuel es = rw append-nil refl
    symtab_loop-append [] (suc left) i list e fuel es =
        step _ _ count_at ∙ rw (ltb_self i nsyms (omega arith)) (rw append-nil refl)
    symtab_loop-append (s ∷ table) zero i list e fuel es = absurd (omega arith)
    symtab_loop-append (s ∷ table) (suc left) i list e fuel es =
        step _ _ count_at
        ∙ rw (lt→ltb i nsyms (omega arith)) (
            step _ _ table_at
            ∙ step _ _ refl
            ∙ step _ _ refl
            ∙ rw (strings_in_file, es.0.in_file)
                (step _ _ refl
                  ∙ step _ _ table_at
                  ∙ step _ _ es.0.lettered
                  ∙ step _ _ table_at
                  ∙ step _ _ es.0.named
                  ∙ step _ _ refl
                  ∙ rw es.0.name_in_file (
                      ap
                        (λ (new : Symbol).
                          symtab_loop lc p false x strings left (i + 1) (add_list list new) m)
                        (entry-η i s es.0)
                      ∙ symtab_loop-append table left (i + 1) (add_list list s) (omega arith)
                          (omega arith) es.1
                      ∙ ap (λ (l : List Symbol). ok l m)
                          (ap (λ (l : List Symbol). l ++ table) (add_list-append list s)
                            ∙ append_assoc list (s ∷ []) table))))

-- If every entry of the symbol table of an object in the byte order of the machine can be read, with
-- its letter and its name, `list_symtab` returns the list of all the entries, in the order of the
-- table, and leaves the memory as it is.
pub list_symtab-AreEntries :
    (m : Machine) (lc p : Ptr) (x : Bool) (stroff nsyms symoff : ℕ) (table : List Symbol)
    → is_safe (lc ⊕ sizeof_symtab_command) m ≡ true
    → read32 (lc ⊕ stroff_offset) m ≡ ok stroff m
    → read32 (lc ⊕ symoff_offset) m ≡ ok symoff m
    → read32 (lc ⊕ nsyms_offset) m ≡ ok nsyms m
    → nsyms < 2 ^ 32
    → is_safe (p ⊕ stroff) m ≡ true
    → length table ≡ nsyms
    → AreEntries m lc p x (p ⊕ stroff) nsyms symoff 0 table
    → list_symtab lc p false x m ≡ ok table m
unfolding list_symtab
list_symtab-AreEntries m lc p x stroff nsyms symoff table lc_in_file stroff_at table_at count_at
      fits strings_in_file count es =
    step _ _ refl
    ∙ rw lc_in_file (
        step _ _ refl
        ∙ step _ _ stroff_at
        ∙ symtab_loop-append m lc p x (p ⊕ stroff) nsyms symoff count_at table_at strings_in_file
            table (2 ^ 32) 0 [] (omega arith) (omega arith) es)
