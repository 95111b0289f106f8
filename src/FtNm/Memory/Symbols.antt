-- ===== src/FtNm/Memory/Symbols.antt =====
-- The procedures of get.c, get_symbol_letter.c, handle_not_fat.c, handle_each_arch.c and handle_nm.c
-- keep every relation that composes, if writes keep it where the object is swapped.
use nm.Common.{
  ℕ, zero, suc, ◌+◌, ◌%◌, ◌^◌, ◌≡◌, Bool, true, false, not, ◌||◌, Option, none, some, List, [], leb,
  ltb, ◌==◌,
}
use nm.Macho.{lc_segment, lc_segment_64, lc_symtab}
use nm.Machine.{Machine, Ptr, Proc, pure, ◌>>=◌, when, read8, write8, ◌⊕◌}
use nm.Machine.Respects.{Frame, Respects, when-Respects, look-Respects, asks-Respects}
use nm.FtNm.Magic.{is_hostarch}
use nm.FtNm.Get.{get_lc, get_offsize_arch, get_symbol_name, get_add}
use nm.FtNm.SymbolLetter.{
  section_loop, get_section, same_name, is_section_named, section_letter, symbol, pre_symbol_letter,
  get_symbol_letter,
}
use nm.FtNm.NotFat.{Symbol, symtab_loop, list_symtab, command_loop, get_nm_list, handle_not_fat}
use nm.FtNm.Memory.Parts.{
  bind, branch, done, read8-Respects, read_le-Respects, read_word-Respects,
  swap_mach_header-Respects, swap_loadcommand-Respects, swap_symtab-Respects, swap_nlist-Respects,
  swap_segment_command-Respects, swap_section-Respects,
}

module _ (F : Frame) where
  pub read32-Respects : (p : Ptr) → Respects F (nm.Machine.read32 p)
  read32-Respects p = read_le-Respects F 4 p

  pub is_hostarch-Respects : (p : Ptr) (s : Bool) → Respects F (is_hostarch p s)
  unfolding is_hostarch
  is_hostarch-Respects p s = bind F (read32-Respects _) λ t. done F _

  pub get_offsize_arch-Respects : (p : Ptr) (s x : Bool) → Respects F (get_offsize_arch p s x)
  unfolding get_offsize_arch
  get_offsize_arch-Respects p s x =
      branch F x (bind F (read_le-Respects F 8 _) λ o. done F _)
        (bind F (read32-Respects _) λ o. done F _)

  pub get_symbol_name-Respects : (p q : Ptr) → Respects F (get_symbol_name p q)
  unfolding get_symbol_name
  get_symbol_name-Respects p q = bind F (read32-Respects _) λ o. done F _

  pub get_add-Respects : (x : Bool) (p : Ptr) → Respects F (get_add x p)
  unfolding get_add
  get_add-Respects x p = read32-Respects _

  same_name-Respects : (p : Ptr) (s : List ℕ) → Respects F (same_name p s)
  unfolding same_name
  same_name-Respects p s = look-Respects F _

  pub is_section_named-Respects : (p : Ptr) (s t : List ℕ) → Respects F (is_section_named p s t)
  unfolding is_section_named
  is_section_named-Respects p s t =
      bind F (same_name-Respects _ _) λ b. branch F b (same_name-Respects _ _) (done F false)

  section_letter-Respects : (p : Ptr) → Respects F (section_letter p)
  unfolding section_letter
  section_letter-Respects p = bind F (is_section_named-Respects _ _ _) λ b. branch F b (done F _) (
      bind F (is_section_named-Respects _ _ _)
        λ b. branch F b (done F _) (bind F (is_section_named-Respects _ _ _) λ b. done F _))

  pub each :
      {A B : Type 0} (o : Option A) {p : Proc B} {k : A → Proc B}
      → Respects F p
      → ((a : A) → Respects F (k a))
      → Respects F (elim o [ none ↦ p | some a ↦ k a ])
  each none hp hk = hp
  each (some a) hp hk = hk a

  module _ (s : Bool) (writes : s ≡ true → (p : Ptr) (v : ℕ) → Respects F (write8 p v)) where
    pub get_lc-Respects : (x : Bool) (p : Ptr) → Respects F (get_lc x s p)
    unfolding get_lc
    get_lc-Respects x p = bind F (asks-Respects F _) λ safe. branch F (not safe) (done F none) (
        bind F (when-Respects F s _ λ e. swap_mach_header-Respects F (writes e) p)
          λ _. bind F (read32-Respects _) λ n. done F _)

    section_loop-Respects :
        (x : Bool) (i left : ℕ) (lc : Ptr) (count : ℕ)
        → Respects F (section_loop s x i left lc count)
    unfolding section_loop
    section_loop-Respects x i zero lc count = done F none
    section_loop-Respects x i (suc left) lc count = bind F (asks-Respects F _) λ safe.
        branch F (not safe) (done F none) (
          bind F (read32-Respects _) λ cmd.
            branch F (cmd == lc_segment || cmd == lc_segment_64)
              (bind F (asks-Respects F _) λ whole. branch F (not whole) (done F none) (
                bind F (when-Respects F s _ λ e. swap_segment_command-Respects F (writes e) lc x)
                  λ _. bind F (get_add-Respects _ _) λ add.
                    branch F (leb i ((count + add) % 2 ^ 32)) (done F _)
                      (bind F (read32-Respects _) λ size. section_loop-Respects x i left _ _)))
              (bind F (read32-Respects _) λ size. section_loop-Respects x i left _ _))

  never : {A : Type 0} → false ≡ true → A
  never e = absurd (cc)

  module _ (s : Bool) (writes : s ≡ true → (p : Ptr) (v : ℕ) → Respects F (write8 p v)) where
    get_section-Respects : (p : Ptr) (x : Bool) (i : ℕ) → Respects F (get_section p s x i)
    unfolding get_section
    get_section-Respects p x i =
        bind F (get_lc-Respects false never x p)
          λ info. each info (done F none) λ lc. section_loop-Respects s writes x i _ _ _

    symbol-Respects : (p a : Ptr) (x : Bool) → Respects F (symbol p a s x)
    unfolding symbol
    symbol-Respects p a x = bind F (read8-Respects F _) λ index.
        bind F (get_section-Respects p x index) λ found. each found (done F _) λ section.
          bind F (when-Respects F s _ λ e. swap_section-Respects F (writes e) section x)
            λ _. section_letter-Respects section

    pub get_symbol_letter-Respects : (p a : Ptr) (x : Bool) → Respects F (get_symbol_letter p a s x)
    unfolding get_symbol_letter
    get_symbol_letter-Respects p a x = bind F (read8-Respects F _) λ type.
        bind F (read_le-Respects F 2 _) λ desc. bind F (read_word-Respects F x _) λ value.
          bind F
            (branch F (pre_symbol_letter type desc value == b's') (symbol-Respects p a x)
              (done F _))
            λ letter. bind F (read8-Respects F _) λ ext. done F _

    symtab_loop-Respects :
        (lc p : Ptr) (x : Bool) (strings : Ptr) (left i : ℕ) (list : List Symbol)
        → Respects F (symtab_loop lc p s x strings left i list)
    unfolding symtab_loop
    symtab_loop-Respects lc p x strings zero i list = done F list
    symtab_loop-Respects lc p x strings (suc left) i list = bind F (read32-Respects _) λ nsyms.
        branch F (not (ltb i nsyms)) (done F list) (
          bind F (read32-Respects _) λ symoff. bind F (asks-Respects F _) λ readable.
            bind F (asks-Respects F _) λ entry. branch F (not readable || not entry) (done F []) (
              bind F (when-Respects F s _ λ e. swap_nlist-Respects F (writes e) _ x) λ _.
                bind F (read32-Respects _) λ o. bind F (get_symbol_letter-Respects p _ x) λ letter.
                  bind F (read32-Respects _) λ o'. bind F (get_symbol_name-Respects _ _) λ name.
                    bind F (asks-Respects F _) λ named.
                      branch F (not named) (done F [])
                        (symtab_loop-Respects lc p x strings left (i + 1) _)))

    list_symtab-Respects : (lc p : Ptr) (x : Bool) → Respects F (list_symtab lc p s x)
    unfolding list_symtab
    list_symtab-Respects lc p x = bind F (asks-Respects F _) λ safe.
        branch F (not safe) (done F []) (
          bind F (when-Respects F s _ λ e. swap_symtab-Respects F (writes e) lc)
            λ _. bind F (read32-Respects _) λ stroff. symtab_loop-Respects lc p x _ _ _ _)

    command_loop-Respects :
        (p : Ptr) (x : Bool) (left : ℕ) (lc : Ptr) → Respects F (command_loop p s x left lc)
    unfolding command_loop
    command_loop-Respects p x zero lc = done F []
    command_loop-Respects p x (suc left) lc = bind F (asks-Respects F _) λ safe.
        branch F (not safe) (done F []) (
          bind F (when-Respects F s _ λ e. swap_loadcommand-Respects F (writes e) lc) λ _.
            bind F (read32-Respects _) λ cmd.
              branch F (cmd == lc_symtab) (list_symtab-Respects lc p x)
                (bind F (read32-Respects _) λ size. command_loop-Respects p x left _))

    pub handle_not_fat-Respects : (x : Bool) (p : Ptr) → Respects F (handle_not_fat x s p)
    unfolding handle_not_fat get_nm_list
    handle_not_fat-Respects x p = bind F (asks-Respects F _) λ safe.
        branch F (not safe) (done F []) (
          bind F (get_lc-Respects s writes x p)
            λ info. each info (done F []) λ lc. command_loop-Respects p x _ _)
