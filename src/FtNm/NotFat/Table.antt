-- ===== src/FtNm/NotFat/Table.antt =====
-- `list_symtab` of handle_not_fat.c on an object in the byte order of the machine: one symbol for
-- each entry of the table, in the order of the table, or none at all.
use mathlib.Core.List.{append-nil, append_assoc}
use mathlib.Core.Path.{subst}
use nm.Common.{
  ℕ, zero, suc, ◌+◌, ◌-◌, ◌^◌, ◌≤◌, ◌<◌, ◌≡◌, refl, sym, ap, ◌∙◌, ◌⊎◌, inl, inr, Bool, false, not,
  ◌||◌, List, [], ◌∷◌, ◌++◌, ltb, if◌then◌else◌, arith,
}
use nm.Macho.{n_value_offset, nsyms_offset, symoff_offset, sizeof_symtab_command}
use nm.Machine.{Machine, Ptr, ok, Proc, ◌>>=◌, pure, asks, ◌⊕◌, read32}
use nm.Machine.Steps.{after, chosen, returned}
use nm.Machine.Respects.{>>=-Returned}
use nm.FtNm.Safe.{is_safe}
use nm.FtNm.Get.{get_nlist, get_symbol_name}
use nm.FtNm.NotFat.{Symbol, init_one_nm, add_list, symtab_loop, list_symtab}
use nm.FtNm.Memory.Laws.{unchanged}
use nm.FtNm.Memory.Symbols.{get_symbol_letter-Respects, get_symbol_name-Respects, read32-Respects}

-- The addresses of `n_value` in the entries from `i` on.
unfoldable pub entry_values : Ptr → Bool → ℕ → ℕ → ℕ → List Ptr
entry_values p x symoff i zero = []
entry_values p x symoff i (suc n) =
    (get_nlist p i x symoff ⊕ n_value_offset) ∷ entry_values p x symoff (i + 1) n

-- `add_list` puts its symbol behind the others.
pub add_list-append : (list : List Symbol) (new : Symbol) → add_list list new ≡ list ++ (new ∷ [])
unfolding add_list
add_list-append [] new = refl
add_list-append (x ∷ xs) new = ap (λ (l : List Symbol). x ∷ l) (add_list-append xs new)

abbrev pub adds : List Symbol → List Ptr
adds [] = []
adds (s ∷ list) = s.add ∷ adds list

adds-add_list :
    (list : List Symbol) (new : Symbol) → adds (add_list list new) ≡ adds list ++ (new.add ∷ [])
unfolding add_list
adds-add_list [] new = refl
adds-add_list (x ∷ xs) new = ap (λ (l : List Ptr). x.add ∷ l) (adds-add_list xs new)

module _ (m : Machine) (lc p : Ptr) (x : Bool) (strings : Ptr) (nsyms symoff : ℕ)
    (count_at : read32 (lc ⊕ nsyms_offset) m ≡ ok nsyms m)
    (table_at : read32 (lc ⊕ symoff_offset) m ≡ ok symoff m) where
  abbrev Entered : ℕ → List Symbol → List Symbol → Type 0
  Entered i list out = (out ≡ []) ⊎ (adds out ≡ adds list ++ entry_values p x symoff i (nsyms - i))

  Entered-next :
      (i : ℕ) (list out : List Symbol) (new : Symbol)
      → i < nsyms
      → new.add ≡ get_nlist p i x symoff ⊕ n_value_offset
      → Entered (i + 1) (add_list list new) out
      → Entered i list out
  unfolding entry_values
  Entered-next i list out new lt e (inl none) = inl none
  Entered-next i list out new lt e (inr all) =
      let left : nsyms - i ≡ suc (nsyms - (i + 1)) = omega arith in
      inr (
        rw left (
          all
          ∙ ap (λ (l : List Ptr). l ++ entry_values p x symoff (i + 1) (nsyms - (i + 1)))
              (adds-add_list list new)
          ∙ append_assoc (adds list) (new.add ∷ []) _
          ∙ ap (λ (a : Ptr). adds list ++ (a ∷ entry_values p x symoff (i + 1) (nsyms - (i + 1))))
              e))

  Entered-end : (i : ℕ) (list out : List Symbol) → nsyms ≤ i → list ≡ out → Entered i list out
  unfolding entry_values
  Entered-end i list out le e =
      let none_left : nsyms - i ≡ 0 = omega arith in
      inr (rw none_left (ap adds (sym e) ∙ sym (append-nil (adds list))))

  -- The rest of a round, after the tests of the string table and of the entry.
  entry_round : (left i : ℕ) (list : List Symbol) (letter : ℕ) → Proc (List Symbol)
  entry_round left i list letter = do
    symoff' ← read32 (lc ⊕ symoff_offset)
    name ← get_symbol_name strings (get_nlist p i x symoff')
    named ← asks (is_safe name)
    if not named
        then pure []
        else symtab_loop lc p false x strings left (i + 1)
            (add_list list (init_one_nm (get_nlist p i x symoff) x letter name))

  entry_round-Entered :
      (left i : ℕ) (list out : List Symbol) (letter : ℕ) (m' : Machine)
      → i < nsyms
      → ((list : List Symbol)
          → symtab_loop lc p false x strings left (i + 1) list m ≡ ok out m'
          → Entered (i + 1) list out)
      → entry_round left i list letter m ≡ ok out m'
      → Entered i list out
  unfolding entry_round init_one_nm
  entry_round-Entered left i list out letter m' lt ih h =
      let name = >>=-Returned _ _ _ _ _ (after _ _ h table_at) in
      let kept = (get_symbol_name-Respects unchanged _ _).relates _ _ _ name.first in
      let h1 = after _ _ name.rest refl in
      elim (chosen (not (is_safe name.value name.middle)) _ _ h1) [
        | inl (unsafe, h2) ↦ inl (sym (returned h2))
        | inr (safe, h2) ↦ Entered-next i list out _ lt refl (ih _ (rw kept at h2))
      ]

  symtab_loop-Entered :
      (left i : ℕ) (list out : List Symbol) (m' : Machine)
      → i ≤ nsyms
      → nsyms ≤ i + left
      → symtab_loop lc p false x strings left i list m ≡ ok out m'
      → Entered i list out
  unfolding symtab_loop entry_round
  symtab_loop-Entered zero i list out m' le ge h = Entered-end i list out (omega arith) (returned h)
  symtab_loop-Entered (suc left) i list out m' le ge h =
      elim (chosen (not (ltb i nsyms)) _ _ (after _ _ h count_at)) [
        | inl (over, h1) ↦ Entered-end i list out (ground arith) (returned h1)
        | inr (more, h1) ↦
            let h2 = after _ _ h1 table_at in
            let h3 = after _ _ h2 refl in
            let h4 = after _ _ h3 refl in
            elim (chosen (not (is_safe strings m) || not (is_safe (get_nlist p i x symoff) m)) _ _
              h4) [
                | inl (unsafe, h5) ↦ inl (sym (returned h5))
                | inr (safe, h5) ↦
                    let h6 = after _ _ h5 refl in
                    let h7 = after _ _ h6 table_at in
                    let letter = >>=-Returned _ _ _ _ _ h7 in
                    let kept =
                      (get_symbol_letter-Respects unchanged false (λ e. absurd (cc)) _ _ x).relates
                        _ _ _ letter.first in
                    entry_round-Entered left i list out letter.value m' (ground arith)
                      (λ list' h'.
                        symtab_loop-Entered left (i + 1) list' out m' (ground arith) (omega arith)
                          h')
                      (rw kept at letter.rest)
              ]
      ]

-- On an object in the byte order of the machine, a run of `list_symtab` that returns gives one symbol
-- for each of the `nsyms` entries of the table, in the order of the table and with the address of
-- the entry's value, or no symbol at all.
pub list_symtab-Entered :
    (m m' : Machine) (lc p : Ptr) (x : Bool) (nsyms symoff : ℕ) (out : List Symbol)
    → read32 (lc ⊕ nsyms_offset) m ≡ ok nsyms m
    → read32 (lc ⊕ symoff_offset) m ≡ ok symoff m
    → nsyms < 2 ^ 32
    → list_symtab lc p false x m ≡ ok out m'
    → (out ≡ []) ⊎ (adds out ≡ entry_values p x symoff 0 nsyms)
unfolding list_symtab
list_symtab-Entered m m' lc p x nsyms symoff out count_at table_at fits h =
    elim (chosen (not (is_safe (lc ⊕ sizeof_symtab_command) m)) _ _ (after _ _ h refl)) [
      | inl (unsafe, h1) ↦ inl (sym (returned h1))
      | inr (safe, h1) ↦
          let stroff = >>=-Returned _ _ _ _ _ (after _ _ h1 refl) in
          let kept = (read32-Respects unchanged _).relates _ _ _ stroff.first in
          let all : nsyms - 0 ≡ nsyms = omega arith in
          subst (λ (k : ℕ). (out ≡ []) ⊎ (adds out ≡ entry_values p x symoff 0 k)) all
            (symtab_loop-Entered m lc p x _ nsyms symoff count_at table_at (2 ^ 32) 0 [] out m'
              (omega arith) (omega arith) (rw kept at stroff.rest))
    ]
