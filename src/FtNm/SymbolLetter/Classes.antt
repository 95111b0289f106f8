-- ===== src/FtNm/SymbolLetter/Classes.antt =====
-- The letters of get_symbol_letter.c by arithmetic on `n_type` in place of masks.
use nm.Common.{
  ℕ, ◌*◌, ◌/◌, ◌%◌, ◌-◌, ◌<◌, ◌≡◌, refl, Bool, true, not, ◌&&◌, ltb, ◌==◌, if◌then◌else◌, bit_and,
  arith, ==→eq,
}
use nm.Common.Tables.{all_below, all_below-holds}
use nm.Macho.{n_stab, n_type_mask, n_ext, n_weak_ref}
use nm.FtNm.SymbolLetter.{pre_symbol_letter, extern_letter}

stab_table : all_below 256 (λ n. bit_and n_stab n == (n / 32) * 32) ≡ true
unfolding all_below
stab_table = refl

type_table : all_below 256 (λ n. bit_and n n_type_mask == 2 * (n / 2 % 8)) ≡ true
unfolding all_below
type_table = refl

ext_table : all_below 256 (λ n. bit_and n_ext n == n % 2) ≡ true
unfolding all_below
ext_table = refl

stab_field : (n : ℕ) → n < 256 → bit_and n_stab n ≡ (n / 32) * 32
stab_field n h = ==→eq _ _ (all_below-holds 256 _ n stab_table h)

type_field : (n : ℕ) → n < 256 → bit_and n n_type_mask ≡ 2 * (n / 2 % 8)
type_field n h = ==→eq _ _ (all_below-holds 256 _ n type_table h)

ext_field : (n : ℕ) → n < 256 → bit_and n_ext n ≡ n % 2
ext_field n h = ==→eq _ _ (all_below-holds 256 _ n ext_table h)

-- The letter of a symbol that is no stab, from the three bits of its type.
unfoldable pub class_letter : (type : ℕ) → (no_value weak : Bool) → ℕ
class_letter type no_value weak =
    if type == 0
    then if no_value then b'u' else b'c'
    else if type == 1
    then b'a'
    else if type == 5
    then b'i'
    else if type == 6
    then b'u'
    else if type == 7
    then b's'
    else if weak
    then b'w'
    else b'?'

-- For every `n_type` of a byte: the letter before the search for the section is '-' from 32 on, and
-- else that of the bits 1 to 3, where a weak reference counts only for the types 2, 3 and 4; in both
-- cases the lowest bit alone decides whether 32 is taken off a letter that is not '?'.
pub pre_symbol_letter-class :
    (n n_desc va letter : ℕ)
    → n < 256
    → (pre_symbol_letter n n_desc va ≡ (
        if ltb n 32
        then class_letter (n / 2 % 8) (va == 0) (not (bit_and n_desc n_weak_ref == 0))
        else b'-'))
      × (extern_letter letter n
          ≡ (if n % 2 == 1 && not (letter == b'?') then letter - 32 else letter))
unfolding pre_symbol_letter extern_letter class_letter
pre_symbol_letter-class n n_desc va letter h =
    (rw (stab_field n h, type_field n h) (ground arith), rw (ext_field n h) (ground arith))
