-- ===== src/FtOtool/Section/Search.antt =====
-- Which section `text_in_seg` finds.
use mathlib.Core.Path.{subst}
use nm.Common.{
  ℕ, zero, suc, ◌+◌, ◌*◌, ◌%◌, ◌^◌, ◌<◌, ◌≡◌, refl, ◌∙◌, Bool, true, false, none, some, arith,
}
use nm.Macho.{sect_text, seg_text}
use nm.Machine.{Machine, Ptr, ok, ◌⊕◌}
use nm.Machine.Steps.{step}
use nm.FtNm.Safe.{is_safe}
use nm.FtNm.Get.{get_add}
use nm.FtNm.SymbolLetter.{section_size, segment_size, is_section_named}
use nm.FtOtool.Section.{text_loop, text_in_seg}

-- Where the header of section `i` of the segment at `lc` stands.
abbrev pub header_address : Ptr → Bool → ℕ → Ptr
header_address lc is_64 i = lc ⊕ segment_size is_64 ⊕ (i * section_size is_64) % 2 ^ 32

module _ (m : Machine) (lc : Ptr) (is_64 : Bool) where
  -- Section `i` is in the file, and it is __text of __TEXT, or it is not.
  pub record IsSection (i : ℕ) (text : Bool) : Type 0 where
    pub in_file : is_safe (header_address lc is_64 i) m ≡ true
    pub named : is_section_named (header_address lc is_64 i) sect_text seg_text m ≡ ok text m

  module _ (k : ℕ) (others : (j : ℕ) → j < k → IsSection j false) (found : IsSection k true) where
    text_loop-first :
        (left i n : ℕ)
        → i + n ≡ k
        → n < left
        → text_loop lc is_64 i left m ≡ ok (some (header_address lc is_64 k)) m
    unfolding text_loop
    text_loop-first zero i n e lt = absurd (omega arith)
    text_loop-first (suc left) i zero e lt =
        let here : k ≡ i = omega arith in
        let o = subst (λ (j : ℕ). IsSection j true) here found in
        rw here (step _ _ refl ∙ rw o.in_file (step _ _ o.named))
    text_loop-first (suc left) i (suc n) e lt =
        let o = others i (omega arith) in
        step _ _ refl
        ∙ rw o.in_file
            (step _ _ o.named ∙ text_loop-first left (i + 1) n (omega arith) (omega arith))

-- If section `k` of a segment is __text of __TEXT, and the sections before it are in the file and are
-- not, `text_in_seg` returns the address of section `k` and leaves the memory as it is.
pub text_in_seg-first :
    (m : Machine) (lc : Ptr) (is_64 : Bool) (nb k : ℕ)
    → get_add is_64 lc m ≡ ok nb m
    → k < nb
    → ((j : ℕ) → j < k → IsSection m lc is_64 j false)
    → IsSection m lc is_64 k true
    → text_in_seg lc is_64 m ≡ ok (some (header_address lc is_64 k)) m
unfolding text_in_seg
text_in_seg-first m lc is_64 nb k count lt others found =
    step _ _ count ∙ text_loop-first m lc is_64 k others found nb 0 k (omega arith) lt

text_loop-none :
    (m : Machine) (lc : Ptr) (is_64 : Bool) (left i nb : ℕ)
    → i + left ≡ nb
    → ((j : ℕ) → j < nb → IsSection m lc is_64 j false)
    → text_loop lc is_64 i left m ≡ ok none m
unfolding text_loop
text_loop-none m lc is_64 zero i nb e others = refl
text_loop-none m lc is_64 (suc left) i nb e others =
    let o = others i (omega arith) in
    step _ _ refl
    ∙ rw o.in_file
        (step _ _ o.named ∙ text_loop-none m lc is_64 left (i + 1) nb (omega arith) others)

-- If no section of a segment is __text of __TEXT, and all are in the file, `text_in_seg` returns NULL.
pub text_in_seg-none :
    (m : Machine) (lc : Ptr) (is_64 : Bool) (nb : ℕ)
    → get_add is_64 lc m ≡ ok nb m
    → ((j : ℕ) → j < nb → IsSection m lc is_64 j false)
    → text_in_seg lc is_64 m ≡ ok none m
unfolding text_in_seg
text_in_seg-none m lc is_64 nb count others =
    step _ _ count ∙ text_loop-none m lc is_64 nb 0 nb (omega arith) others
