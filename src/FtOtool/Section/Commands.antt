-- ===== src/FtOtool/Section/Commands.antt =====
-- The walk of `get_text_section` over the load commands of an object in the byte order of the machine.
use nm.Common.{
  ℕ, zero, suc, ◌+◌, ◌-◌, ◌<◌, ◌≡◌, refl, ap, ◌∙◌, Bool, true, false, ◌||◌, ◌==◌, none, some, arith,
}
use nm.Macho.{cmdsize_offset, lc_segment, lc_segment_64}
use nm.Machine.{Machine, Ptr, ok, ◌⊕◌, read32}
use nm.Machine.Steps.{step}
use nm.FtNm.Safe.{is_safe, is_segmant_safe}
use nm.FtNm.Get.{Lc, get_add}
use nm.FtOtool.Section.{text_in_seg, segment_loop, get_text_section}
use nm.FtOtool.Section.Search.{IsSection, header_address, text_in_seg-first, text_in_seg-none}

-- The load command at `lc`: a segment, or another one.
pub record IsCommand (m : Machine) (lc : Ptr) (is_segment : Bool) (size : ℕ) : Type 0 where
  pub cmd : ℕ
  pub in_file : is_safe lc m ≡ true
  pub kind : read32 lc m ≡ ok cmd m
  pub segment : (cmd == lc_segment || cmd == lc_segment_64) ≡ is_segment
  pub sized : read32 (lc ⊕ cmdsize_offset) m ≡ ok size m

-- A segment with `nb` sections.
pub record IsSegment (m : Machine) (lc : Ptr) (is_64 : Bool) (nb : ℕ) : Type 0 where
  pub size : ℕ
  pub command : IsCommand m lc true size
  pub whole : is_segmant_safe lc is_64 m ≡ true
  pub count : get_add is_64 lc m ≡ ok nb m

-- Load commands from `lc` to `last`, one behind the other, none of which has the section __text.
pub data Passed (m : Machine) (is_64 : Bool) : Ptr → Ptr → ℕ → Type 0 where
  here : {lc : Ptr} → Passed m is_64 lc lc 0
  other :
      {lc last : Ptr} {n : ℕ} (size : ℕ)
      → IsCommand m lc false size
      → Passed m is_64 (lc ⊕ size) last n
      → Passed m is_64 lc last (suc n)
  textless :
      {lc last : Ptr} {n : ℕ} (nb : ℕ) (s : IsSegment m lc is_64 nb)
      → ((j : ℕ) → j < nb → IsSection m lc is_64 j false)
      → Passed m is_64 (lc ⊕ s.size) last n
      → Passed m is_64 lc last (suc n)

-- The segment at `lc` has the section __text, and no section before it has its name.
pub record HasText (m : Machine) (lc : Ptr) (is_64 : Bool) (k : ℕ) : Type 0 where
  pub nb : ℕ
  pub segment : IsSegment m lc is_64 nb
  pub inside : k < nb
  pub others : (j : ℕ) → j < k → IsSection m lc is_64 j false
  pub text : IsSection m lc is_64 k true

segment_loop-other :
    (m : Machine) (lc : Ptr) (is_64 : Bool) (left size : ℕ)
    → IsCommand m lc false size
    → segment_loop false is_64 (suc left) lc m ≡ segment_loop false is_64 left (lc ⊕ size) m
unfolding segment_loop
segment_loop-other m lc is_64 left size c =
    step _ _ refl ∙ rw c.in_file (step _ _ refl ∙ step _ _ c.kind ∙ rw c.segment (step _ _ c.sized))

segment_loop-textless :
    (m : Machine) (lc : Ptr) (is_64 : Bool) (left nb : ℕ) (s : IsSegment m lc is_64 nb)
    → text_in_seg lc is_64 m ≡ ok none m
    → segment_loop false is_64 (suc left) lc m ≡ segment_loop false is_64 left (lc ⊕ s.size) m
unfolding segment_loop
segment_loop-textless m lc is_64 left nb s e =
    let c = s.command in
    step _ _ refl
    ∙ rw c.in_file (
        step _ _ refl
        ∙ step _ _ c.kind
        ∙ rw c.segment (step _ _ refl ∙ rw s.whole (step _ _ refl ∙ step _ _ e ∙ step _ _ c.sized)))

segment_loop-found :
    (m : Machine) (lc text : Ptr) (is_64 : Bool) (left nb : ℕ) (s : IsSegment m lc is_64 nb)
    → text_in_seg lc is_64 m ≡ ok (some text) m
    → segment_loop false is_64 (suc left) lc m ≡ ok (some text) m
unfolding segment_loop
segment_loop-found m lc text is_64 left nb s e =
    let c = s.command in
    step _ _ refl
    ∙ rw c.in_file (
        step _ _ refl
        ∙ step _ _ c.kind
        ∙ rw c.segment (step _ _ refl ∙ rw s.whole (step _ _ refl ∙ step _ _ e)))

segment_loop-Passed :
    {m : Machine} (is_64 : Bool) {lc last : Ptr} {n : ℕ} (left k : ℕ)
    → Passed m is_64 lc last n
    → k ≡ n + left
    → segment_loop false is_64 k lc m ≡ segment_loop false is_64 left last m
segment_loop-Passed {m} is_64 {lc} left k here e =
    ap (λ (k : ℕ). segment_loop false is_64 k lc m) (omega arith)
segment_loop-Passed is_64 left zero (other size c rest) e = absurd (omega arith)
segment_loop-Passed is_64 left zero (textless nb s others rest) e = absurd (omega arith)
segment_loop-Passed {m} is_64 {lc} left (suc k) (other size c rest) e =
    segment_loop-other m lc is_64 k size c ∙ segment_loop-Passed is_64 left k rest (omega arith)
segment_loop-Passed {m} is_64 {lc} left (suc k) (textless nb s others rest) e =
    segment_loop-textless m lc is_64 k nb s (text_in_seg-none m lc is_64 nb s.count others)
    ∙ segment_loop-Passed is_64 left k rest (omega arith)

-- Where the load commands of an object in the byte order of the machine are well formed up to the first segment
-- with the section __text, and this is one of the first `number_cmds`, `get_text_section` returns the address of
-- the section and leaves the memory as it is.
pub get_text_section-HasText :
    (m : Machine) (info : Lc) (p lc : Ptr) (is_64 : Bool) (n k : ℕ)
    → Passed m is_64 (p ⊕ info.offset_cmds) lc n
    → HasText m lc is_64 k
    → n < info.number_cmds
    → get_text_section info p false is_64 m ≡ ok (some (header_address lc is_64 k)) m
unfolding get_text_section
get_text_section-HasText m info p lc is_64 n k passed t lt =
    segment_loop-Passed is_64 (suc (info.number_cmds - n - 1)) info.number_cmds passed (omega arith)
    ∙ segment_loop-found m lc _ is_64 (info.number_cmds - n - 1) t.nb t.segment
        (text_in_seg-first m lc is_64 t.nb k t.segment.count t.inside t.others t.text)
