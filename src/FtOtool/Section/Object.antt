-- ===== src/FtOtool/Section/Object.antt =====
-- A whole object in the byte order of the machine with a section __text, and what is printed of it.
use nm.Common.{
  ℕ, ◌+◌, ◌^◌, ◌<◌, ◌≤◌, ◌≡◌, refl, ◌∙◌, Bool, true, false, some, List, [], ◌∷◌, ◌++◌, length, All,
}
use nm.Macho.{ncmds_offset, section_size_offset, section_offset_offset}
use nm.Machine.{Machine, Ptr, ok, ◌⊕◌, read32, read_word}
use nm.Machine.Steps.{step}
use nm.FtNm.Safe.{is_safe, is_lc_safe}
use nm.FtNm.SymbolLetter.{section_size}
use nm.FtNm.NotFat.Object.{header_size, get_lc-header}
use nm.FtOtool.Dump.{Call, success, put_heading}
use nm.FtOtool.Dump.Rows.{width, layout}
use nm.FtOtool.Perform.{perform, perform_all}
use nm.FtOtool.Perform.Lines.{perform_all-cons}
use nm.FtOtool.Perform.Section.{text_rows, dump_section-text_rows}
use nm.Printf.Put.{putstr_loop}
use nm.FtOtool.Section.{put_text_section, handle_not_fat}
use nm.FtOtool.Section.Search.{header_address}
use nm.FtOtool.Section.Commands.{Passed, HasText, get_text_section-HasText}

-- The memory holds at `p` an object, and section `k` of the segment at `lc` is its section __text.
pub record IsObject (m : Machine) (p : Ptr) (is_64 : Bool) (lc : Ptr) (k : ℕ) : Type 0 where
  pub ncmds : ℕ
  pub before : ℕ
  pub in_file : is_safe p m ≡ true
  pub header_in_file : is_lc_safe p is_64 m ≡ true
  pub ncmds_at : read32 (p ⊕ ncmds_offset) m ≡ ok ncmds m
  pub others : Passed m is_64 (p ⊕ header_size is_64) lc before
  pub text : HasText m lc is_64 k
  pub counted : before < ncmds

-- The mapping at `g` of `k` bytes below 2 ^ 63 with the section at `sec`: the bytes `pre`, the field `addr` with the
-- address `a`, the bytes `mid`, the contents of the section, and the others. The fields of the section
-- say where the contents are.
pub record IsText (g k : ℕ) (is_64 : Bool) (pre mid section post : List ℕ) (a p sec : ℕ)
    : Type 0 where
  pub offset : ℕ
  pub whole : is_safe (sec ⊕ section_size is_64) (layout g k is_64 pre mid section post a) ≡ true
  pub sized :
      read_word is_64 (sec ⊕ section_size_offset is_64) (layout g k is_64 pre mid section post a)
      ≡ ok (length section) (layout g k is_64 pre mid section post a)
  pub placed :
      read32 (sec ⊕ section_offset_offset is_64) (layout g k is_64 pre mid section post a)
      ≡ ok offset (layout g k is_64 pre mid section post a)
  pub field : sec ⊕ 32 ≡ g + length pre
  pub contents : p ⊕ offset ≡ g + length pre + width is_64 + length mid
  pub in_file : g + length pre + width is_64 + length mid + length section ≤ g + k
  pub low : g + k < 2 ^ 63
  pub small : k < 2 ^ 32
  pub no_wrap : a + length section < 256 ^ width is_64
  pub are_bytes : All (λ b. b < 256) section

abbrev pub title : List ℕ
title =
    b'C' ∷ b'o' ∷ b'n' ∷ b't' ∷ b'e' ∷ b'n' ∷ b't' ∷ b's' ∷ b' ' ∷ b'o' ∷ b'f' ∷ b' ' ∷ b'(' ∷ b'_'
    ∷ b'_' ∷ b'T' ∷ b'E' ∷ b'X' ∷ b'T' ∷ b',' ∷ b'_' ∷ b'_' ∷ b't' ∷ b'e' ∷ b'x' ∷ b't' ∷ b')'
    ∷ b' ' ∷ b's' ∷ b'e' ∷ b'c' ∷ b't' ∷ b'i' ∷ b'o' ∷ b'n' ∷ 10 ∷ []

-- What is printed of the section: the heading and the rows.
abbrev pub dump : (is_64 : Bool) (a : ℕ) → List ℕ → List ℕ
dump is_64 a section = title ++ text_rows (width is_64) (2 ^ 28 + 1) a section

heading_printed : perform put_heading ≡ some title
unfolding perform putstr_loop
heading_printed = refl

module _ (g k : ℕ) (is_64 : Bool) (pre mid section post : List ℕ) (a p : ℕ) where
  put_text_section-IsText :
      (sec : Ptr)
      → IsText g k is_64 pre mid section post a p sec
      → (a' : ℕ) × (calls : List Call) × (put_text_section sec false is_64 p
            (layout g k is_64 pre mid section post a)
          ≡ ok (success, calls) (layout g k is_64 pre mid section post a'))
        × (perform_all calls ≡ some (dump is_64 a section))
  unfolding put_text_section
  put_text_section-IsText sec t =
      let (a', calls, dumped, printed) =
        dump_section-text_rows g k is_64 pre mid section post a t.offset p t.in_file t.low t.small
          t.no_wrap t.contents t.are_bytes in
      (
        a',
        put_heading ∷ calls,
        step _ _ refl
            ∙ rw t.whole (
                step _ _ refl
                ∙ step _ _ t.sized
                ∙ step _ _ t.placed
                ∙ rw t.field (step _ _ dumped)),
        perform_all-cons put_heading calls title _ heading_printed printed,
      )

  -- The dump of an object.
  pub handle_not_fat-IsText :
      (lc : Ptr) (n : ℕ)
      → IsObject (layout g k is_64 pre mid section post a) p is_64 lc n
      → IsText g k is_64 pre mid section post a p (header_address lc is_64 n)
      → (a' : ℕ) × (calls : List Call) × (handle_not_fat is_64 false p
            (layout g k is_64 pre mid section post a)
          ≡ ok (success, calls) (layout g k is_64 pre mid section post a'))
        × (perform_all calls ≡ some (dump is_64 a section))
  unfolding handle_not_fat
  handle_not_fat-IsText lc n o t =
      let m = layout g k is_64 pre mid section post a in
      let (a', calls, put, printed) = put_text_section-IsText (header_address lc is_64 n) t in
      (
        a',
        calls,
        step _ _ refl
            ∙ rw o.in_file (
                step _ _ (get_lc-header m p is_64 o.ncmds o.header_in_file o.ncmds_at)
                ∙ step _ _
                    (get_text_section-HasText m _ p lc is_64 o.before n o.others o.text o.counted)
                ∙ step _ _ put),
        printed,
      )
