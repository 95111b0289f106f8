-- ===== src/FtNm/SwapElements/Fields.antt =====
-- Fields of 32 bits in the mapping, before and after they are swapped.
use mathlib.Core.List.{append_assoc}
use nm.Common.{
  ℕ, ◌+◌, ◌*◌, ◌^◌, ◌≤◌, ◌<◌, ◌≡◌, refl, sym, ap, ◌∙◌, List, [], ◌∷◌, ◌++◌, arith, length,
  length-append,
}
use nm.Machine.{Machine, Ptr, ok, ◌⊕◌, read32}
use nm.Machine.Access.{with_bytes, read_le-middle}
use nm.Machine.Steps.{step}
use nm.FtNm.SwapBytes.{swap_uint32, swap_32}
use nm.FtNm.SwapBytes.Words.{quad, swap_uint32-quad}
use nm.FtNm.SwapBytes.Reverse.{swap_endiane-reverse}
use nm.FtNm.SwapElements.{swap_nb_loop, swap_nb_32}

-- The four bytes of a field, in the order of their addresses.
pub record Field : Type 0 where
  pub a : ℕ
  pub b : ℕ
  pub c : ℕ
  pub d : ℕ

unfoldable pub field_bytes : Field → List ℕ
field_bytes f = f.a ∷ f.b ∷ f.c ∷ f.d ∷ []

unfoldable pub turned : Field → Field
turned f = record { a = f.d; b = f.c; c = f.b; d = f.a }

unfoldable pub all_bytes : List Field → List ℕ
all_bytes [] = []
all_bytes (f ∷ fs) = field_bytes f ++ all_bytes fs

unfoldable pub all_turned : List Field → List Field
all_turned [] = []
all_turned (f ∷ fs) = turned f ∷ all_turned fs

length-field_bytes : (f : Field) → length (field_bytes f) ≡ 4
unfolding field_bytes
length-field_bytes f = refl

swap_32-turned :
    (m : Machine) (p : Ptr) (pre post : List ℕ) (f : Field)
    → m.bytes ≡ pre ++ (field_bytes f ++ post)
    → p ≡ m.g_begin + length pre
    → p + 4 ≤ 2 ^ 64
    → swap_32 p m ≡ ok tt (with_bytes m (pre ++ (field_bytes (turned f) ++ post)))
unfolding swap_32 field_bytes turned
swap_32-turned m p pre post f e at fits =
    swap_endiane-reverse m p pre (field_bytes f) post e at fits

-- Where a field of 32 bits holds the bytes `f` and the addresses do not wrap, the value read there
-- after `swap_32` is `swap_uint32` of the value read before, and no other byte is changed.
pub swap_32-swap_uint32 :
    (m : Machine) (p : Ptr) (pre post : List ℕ) (f : Field)
    → f.a < 256
    → f.b < 256
    → f.c < 256
    → f.d < 256
    → m.bytes ≡ pre ++ (field_bytes f ++ post)
    → p ≡ m.g_begin + length pre
    → p + 4 < 2 ^ 64
    → (v : ℕ) × (m' : Machine) × (read32 p m ≡ ok v m)
      × (swap_32 p m ≡ ok tt m')
      × (read32 p m' ≡ ok (swap_uint32 v) m')
      × (m'.bytes ≡ pre ++ (field_bytes (turned f) ++ post))
unfolding field_bytes turned
swap_32-swap_uint32 m p pre post f ha hb hc hd e at fits =
    let m' = with_bytes m (pre ++ (field_bytes (turned f) ++ post)) in
    let swapped = swap_uint32-quad f.d f.c f.b f.a hd hc hb ha in
    (
      quad f.d f.c f.b f.a,
      m',
      read_le-middle m p pre (field_bytes f) post at e fits ∙ ap (λ (v : ℕ). ok v m) (omega arith),
      swap_32-turned m p pre post f e at (omega arith),
      read_le-middle m' p pre (field_bytes (turned f)) post at refl fits
          ∙ ap (λ (v : ℕ). ok v m') (rw swapped (omega arith)),
      refl,
    )

swap_nb_loop-turned :
    (fs : List Field) (m : Machine) (p : Ptr) (i : ℕ) (pre post : List ℕ)
    → m.bytes ≡ pre ++ (all_bytes fs ++ post)
    → p + i * 4 ≡ m.g_begin + length pre
    → p + i * 4 + length fs * 4 ≤ 2 ^ 64
    → swap_nb_loop p i (length fs) m
      ≡ ok tt (with_bytes m (pre ++ (all_bytes (all_turned fs) ++ post)))
unfolding swap_nb_loop all_bytes all_turned
swap_nb_loop-turned [] m p i pre post e at fits = ap (λ (l : List ℕ). ok tt (with_bytes m l)) e
swap_nb_loop-turned (f ∷ fs) m p i pre post e at fits =
    let first = field_bytes (turned f) in
    let rest = all_bytes (all_turned fs) in
    let place : p ⊕ i * 4 ≡ m.g_begin + length pre = omega arith in
    step _ _ (
      swap_32-turned m (p ⊕ i * 4) pre (all_bytes fs ++ post) f
        (e ∙ ap (λ (l : List ℕ). pre ++ l) (append_assoc (field_bytes f) (all_bytes fs) post)) place
        (omega arith))
    ∙ swap_nb_loop-turned fs _ p (i + 1) (pre ++ first) post (sym (append_assoc pre first _))
        (omega (arith, length-append pre first, length-field_bytes (turned f))) (omega arith)
    ∙ ap (λ (l : List ℕ). ok tt (with_bytes m l))
        (append_assoc pre first _
          ∙ ap (λ (l : List ℕ). pre ++ l) (sym (append_assoc first rest post)))

-- Where the mapping holds any number of fields of 32 bits from `p` on, and the addresses do not wrap,
-- `swap_nb_32` turns the bytes of each of them round, and changes no other byte.
pub swap_nb_32-turned :
    (fs : List Field) (m : Machine) (p : Ptr) (pre post : List ℕ)
    → m.bytes ≡ pre ++ (all_bytes fs ++ post)
    → p ≡ m.g_begin + length pre
    → p + length fs * 4 ≤ 2 ^ 64
    → swap_nb_32 p (length fs) m ≡ ok tt (with_bytes m (pre ++ (all_bytes (all_turned fs) ++ post)))
unfolding swap_nb_32
swap_nb_32-turned fs m p pre post e at fits =
    swap_nb_loop-turned fs m p 0 pre post e (omega arith) (omega arith)
