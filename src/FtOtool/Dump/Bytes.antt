-- ===== src/FtOtool/Dump/Bytes.antt =====
-- What `hexdump_data` and `hexdump_address` print where the bytes are known.
use mathlib.Core.Path.{subst}
use mathlib.Core.List.{append_assoc, reverse-cons}
use nm.Common.{
  ℕ, zero, suc, ◌+◌, ◌^◌, ◌%◌, ◌≤◌, ◌<◌, ◌≡◌, refl, sym, ap, ◌∙◌, ◌⊎◌, inl, inr, Bool, false, List,
  [], ◌∷◌, ◌++◌, map, reverse, ◌==◌, if◌then◌else◌, arith, length, length-append, eq→==, ne→==,
}
use nm.Machine.{Machine, Ptr, ok, ◌⊕◌}
use nm.Machine.Access.{read8-middle}
use nm.Machine.Steps.{step}
use nm.FtOtool.Dump.{
  put_byte, put_byte_space, address_loop, hexdump_address, data_loop, hexdump_data,
}

-- The bytes of a line: `left` of them, or fewer where the section ends first.
pub record IsLine (place size left : ℕ) (bs : List ℕ) : Type 0 where
  pub inside : place + length bs ≤ size
  pub short : length bs ≤ left
  pub ends : (length bs ≡ left) ⊎ (place + length bs ≡ size)

IsLine-next :
    (place size left b : ℕ) (bs : List ℕ)
    → IsLine place size (suc left) (b ∷ bs)
    → IsLine (place + 1) size left bs
IsLine-next place size left b bs l = record {
  inside = let h = l.inside in omega arith;
  short = let h = l.short in omega arith;
  ends = elim l.ends [ inl e ↦ inl (omega arith) | inr e ↦ inr (omega arith) ];
}

module _ (m : Machine) (add i size : ℕ) (fits : size < 2 ^ 64) where
  data_loop-IsLine :
      (bs pre post : List ℕ) (j left : ℕ)
      → m.bytes ≡ pre ++ (bs ++ post)
      → add + j ≡ m.g_begin + length pre
      → add + j + length bs < 2 ^ 64
      → IsLine (j + i) size left bs
      → data_loop add i size j left m ≡ ok (map put_byte_space bs) m
  unfolding data_loop
  data_loop-IsLine [] pre post j zero e at h l = refl
  data_loop-IsLine [] pre post j (suc left) e at h l =
      let inside = l.inside in
      let at_end : (j + i) % 2 ^ 64 ≡ size = elim l.ends [
        | inl e ↦ absurd (omega arith)
        | inr e ↦ omega arith
      ] in
      rw (eq→== _ _ at_end) refl
  data_loop-IsLine (b ∷ bs) pre post j zero e at h l = absurd (let s = l.short in omega arith)
  data_loop-IsLine (b ∷ bs) pre post j (suc left) e at h l =
      let inside = l.inside in
      let more : ((j + i) % 2 ^ 64 == size) ≡ false = ne→== _ _ (omega arith) in
      let place : add ⊕ j ≡ m.g_begin + length pre = omega arith in
      let one_on : j + i + 1 ≡ j + 1 + i = omega arith in
      rw more (
        step _ _ (read8-middle m (add ⊕ j) pre (bs ++ post) place b e)
        ∙ step _ _ (
            data_loop-IsLine bs (pre ++ (b ∷ [])) post (j + 1) left
              (e ∙ sym (append_assoc pre (b ∷ []) (bs ++ post)))
              (omega (arith, length-append pre (b ∷ []))) (omega arith)
              (subst (λ (k : ℕ). IsLine k size left bs) one_on
                (IsLine-next (j + i) size left b bs l))))

-- A line of `hexdump_data`: where the bytes from `add` on are known and the addresses do not wrap, it
-- prints them in order and changes nothing: 16 of them, or as many as the section has left at `i`.
pub hexdump_data-IsLine :
    (m : Machine) (add i size : ℕ) (pre bs post : List ℕ)
    → size < 2 ^ 64
    → m.bytes ≡ pre ++ (bs ++ post)
    → add ≡ m.g_begin + length pre
    → add + length bs < 2 ^ 64
    → IsLine i size 16 bs
    → hexdump_data add i size m ≡ ok (map put_byte_space bs) m
unfolding hexdump_data
hexdump_data-IsLine m add i size pre bs post fits e at h l =
    let from_start : i ≡ 0 + i = omega arith in
    data_loop-IsLine m add i size fits bs pre post 0 16 e (omega arith) (omega arith)
      (subst (λ (k : ℕ). IsLine k size 16 bs) from_start l)

pub length-reverse : (xs : List ℕ) → length (reverse xs) ≡ length xs
length-reverse [] = refl
length-reverse (x ∷ xs) =
    ap length (reverse-cons x xs)
    ∙ omega (arith, length-append (reverse xs) (x ∷ []), length-reverse xs)

address_loop-reverse :
    (m : Machine) (add : Ptr) (bs pre post : List ℕ)
    → m.bytes ≡ pre ++ (reverse bs ++ post)
    → add ≡ m.g_begin + length pre
    → add + length bs ≤ 2 ^ 64
    → address_loop add (length bs) m ≡ ok (map put_byte bs) m
unfolding address_loop
address_loop-reverse m add [] pre post e at h = refl
address_loop-reverse m add (b ∷ bs) pre post e at h =
    let split : m.bytes ≡ pre ++ (reverse bs ++ (b ∷ post)) =
      e
      ∙ ap (λ (l : List ℕ). pre ++ (l ++ post)) (reverse-cons b bs)
      ∙ ap (λ (l : List ℕ). pre ++ l) (append_assoc (reverse bs) (b ∷ []) post) in
    let place : add ⊕ length bs ≡ m.g_begin + length (pre ++ reverse bs) =
      omega (arith, length-append pre (reverse bs), length-reverse bs) in
    step _ _ (
      read8-middle m (add ⊕ length bs) (pre ++ reverse bs) post place b
        (split ∙ sym (append_assoc pre (reverse bs) (b ∷ post))))
    ∙ step _ _ (address_loop-reverse m add bs pre (b ∷ post) split at (omega arith))

-- Where a word of 8 bytes, or of 4, is known, and its addresses do not wrap, `hexdump_address` prints
-- its bytes from the last, which is the most significant, to the first, and changes nothing.
pub hexdump_address-reverse :
    (m : Machine) (add : Ptr) (is_64 : Bool) (bs pre post : List ℕ)
    → length bs ≡ (if is_64 then 8 else 4)
    → m.bytes ≡ pre ++ (reverse bs ++ post)
    → add ≡ m.g_begin + length pre
    → add + length bs ≤ 2 ^ 64
    → hexdump_address add is_64 m ≡ ok (map put_byte bs) m
unfolding hexdump_address
hexdump_address-reverse m add is_64 bs pre post size e at h =
    rw (sym size) (address_loop-reverse m add bs pre post e at h)
