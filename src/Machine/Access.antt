-- ===== src/Machine/Access.antt =====
-- Reads and writes of the mapping at a place where its bytes are known.
use nm.Common.{
  get_elem?-middle, set-middle, drop-middle, ℕ, ◌+◌, ◌-◌, ◌*◌, ◌^◌, ◌<◌, length-append, ◌≡◌, refl,
  ap, sym, ◌∙◌, false, some, List, [], ◌∷◌, ◌++◌, ltb, arith, length,
}
use nm.Machine.{Machine, Ptr, ok, look, ◌⊕◌, byte_at, string_at, read8, read_le, write8}
use nm.Machine.Steps.{step}
use mathlib.Core.List.{append_assoc}

-- `m` with other bytes in the mapping
abbrev pub with_bytes : Machine → List ℕ → Machine
with_bytes m xs = record m { bytes = xs }

module _ (m : Machine) (p : Ptr) (xs ys : List ℕ) (at : p ≡ m.g_begin + length xs) where
  byte_at-middle : (a : ℕ) → m.bytes ≡ xs ++ (a ∷ ys) → byte_at m p ≡ some a
  unfolding byte_at
  byte_at-middle a e =
      let inside : ltb p m.g_begin ≡ false = ground arith in
      let place : p - m.g_begin ≡ length xs = omega arith in
      rw (inside, place, e) (get_elem?-middle xs a ys)

  pub string_at-middle : m.bytes ≡ xs ++ ys → string_at m p ≡ ys
  unfolding string_at
  string_at-middle e =
      let inside : ltb p m.g_begin ≡ false = ground arith in
      let place : p - m.g_begin ≡ length xs = omega arith in
      rw (inside, place, e) (drop-middle xs ys)

  pub read8-middle : (a : ℕ) → m.bytes ≡ xs ++ (a ∷ ys) → read8 p m ≡ ok a m
  unfolding read8
  read8-middle a e = rw (byte_at-middle a e, read8, look)

  pub write8-middle :
      (a b : ℕ) → m.bytes ≡ xs ++ (a ∷ ys) → write8 p b m ≡ ok tt (with_bytes m (xs ++ (b ∷ ys)))
  unfolding write8
  write8-middle a b e =
      let place : p - m.g_begin ≡ length xs = omega arith in
      rw (byte_at-middle a e, write8, place, e)
        (ap (λ (l : List ℕ). ok tt (with_bytes m l)) (set-middle xs a b ys))

-- The bytes of a word, the lowest first, from `p` on.
module _ (m : Machine) (p : Ptr) (xs ys : List ℕ) (at : p ≡ m.g_begin + length xs) where
  next_place : (a : ℕ) → p + 1 < 2 ^ 64 → p ⊕ 1 ≡ m.g_begin + length (xs ++ (a ∷ []))
  next_place a h = omega (arith, length-append xs (a ∷ []))

-- The number with these bytes, the lowest first.
abbrev pub le_value : List ℕ → ℕ
le_value [] = 0
le_value (b ∷ bs) = b + 256 * le_value bs

pub read_le-middle :
    (m : Machine) (p : Ptr) (xs bs ys : List ℕ)
    → p ≡ m.g_begin + length xs
    → m.bytes ≡ xs ++ (bs ++ ys)
    → p + length bs < 2 ^ 64
    → read_le (length bs) p m ≡ ok (le_value bs) m
unfolding read_le
read_le-middle m p xs [] ys at e fits = refl
read_le-middle m p xs (b ∷ bs) ys at e fits =
    step _ _ (read8-middle m p xs (bs ++ ys) at b e)
    ∙ step _ _ (
        read_le-middle m (p ⊕ 1) (xs ++ (b ∷ [])) bs ys (next_place m p xs ys at b (omega arith))
          (e ∙ sym (append_assoc xs (b ∷ []) (bs ++ ys))) (omega arith))
