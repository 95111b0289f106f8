-- ===== src/Machine/Words.antt =====
-- Words in memory: the bytes of a number, and a write of them.
use mathlib.Core.List.{append_assoc}
use native.Mathlib.Nat.{pow-suc}
use nm.Common.{
  ℕ, zero, suc, ◌+◌, ◌/◌, ◌%◌, ◌^◌, ◌<◌, ◌≡◌, refl, sym, ap, ◌∙◌, List, [], ◌∷◌, ◌++◌, length,
  length-append, arith,
}
use nm.Machine.{Machine, Ptr, ok, ◌⊕◌, write_le}
use nm.Machine.Access.{with_bytes, write8-middle, le_value}
use nm.Machine.Steps.{step}

-- The bytes of a number, the lowest first.
unfoldable pub le_bytes : (n v : ℕ) → List ℕ
le_bytes zero v = []
le_bytes (suc n) v = v % 256 ∷ le_bytes n (v / 256)

pub length-le_bytes : (n v : ℕ) → length (le_bytes n v) ≡ n
unfolding le_bytes
length-le_bytes zero v = refl
length-le_bytes (suc n) v = ap suc (length-le_bytes n (v / 256))

pub le_value-le_bytes : (n v : ℕ) → v < 256 ^ n → le_value (le_bytes n v) ≡ v
unfolding le_bytes
le_value-le_bytes zero v h = omega arith
le_value-le_bytes (suc n) v h =
    let power = pow-suc 256 n in
    let rest = le_value-le_bytes n (v / 256) (omega (arith, power)) in omega (arith, rest)

pub write_le-middle :
    (n : ℕ) (m : Machine) (p : Ptr) (v : ℕ) (xs bs ys : List ℕ)
    → length bs ≡ n
    → p ≡ m.g_begin + length xs
    → m.bytes ≡ xs ++ (bs ++ ys)
    → p + n < 2 ^ 64
    → write_le n p v m ≡ ok tt (with_bytes m (xs ++ (le_bytes n v ++ ys)))
unfolding write_le le_bytes
write_le-middle zero m p v xs [] ys size at e fits = ap (λ (l : List ℕ). ok tt (with_bytes m l)) e
write_le-middle zero m p v xs (b ∷ bs) ys size at e fits = absurd (omega arith)
write_le-middle (suc n) m p v xs [] ys size at e fits = absurd (omega arith)
write_le-middle (suc n) m p v xs (b ∷ bs) ys size at e fits =
    step _ _ (write8-middle m p xs (bs ++ ys) at b (v % 256) e)
    ∙ write_le-middle n (with_bytes m (xs ++ (v % 256 ∷ (bs ++ ys)))) (p ⊕ 1) (v / 256)
        (xs ++ (v % 256 ∷ [])) bs ys (omega arith) (omega (arith, length-append xs (v % 256 ∷ [])))
        (sym (append_assoc xs (v % 256 ∷ []) (bs ++ ys))) (omega arith)
    ∙ ap (λ (l : List ℕ). ok tt (with_bytes m l))
        (append_assoc xs (v % 256 ∷ []) (le_bytes n (v / 256) ++ ys))
