-- ===== src/Common/Bits.antt =====
-- Bitwise operations on numbers that are split in two at a bit: they work on both parts apart.
use Prim.Native.Nat.{
  ℕ, zero, suc, ◌+◌, ◌-◌, ◌*◌, ◌/◌, ◌%◌, ◌^◌, ◌≤◌, ◌<◌, min, max, bit_and, bit_or, digits, bitwise,
  bit_and-bitwise, bit_or-bitwise,
}
use Prim.Native.Nat.add
use mathlib.Core.Path.{◌≡◌, refl, ap, ◌∙◌}
use native.Mathlib.Nat.{pow-suc, mul-one, add-zero}
use native.Mathlib.Omega.{arith}

-- The library defines an operation on digits with fuel; more fuel than the number changes nothing.
module _ (alone : ℕ → ℕ) (both : ℕ → ℕ → ℕ) where
  digits-suc : (n a b : ℕ) → a ≤ n → digits alone both (suc n) a b ≡ digits alone both n a b
  digits-suc zero zero b h = refl
  digits-suc zero (suc a) b h = absurd (omega arith)
  digits-suc (suc n) zero b h = refl
  digits-suc (suc n) (suc a) b h =
      ap (λ (t : ℕ). t * 2 + both (suc a % 2) (b % 2))
        (digits-suc n (suc a / 2) (b / 2) (omega arith))

  -- The fuel is `a` and the rest `k`, counted down one at a time.
  digits-add : (k a b : ℕ) → digits alone both (k + a) a b ≡ digits alone both a a b
  digits-add zero a b = rw (add.zero a)
  digits-add (suc k) a b =
      rw (add.suc k a) (digits-suc (k + a) a b (omega arith) ∙ digits-add k a b)

  digits-eq : (n a b : ℕ) → a ≤ n → digits alone both n a b ≡ digits alone both a a b
  digits-eq n a b h =
      let e : n ≡ n - a + a = omega arith in
      ap (λ (k : ℕ). digits alone both k a b) e ∙ digits-add (n - a) a b

  bitwise-digit :
      (a b : ℕ)
      → bitwise alone both (suc a) b
        ≡ bitwise alone both (suc a / 2) (b / 2) * 2 + both (suc a % 2) (b % 2)
  bitwise-digit a b =
      ap (λ (t : ℕ). t * 2 + both (suc a % 2) (b % 2))
        (digits-eq a (suc a / 2) (b / 2) (omega arith))

bit_or-digit : (a b : ℕ) → bit_or a b ≡ bit_or (a / 2) (b / 2) * 2 + max (a % 2) (b % 2)
bit_or-digit zero b = simp bit_or-bitwise (omega arith)
bit_or-digit (suc a) b = simp bit_or-bitwise (bitwise-digit (λ y. y) max a b)

bit_and-digit : (a b : ℕ) → bit_and a b ≡ bit_and (a / 2) (b / 2) * 2 + min (a % 2) (b % 2)
bit_and-digit zero b = simp bit_and-bitwise (omega arith)
bit_and-digit (suc a) b = simp bit_and-bitwise (bitwise-digit (λ y. 0) min a b)

double-mul : (q k : ℕ) → q * 2 ^ suc k ≡ 2 * (q * 2 ^ k)
double-mul q k = omega (arith, ap (λ (t : ℕ). q * t) (pow-suc 2 k))

pub bit_and-split :
    (k a b c d : ℕ)
    → c < 2 ^ k
    → d < 2 ^ k
    → bit_and (a * 2 ^ k + c) (b * 2 ^ k + d) ≡ bit_and a b * 2 ^ k + bit_and c d
bit_and-split zero a b c d hc hd =
    let c0 : c ≡ 0 = omega arith in
    let d0 : d ≡ 0 = omega arith in
    rw (c0, d0) (ground (arith, mul-one a, mul-one b, add-zero a, add-zero b))
bit_and-split (suc k) a b c d hc hd = ground (
  arith,
  bit_and-digit (a * 2 ^ suc k + c) (b * 2 ^ suc k + d),
  bit_and-digit c d,
  double-mul a k,
  double-mul b k,
  double-mul (bit_and a b) k,
  pow-suc 2 k,
  bit_and-split k a b (c / 2) (d / 2) (omega (arith, pow-suc 2 k)) (omega (arith, pow-suc 2 k)),
)

pub bit_or-split :
    (k a b c d : ℕ)
    → c < 2 ^ k
    → d < 2 ^ k
    → bit_or (a * 2 ^ k + c) (b * 2 ^ k + d) ≡ bit_or a b * 2 ^ k + bit_or c d
bit_or-split zero a b c d hc hd =
    let c0 : c ≡ 0 = omega arith in
    let d0 : d ≡ 0 = omega arith in
    rw (c0, d0) (ground (arith, mul-one a, mul-one b, add-zero a, add-zero b))
bit_or-split (suc k) a b c d hc hd = ground (
  arith,
  bit_or-digit (a * 2 ^ suc k + c) (b * 2 ^ suc k + d),
  bit_or-digit c d,
  double-mul a k,
  double-mul b k,
  double-mul (bit_or a b) k,
  pow-suc 2 k,
  bit_or-split k a b (c / 2) (d / 2) (omega (arith, pow-suc 2 k)) (omega (arith, pow-suc 2 k)),
)
