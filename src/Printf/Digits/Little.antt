-- ===== src/Printf/Digits/Little.antt =====
-- The digits of a number in a base, by division with remainder, and their number.
use nm.Common.{
  ℕ, zero, suc, ◌+◌, ◌-◌, ◌*◌, ◌/◌, ◌%◌, ◌^◌, ◌≤◌, ◌<◌, ◌≡◌, ◌≢◌, refl, ap, ◌∙◌, List, [], ◌∷◌,
  ◌++◌, length, All, ltb, ◌==◌, if◌then◌else◌, arith, Bool-cases, inl, inr, ne→==,
}
use native.Mathlib.Nat.{pow-suc}
use nm.Printf.Digits.{nb_dg_loop}

-- At most `left` digits, the lowest first; none for 0.
unfoldable pub little : (base left n : ℕ) → List ℕ
little base zero n = []
little base (suc left) n =
    let rest = little base left (n / base) in if n == 0 then [] else n % base ∷ rest

-- The value of digits, the lowest first.
abbrev pub value : (base : ℕ) → List ℕ → ℕ
value base [] = 0
value base (d ∷ ds) = d + base * value base ds

-- Digits as chars, the highest first.
unfoldable pub spell : (letter : ℕ → ℕ) → List ℕ → List ℕ
spell letter [] = []
spell letter (d ∷ ds) = spell letter ds ++ (letter d ∷ [])

-- What the base has to meet: 10 and 16 do.
pub record IsBase (base : ℕ) : Type 0 where
  pub two : 2 ≤ base
  pub halves : (n : ℕ) → 2 * (n / base) ≤ n
  pub divides : (n : ℕ) → n % base + base * (n / base) ≡ n
  pub remains : (n : ℕ) → n % base < base
  pub small : (n : ℕ) → n < base → n / base ≡ 0
  pub large : (n : ℕ) → base ≤ n → 1 ≤ n / base

pub ten_IsBase : IsBase 10
ten_IsBase = record {
  two = omega arith;
  halves = λ n. omega arith;
  divides = λ n. omega arith;
  remains = λ n. omega arith;
  small = λ n h. omega arith;
  large = λ n h. omega arith;
}

pub sixteen_IsBase : IsBase 16
sixteen_IsBase = record {
  two = omega arith;
  halves = λ n. omega arith;
  divides = λ n. omega arith;
  remains = λ n. omega arith;
  small = λ n h. omega arith;
  large = λ n h. omega arith;
}

pub little-zero : (base left : ℕ) → little base left 0 ≡ []
unfolding little
little-zero base zero = refl
little-zero base (suc left) = refl

pub little_end : (base n : ℕ) → little base 0 n ≡ []
unfolding little
little_end base n = refl

pub little-pos :
    (base left n : ℕ) → n ≢ 0 → little base (suc left) n ≡ n % base ∷ little base left (n / base)
unfolding little
little-pos base left n h = rw (ne→== n 0 h) refl

module _ (base : ℕ) (b : IsBase base) where
  -- The digits have the number for their value, if there are enough of them.
  pub value-little : (left n : ℕ) → n < 2 ^ left → value base (little base left n) ≡ n
  value-little zero n h = rw (little_end base n) (omega arith)
  value-little (suc left) n h = elim (Bool-cases (n == 0)) [
    | inl z ↦ let e : n ≡ 0 = ground arith in rw (e, little-zero base (suc left)) refl
    | inr nz ↦
        let half = b.halves n in
        let power = pow-suc 2 left in
        rw (little-pos base left n (ground arith)) (
          ap (λ (k : ℕ). n % base + base * k)
            (value-little left (n / base) (omega (arith, half, power)))
          ∙ b.divides n)
  ]

  pub All-little : (left n : ℕ) → All (λ d. d < base) (little base left n)
  All-little zero n = rw (little_end base n) tt
  All-little (suc left) n = elim (Bool-cases (n == 0)) [
    | inl z ↦ let e : n ≡ 0 = ground arith in rw (e, little-zero base (suc left)) tt
    | inr nz ↦ rw (little-pos base left n (ground arith)) (b.remains n, All-little left (n / base))
  ]

  -- `nb_dg_inbase` counts them.
  pub nb_dg_loop-little :
      (left n i : ℕ)
      → n ≢ 0
      → n < 2 ^ left
      → nb_dg_loop base left n i + 1 ≡ i + length (little base left n)
  unfolding nb_dg_loop
  nb_dg_loop-little zero n i nz h = absurd (omega arith)
  nb_dg_loop-little (suc left) n i nz h =
      let half = b.halves n in
      let power = pow-suc 2 left in
      rw (little-pos base left n nz) (elim (Bool-cases (ltb (base - 1) n)) [
        | inl more ↦
            let large = b.large n (let t = b.two in ground arith) in
            rw more (
              nb_dg_loop-little left (n / base) (i + 1) (omega (arith, large))
                (omega (arith, half, power))
              ∙ omega arith)
        | inr last ↦
            rw (last, b.small n (let t = b.two in ground arith), little-zero base left)
              (omega arith)
      ])

  -- The highest digit is not 0.
  pub little-top :
      (left n : ℕ)
      → n ≢ 0
      → n < 2 ^ left
      → (ds : List ℕ) × (t : ℕ) × (little base left n ≡ ds ++ (t ∷ [])) × (t ≢ 0) × (t < base)
  little-top zero n nz h = absurd (omega arith)
  little-top (suc left) n nz h =
      let half = b.halves n in
      let power = pow-suc 2 left in
      elim (Bool-cases (n / base == 0)) [
        | inl last ↦
            let e : n / base ≡ 0 = ground arith in
            let whole = b.divides n in
            (
              [],
              n % base,
              little-pos base left n nz ∙ rw (e, little-zero base left) refl,
              λ z. nz (let no : 0 + base * 0 ≡ n = rw (z, e) at whole in omega (arith, no)),
              b.remains n,
            )
        | inr more ↦
            let (ds, t, e, tz, tb) =
              little-top left (n / base) (ground arith) (omega (arith, half, power)) in
            (
              n % base ∷ ds,
              t,
              little-pos base left n nz ∙ ap (λ (l : List ℕ). n % base ∷ l) e,
              tz,
              tb,
            )
      ]
