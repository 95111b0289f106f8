-- ===== src/Printf/Itoa/Read.antt =====
-- ft_atoi.c on the numerals of ft_itoa.c.
use mathlib.Core.List.{append_assoc}
use native.Mathlib.Nat.{pow-suc}
use nm.Common.{
  ℕ, zero, suc, ◌+◌, ◌-◌, ◌*◌, ◌/◌, ◌%◌, ◌^◌, ◌≤◌, ◌<◌, ◌≡◌, refl, sym, ap, ◌∙◌, true, false, ◌&&◌,
  some, List, [], ◌∷◌, ◌++◌, ltb, leb, ◌==◌, arith, Bool-cases, inl, inr,
}
use nm.Common.Int.{ℤ, pos, negsuc}
use nm.Libft.Numbers.{is_space, atoi_loop, atoi_result, atoi_signed, ft_atoi}
use nm.Printf.Digits.Little.{little, little-pos, little-top, spell, ten_IsBase}
use nm.Printf.Digits.Unmax.{decimal, decimal_numeral}
use nm.Printf.Digits.Base.{spell-snoc}
use nm.Printf.Itoa.{ft_itoa}
use nm.Printf.Itoa.Numeral.{Fits, ft_itoa-signed_numeral, decimal_numeral-suc}

atoi_loop-digit :
    (d n : ℕ) (rest : List ℕ)
    → d < 10
    → n * 10 + d < 2 ^ 63
    → atoi_loop ((d + b'0') ∷ rest) n ≡ atoi_loop rest (n * 10 + d)
unfolding atoi_loop
atoi_loop-digit d n rest h fits =
    let digit : (leb b'0' (d + b'0') && leb (d + b'0') b'9' && ltb n (2 ^ 63)) ≡ true =
      ground arith in
    let next : (n * 10 + (d + b'0') + (2 ^ 64 - b'0')) % 2 ^ 64 ≡ n * 10 + d = omega arith in
    rw (digit, next) refl

atoi_loop-end : (n : ℕ) → atoi_loop (0 ∷ []) n ≡ some n
unfolding atoi_loop
atoi_loop-end n = refl

-- The loop reads the digits of a number, the highest first.
atoi_loop-decimal :
    (left n : ℕ) (rest : List ℕ)
    → n < 2 ^ left
    → n < 2 ^ 63
    → atoi_loop (decimal (little 10 left n) ++ rest) 0 ≡ atoi_loop rest n
unfolding spell little
atoi_loop-decimal zero n rest h fits = ap (atoi_loop rest) (omega arith)
atoi_loop-decimal (suc left) n rest h fits = elim (Bool-cases (n == 0)) [
  | inl z ↦ let e : n ≡ 0 = ground arith in rw e refl
  | inr nz ↦
      let power = pow-suc 2 left in
      rw
        (
          little-pos 10 left n (ground arith),
          append_assoc (decimal (little 10 left (n / 10))) ((n % 10 + b'0') ∷ []) rest,
        )
        (atoi_loop-decimal left (n / 10) ((n % 10 + b'0') ∷ rest) (omega (arith, power))
            (omega arith)
          ∙ atoi_loop-digit (n % 10) (n / 10) rest (omega arith) (omega arith)
          ∙ ap (atoi_loop rest) (omega arith))
]

-- A numeral starts with a digit.
record Numeral (s : List ℕ) : Type 0 where
  first : ℕ
  others : List ℕ
  same : s ≡ first ∷ others
  least : b'0' ≤ first
  most : first ≤ b'9'

numeral : (n : ℕ) → n < 2 ^ 64 → Numeral (decimal_numeral n)
unfolding decimal_numeral
numeral zero h = record {
  first = b'0';
  others = [];
  same = refl;
  least = omega arith;
  most = omega arith;
}
numeral (suc n) h =
    let (ds, t, e, nz, small) = little-top 10 ten_IsBase 64 (suc n) (omega arith) h in
    record {
      first = t + b'0';
      others = decimal ds;
      same = decimal_numeral-suc n ∙ ap decimal e ∙ spell-snoc (λ d. d + b'0') ds t;
      least = omega arith;
      most = omega arith;
    }

atoi_loop-decimal_numeral :
    (n : ℕ) → n < 2 ^ 63 → atoi_loop (decimal_numeral n ++ (0 ∷ [])) 0 ≡ some n
unfolding decimal_numeral
atoi_loop-decimal_numeral zero h =
    atoi_loop-digit 0 0 (0 ∷ []) (omega arith) (omega arith) ∙ atoi_loop-end 0
atoi_loop-decimal_numeral (suc n) h =
    ap (λ (l : List ℕ). atoi_loop (l ++ (0 ∷ [])) 0) (decimal_numeral-suc n)
    ∙ atoi_loop-decimal 64 (suc n) (0 ∷ []) (omega arith) h
    ∙ atoi_loop-end (suc n)

atoi_signed-digit :
    (c : ℕ) (s : List ℕ) {n : ℕ}
    → b'0' ≤ c
    → atoi_loop (c ∷ s) 0 ≡ some n
    → atoi_signed (c ∷ s) ≡ some (atoi_result false n)
unfolding atoi_signed
atoi_signed-digit c s low e =
    let minus : (c == b'-') ≡ false = ground arith in
    let plus : (c == b'+') ≡ false = ground arith in
    rw (minus, plus, e, atoi_signed) (rw minus refl)

atoi_signed-minus :
    (s : List ℕ) {n : ℕ}
    → atoi_loop s 0 ≡ some n
    → atoi_signed (b'-' ∷ s) ≡ some (atoi_result true n)
unfolding atoi_signed
atoi_signed-minus s e = rw (e, atoi_signed) refl

ft_atoi-text : (c : ℕ) (s : List ℕ) → b'-' ≤ c → ft_atoi (c ∷ s) ≡ atoi_signed (c ∷ s)
unfolding ft_atoi
ft_atoi-text c s low = let text : is_space c ≡ false = ground arith in rw text refl

ft_atoi-numeral :
    (n : ℕ) → n < 2 ^ 63 → ft_atoi (decimal_numeral n ++ (0 ∷ [])) ≡ some (atoi_result false n)
ft_atoi-numeral n h =
    let d = numeral n (omega arith) in
    let same = ap (λ (l : List ℕ). l ++ (0 ∷ [])) d.same in
    let low = d.least in
    ap ft_atoi same
    ∙ ft_atoi-text d.first (d.others ++ (0 ∷ [])) (omega arith)
    ∙ atoi_signed-digit d.first (d.others ++ (0 ∷ [])) low
        (ap (λ (l : List ℕ). atoi_loop l 0) (sym same) ∙ atoi_loop-decimal_numeral n h)

-- What `ft_itoa` prints of an int, `ft_atoi` reads as the same int.
pub ft_atoi-ft_itoa :
    (z : ℤ) → Fits 31 z → (s : List ℕ) × (ft_itoa z ≡ some s) × (ft_atoi s ≡ some z)
unfolding atoi_result
ft_atoi-ft_itoa (pos n) h = (
  decimal_numeral n ++ (0 ∷ []),
  ft_itoa-signed_numeral (pos n) h,
  ft_atoi-numeral n (omega arith) ∙ ground arith,
)
ft_atoi-ft_itoa (negsuc n) h = (
  b'-' ∷ (decimal_numeral (suc n) ++ (0 ∷ [])),
  ft_itoa-signed_numeral (negsuc n) h,
  ft_atoi-text b'-' _ (omega arith)
      ∙ atoi_signed-minus _ (atoi_loop-decimal_numeral (suc n) (omega arith))
      ∙ ground arith,
)
