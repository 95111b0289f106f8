-- ===== src/Libft/Output/Number.antt =====
-- The digits that ft_putnbr_fd writes.
use mathlib.Core.List.{map-append}
use native.Mathlib.Nat.{pow-suc}
use nm.Common.{
  ℕ, zero, suc, ◌+◌, ◌/◌, ◌%◌, ◌^◌, ◌<◌, ◌≡◌, ◌≢◌, refl, sym, ap, ◌∙◌, true, false, some, List, [],
  ◌∷◌, ◌++◌, map, ltb, if◌then◌else◌, arith, Bool-cases, inl, inr,
}
use nm.Common.Int.{ℤ, pos, negsuc, is_neg}
use nm.Printf.Digits.Little.{little, little-zero, little-pos, spell}
use nm.Printf.Digits.Unmax.{decimal, decimal_numeral}
use nm.Printf.Itoa.{magnitude}
use nm.Printf.Itoa.Numeral.{Fits, signed_numeral, decimal_numeral-suc}
use nm.Libft.Output.{Write, ft_putchar_fd, putnbr_rounds, ft_putnbr_fd}

-- A string that is written char by char.
abbrev pub each : (fd : ℤ) → List ℕ → List Write
each fd s = map (λ c. record { fd = fd; char = c }) s

-- Enough rounds give the same digits.
little_enough : (l l' n : ℕ) → n < 2 ^ l → n < 2 ^ l' → little 10 l n ≡ little 10 l' n
little_enough l l' zero h h' = little-zero 10 l ∙ sym (little-zero 10 l')
little_enough zero l' (suc n) h h' = absurd (omega arith)
little_enough (suc l) zero (suc n) h h' = absurd (omega arith)
little_enough (suc l) (suc l') (suc n) h h' =
    let p = pow-suc 2 l in
    let p' = pow-suc 2 l' in
    little-pos 10 l (suc n) (omega arith)
    ∙ ap (λ ds. suc n % 10 ∷ ds)
        (little_enough l l' (suc n / 10) (omega (arith, p)) (omega (arith, p')))
    ∙ sym (little-pos 10 l' (suc n) (omega arith))

decimal_numeral-pos : (n : ℕ) → n ≢ 0 → decimal_numeral n ≡ decimal (little 10 64 n)
decimal_numeral-pos zero h = absurd (h refl)
decimal_numeral-pos (suc n) h = decimal_numeral-suc n

decimal-cons : (d : ℕ) (ds : List ℕ) → decimal (d ∷ ds) ≡ decimal ds ++ ((d + b'0') ∷ [])
unfolding spell
decimal-cons d ds = refl

decimal_numeral-one : (d : ℕ) → d < 10 → decimal_numeral d ≡ (d + b'0') ∷ []
unfolding decimal_numeral spell
decimal_numeral-one zero h = refl
decimal_numeral-one (suc d) h =
    let none_left : suc d / 10 ≡ 0 = omega arith in
    let same : suc d % 10 ≡ suc d = omega arith in
    decimal_numeral-suc d
    ∙ ap decimal (little-pos 10 63 (suc d) (omega arith))
    ∙ rw (none_left, same, little-zero 10 63) refl

-- The last digit of a numeral, and the others.
decimal_numeral-low :
    (n : ℕ)
    → 9 < n
    → n < 2 ^ 32
    → decimal_numeral n ≡ decimal_numeral (n / 10) ++ decimal_numeral (n % 10)
decimal_numeral-low n big h =
    decimal_numeral-pos n (omega arith)
    ∙ ap decimal (
        little-pos 10 63 n (omega arith)
        ∙ ap (λ ds. n % 10 ∷ ds) (little_enough 63 64 (n / 10) (omega arith) (omega arith)))
    ∙ decimal-cons (n % 10) (little 10 64 (n / 10))
    ∙ rw (decimal_numeral-pos (n / 10) (omega arith), decimal_numeral-one (n % 10) (omega arith))
        refl

putnbr-one :
    (depth n : ℕ) (z fd : ℤ)
    → magnitude 32 z ≡ n
    → n < 10
    → putnbr_rounds (suc depth) z fd
      ≡ some ((if is_neg z then ft_putchar_fd b'-' fd else []) ++ each fd (decimal_numeral n))
unfolding putnbr_rounds
putnbr-one depth n z fd e h =
    let one : ltb 9 n ≡ false = ground arith in rw (e, one, decimal_numeral-one n h) refl

putnbr-digit :
    (depth n : ℕ) (fd : ℤ)
    → n < 10
    → putnbr_rounds (suc depth) (pos n) fd ≡ some (each fd (decimal_numeral n))
putnbr-digit depth n fd h = putnbr-one depth n (pos n) fd (omega arith) h

-- What a call leaves to the calls for the digits in front and for the last.
putnbr-both :
    (depth n : ℕ) (z fd : ℤ) {high low : List Write}
    → magnitude 32 z ≡ n
    → 9 < n
    → putnbr_rounds depth (pos (n / 10)) fd ≡ some high
    → putnbr_rounds depth (pos (n % 10)) fd ≡ some low
    → putnbr_rounds (suc depth) z fd
      ≡ some ((if is_neg z then ft_putchar_fd b'-' fd else []) ++ (high ++ low))
unfolding putnbr_rounds
putnbr-both depth n z fd e big high low =
    let two : ltb 9 n ≡ true = ground arith in rw (e, two, high, low) refl

each-low :
    (fd : ℤ) (n : ℕ)
    → 9 < n
    → n < 2 ^ 32
    → each fd (decimal_numeral (n / 10)) ++ each fd (decimal_numeral (n % 10))
      ≡ each fd (decimal_numeral n)
each-low fd n big h =
    sym (map-append (λ c. record { fd = fd; char = c }) (decimal_numeral (n / 10)) _)
    ∙ ap (each fd) (sym (decimal_numeral-low n big h))

putnbr-decimal_numeral :
    (depth n : ℕ) (fd : ℤ)
    → n < 2 ^ depth
    → n < 2 ^ 32
    → putnbr_rounds (suc depth) (pos n) fd ≡ some (each fd (decimal_numeral n))
putnbr-decimal_numeral zero n fd h small = putnbr-digit 0 n fd (omega arith)
putnbr-decimal_numeral (suc depth) n fd h small = elim (Bool-cases (ltb 9 n)) [
  | inl big ↦
      let power = pow-suc 2 depth in
      putnbr-both (suc depth) n (pos n) fd (omega arith) (ground arith)
        (putnbr-decimal_numeral depth (n / 10) fd (omega (arith, power)) (omega arith))
        (putnbr-digit depth (n % 10) fd (omega arith))
      ∙ ap some (each-low fd n (ground arith) small)
  | inr one ↦ putnbr-digit (suc depth) n fd (ground arith)
]

-- For every int, the calls of `ft_putnbr_fd` end, and it writes the decimal numeral of the number to the descriptor, char by char and with a '-' in front of a negative one.
pub ft_putnbr_fd-signed_numeral :
    (n fd : ℤ) → Fits 31 n → ft_putnbr_fd n fd ≡ some (each fd (signed_numeral n))
unfolding ft_putnbr_fd
ft_putnbr_fd-signed_numeral (pos n) fd h = putnbr-decimal_numeral 31 n fd h (omega arith)
ft_putnbr_fd-signed_numeral (negsuc n) fd h = elim (Bool-cases (ltb n 9)) [
  | inl one ↦ putnbr-one 31 (suc n) (negsuc n) fd (omega arith) (ground arith)
  | inr big ↦
      putnbr-both 31 (suc n) (negsuc n) fd (omega arith) (ground arith)
        (putnbr-decimal_numeral 30 (suc n / 10) fd (omega arith) (omega arith))
        (putnbr-digit 30 (suc n % 10) fd (omega arith))
      ∙ ap (λ (w : List Write). some (ft_putchar_fd b'-' fd ++ w))
          (each-low fd (suc n) (ground arith) (omega arith))
]
