-- ===== src/Printf/Itoa/Numeral.antt =====
-- The chars that the functions of itoa_max.c and ft_itoa.c make of a signed number.
use mathlib.Core.Option
use nm.Common.{
  ℕ, zero, suc, ◌+◌, ◌/◌, ◌%◌, ◌^◌, ◌<◌, ◌≡◌, ◌≢◌, refl, sym, ap, ◌∙◌, Option, some, List, [], ◌∷◌,
  ◌++◌, length, arith, ne→==, Option-cases, inl, inr,
}
use nm.Common.Int.{ℤ, pos, negsuc}
use nm.Common.Options.{onward}
use nm.Libft.Buffer.{Buffer, malloc, store, written}
use nm.Libft.Buffer.Laws.{written-held_nul}
use nm.Printf.Digits.{nb_dg_loop, nb_dg_inbase, digits_loop, ft_itoa_unmax}
use nm.Printf.Digits.Little.{little, nb_dg_loop-little, ten_IsBase}
use nm.Printf.Digits.Unmax.{
  decimal, digits_loop-decimal, digits_loop-done, digits_loop-step, fresh-end, decimal_numeral,
  ft_itoa_unmax-decimal_numeral,
}
use nm.Printf.Itoa.{magnitude, nb_dg, nb_digit_itoa, itoa_into, ft_itoa_max, ft_itoa}

-- From -2 ^ w to 2 ^ w - 1.
abbrev pub Fits : (w : ℕ) → ℤ → Type 0
Fits w (pos n) = n < 2 ^ w
Fits w (negsuc n) = n < 2 ^ w

abbrev pub signed_numeral : ℤ → List ℕ
signed_numeral (pos n) = decimal_numeral n
signed_numeral (negsuc n) = b'-' ∷ decimal_numeral (suc n)

store-behind :
    (o : Option ℕ) (buf : Buffer) {buf' : Buffer} (i c : ℕ)
    → store buf i c ≡ some buf'
    → store (o ∷ buf) (suc i) c ≡ some (o ∷ buf')
unfolding store
store-behind o buf i c e = ground arith

digits_loop-out : (len n : ℕ) (buf : Buffer) → digits_loop 0 buf len n ≡ some buf
unfolding digits_loop
digits_loop-out len n buf = refl

no_place :
    (left n : ℕ) (buf : Buffer) {buf' : Buffer} → digits_loop (suc left) buf 0 (suc n) ≢ some buf'
unfolding digits_loop
no_place left n buf e = ground arith

first_digit :
    (left len n : ℕ) (buf : Buffer) {buf' : Buffer}
    → digits_loop (suc left) buf (suc len) (suc n) ≡ some buf'
    → (buf'' : Buffer) × (store buf len (suc n % 10 + b'0') ≡ some buf'')
      × (digits_loop left buf'' len (suc n / 10) ≡ some buf')
unfolding digits_loop
first_digit left len n buf e = elim (Option-cases (store buf len (suc n % 10 + b'0'))) [
  | inl f ↦ absurd (ground arith)
  | inr (buf'', f) ↦
      (buf'', f, sym (digits_loop-step left len (suc n) buf buf'' (omega arith) f) ∙ e)
]

-- Digits that are stored behind a char.
digits_loop-behind :
    (left len n : ℕ) (o : Option ℕ) (buf : Buffer) {buf' : Buffer}
    → digits_loop left buf len n ≡ some buf'
    → digits_loop left (o ∷ buf) (suc len) n ≡ some (o ∷ buf')
digits_loop-behind left len zero o buf e =
    digits_loop-done left (suc len) (o ∷ buf)
    ∙ ap (Option.map (λ (b : Buffer). o ∷ b)) (sym (digits_loop-done left len buf) ∙ e)
digits_loop-behind zero len (suc n) o buf e =
    digits_loop-out (suc len) (suc n) (o ∷ buf)
    ∙ ap (Option.map (λ (b : Buffer). o ∷ b)) (sym (digits_loop-out len (suc n) buf) ∙ e)
digits_loop-behind (suc left) zero (suc n) o buf e = absurd (no_place left n buf e)
digits_loop-behind (suc left) (suc len) (suc n) o buf e =
    let (buf'', f, rest) = first_digit left len n buf e in
    digits_loop-step left (suc len) (suc n) (o ∷ buf) (o ∷ buf'') (omega arith)
      (store-behind o buf len _ f)
    ∙ digits_loop-behind left len (suc n / 10) o buf'' rest

-- A '-' in front of the digits.
minus_first :
    (d : ℕ)
    → store (malloc (suc d) ++ (some 0 ∷ [])) 0 b'-'
      ≡ some (some b'-' ∷ (malloc d ++ (some 0 ∷ [])))
unfolding store
minus_first d = refl

itoa_into-negative :
    (n m : ℕ)
    → m ≢ 0
    → m < 2 ^ 64
    → itoa_into (nb_dg_loop 10 64 m 2) (negsuc n) m
      ≡ some (b'-' ∷ (decimal (little 10 64 m) ++ (0 ∷ [])))
unfolding itoa_into written
itoa_into-negative n m nz h =
    let ds = little 10 64 m in
    let count : nb_dg_loop 10 64 m 2 ≡ suc (length ds) =
      omega (arith, nb_dg_loop-little 10 ten_IsBase 64 m 2 nz h) in
    rw count (
      onward _ (fresh-end (suc (length ds)))
      ∙ onward _ (minus_first (length ds))
      ∙ onward _ (
          digits_loop-behind 64 (length ds) m (some b'-') _
            (digits_loop-decimal 64 (length ds) m (some 0 ∷ []) refl))
      ∙ ap (λ (l : List ℕ). some (b'-' ∷ l)) (written-held_nul (decimal ds) []))

-- For a number that is not negative the code is that of `ft_itoa_unmax`.
itoa_into-pos : (n : ℕ) → itoa_into (nb_dg_loop 10 64 n 1) (pos n) n ≡ ft_itoa_unmax n
unfolding itoa_into ft_itoa_unmax nb_dg_inbase
itoa_into-pos n = refl

pub decimal_numeral-suc : (n : ℕ) → decimal_numeral (suc n) ≡ decimal (little 10 64 (suc n))
unfolding decimal_numeral
decimal_numeral-suc n = rw (ne→== (suc n) 0 (omega arith)) refl

itoa_into-signed_numeral :
    (n m : ℕ)
    → m ≡ suc n
    → m < 2 ^ 64
    → itoa_into (nb_dg_loop 10 64 m 2) (negsuc n) m ≡ some (signed_numeral (negsuc n) ++ (0 ∷ []))
itoa_into-signed_numeral n m e h =
    itoa_into-negative n m (omega arith) h
    ∙ rw e (ap (λ (l : List ℕ). some (b'-' ∷ (l ++ (0 ∷ [])))) (sym (decimal_numeral-suc n)))

-- For every int, `ft_itoa` stays inside its buffer, and its result is the decimal numeral, with a '-' in front of
-- a negative number and no zero in front, and the NUL.
pub ft_itoa-signed_numeral : (z : ℤ) → Fits 31 z → ft_itoa z ≡ some (signed_numeral z ++ (0 ∷ []))
unfolding ft_itoa nb_digit_itoa
ft_itoa-signed_numeral (pos n) h =
    let whole : n % 2 ^ 32 ≡ n = omega arith in
    rw whole (itoa_into-pos n) ∙ ft_itoa_unmax-decimal_numeral n (omega arith)
ft_itoa-signed_numeral (negsuc n) h =
    itoa_into-signed_numeral n (magnitude 32 (negsuc n)) (omega arith) (omega arith)

-- The same for every intmax_t.
pub ft_itoa_max-signed_numeral :
    (z : ℤ) → Fits 63 z → ft_itoa_max z ≡ some (signed_numeral z ++ (0 ∷ []))
unfolding ft_itoa_max nb_dg
ft_itoa_max-signed_numeral (pos n) h =
    let whole : n % 2 ^ 64 ≡ n = omega arith in
    rw whole (itoa_into-pos n) ∙ ft_itoa_unmax-decimal_numeral n (omega arith)
ft_itoa_max-signed_numeral (negsuc n) h =
    itoa_into-signed_numeral n (magnitude 64 (negsuc n)) (omega arith) (omega arith)
