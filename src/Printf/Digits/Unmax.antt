-- ===== src/Printf/Digits/Unmax.antt =====
-- The loop of `ft_itoa_unmax` (itoa_max.c) and its buffer, by the digits of the number.
use mathlib.Core.List.{append-nil, append_assoc, map-append}
use nm.Common.{
  ℕ, zero, suc, ◌+◌, ◌/◌, ◌%◌, ◌^◌, ◌<◌, ◌≡◌, ◌≢◌, refl, sym, ap, ◌∙◌, none, some, List, [], ◌∷◌,
  ◌++◌, length, length-replicate, ◌==◌, if◌then◌else◌, arith, ne→==,
}
use nm.Common.Options.{onward}
use nm.Libft.Buffer.{Buffer, malloc, store, written}
use nm.Libft.Buffer.Laws.{held, store-at, written-held_nul, written-malloc, malloc-suc}
use nm.Printf.Digits.{nb_dg_loop, nb_dg_inbase, digits_loop, ft_itoa_unmax}
use nm.Printf.Digits.Little.{
  spell, little, little-zero, little-pos, little_end, nb_dg_loop-little, ten_IsBase,
}

abbrev pub decimal : List ℕ → List ℕ
decimal = spell (λ d. d + b'0')

pub digits_loop-done :
    (left len : ℕ) (number : Buffer) → digits_loop left number len 0 ≡ some number
unfolding digits_loop
digits_loop-done zero len number = refl
digits_loop-done (suc left) zero number = refl
digits_loop-done (suc left) (suc len) number = refl

pub digits_loop-step :
    (left len n : ℕ) (number number' : Buffer)
    → n ≢ 0
    → store number len (n % 10 + b'0') ≡ some number'
    → digits_loop (suc left) number (suc len) n ≡ digits_loop left number' len (n / 10)
unfolding digits_loop
digits_loop-step left len n number number' nz e = rw (ne→== n 0 nz, e) refl

pub length-malloc : (n : ℕ) → length (malloc n) ≡ n
length-malloc n = length-replicate n none

pub digits_loop-decimal :
    (left len n : ℕ) (tail : Buffer)
    → length (little 10 left n) ≡ len
    → digits_loop left (malloc len ++ tail) len n ≡ some (held (decimal (little 10 left n)) ++ tail)
unfolding spell digits_loop
digits_loop-decimal left len zero tail e =
    let none_left : len ≡ 0 = sym e ∙ ap length (little-zero 10 left) in
    rw (little-zero 10 left, none_left) (digits_loop-done left 0 tail)
digits_loop-decimal zero len (suc n) tail e =
    let none_left : len ≡ 0 = sym e ∙ ap length (little_end 10 (suc n)) in
    rw (little_end 10 (suc n), none_left) refl
digits_loop-decimal (suc left) zero (suc n) tail e =
    let more : suc (length (little 10 left (suc n / 10))) ≡ 0 =
      sym (ap length (little-pos 10 left (suc n) (omega arith))) ∙ e in
    absurd (omega arith)
digits_loop-decimal (suc left) (suc len) (suc n) tail e =
    let ds = little 10 left (suc n / 10) in
    let char = suc n % 10 + b'0' in
    let pos = little-pos 10 left (suc n) (omega arith) in
    let fewer : suc (length ds) ≡ suc len = sym (ap length pos) ∙ e in
    digits_loop-step left len (suc n) _ (malloc len ++ (some char ∷ tail)) (omega arith) (
      ap (λ (b : Buffer). store b len char) (malloc-suc len tail)
      ∙ store-at (malloc len) tail none len char (sym (length-malloc len)))
    ∙ digits_loop-decimal left len (suc n / 10) (some char ∷ tail) (omega arith)
    ∙ ap some (
        sym (append_assoc (held (decimal ds)) (some char ∷ []) tail)
        ∙ ap (λ (b : Buffer). b ++ tail) (sym (map-append some (decimal ds) (char ∷ [])))
        ∙ ap (λ (l : List ℕ). held (decimal l) ++ tail) (sym pos))

-- The digits as they are printed: '0' for 0.
unfoldable pub decimal_numeral : ℕ → List ℕ
decimal_numeral n = if n == 0 then b'0' ∷ [] else decimal (little 10 64 n)

pub fresh-end : (len : ℕ) → store (malloc (len + 1)) len 0 ≡ some (malloc len ++ (some 0 ∷ []))
fresh-end len =
    let one : len + 1 ≡ suc len = omega arith in
    ap (λ (n : ℕ). store (malloc n) len 0) one
    ∙ ap (λ (b : Buffer). store b len 0) (sym (append-nil (malloc (suc len))) ∙ malloc-suc len [])
    ∙ store-at (malloc len) [] none len 0 (sym (length-malloc len))

ft_itoa_unmax-zero : ft_itoa_unmax 0 ≡ some (b'0' ∷ 0 ∷ [])
unfolding ft_itoa_unmax nb_dg_inbase nb_dg_loop store digits_loop written
ft_itoa_unmax-zero = refl

ft_itoa_unmax-pos :
    (n : ℕ) → n ≢ 0 → n < 2 ^ 64 → ft_itoa_unmax n ≡ some (decimal (little 10 64 n) ++ (0 ∷ []))
unfolding ft_itoa_unmax nb_dg_inbase
ft_itoa_unmax-pos n nz h =
    let ds = little 10 64 n in
    let count : nb_dg_loop 10 64 n 1 ≡ length ds =
      omega (arith, nb_dg_loop-little 10 ten_IsBase 64 n 1 nz h) in
    rw (count, ne→== n 0 nz)
      (onward _ (fresh-end (length ds))
        ∙ onward _ (digits_loop-decimal 64 (length ds) n (some 0 ∷ []) refl)
        ∙ ap some (
            written-held_nul (decimal ds) []
            ∙ ap (λ (l : List ℕ). decimal ds ++ (0 ∷ l)) (written-malloc 0)))

-- For every `uintmax_t`, `ft_itoa_unmax` stays inside its buffer, and its result is the string of the
-- decimal digits of the number, with no zero in front, and the NUL.
pub ft_itoa_unmax-decimal_numeral :
    (n : ℕ) → n < 2 ^ 64 → ft_itoa_unmax n ≡ some (decimal_numeral n ++ (0 ∷ []))
unfolding decimal_numeral
ft_itoa_unmax-decimal_numeral zero h = ft_itoa_unmax-zero
ft_itoa_unmax-decimal_numeral (suc n) h =
    rw (ne→== (suc n) 0 (omega arith)) (ft_itoa_unmax-pos (suc n) (omega arith) h)
