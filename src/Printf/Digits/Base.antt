-- ===== src/Printf/Digits/Base.antt =====
-- `ft_convert_base` as a whole, from decimal to a base of 16, and `itoa_hex`.
use mathlib.Core.List.{append-nil}
use nm.Common.{
  ℕ, zero, suc, ◌+◌, ◌-◌, ◌^◌, ◌≤◌, ◌<◌, ◌≡◌, ◌≢◌, refl, sym, ap, ◌∙◌, some, List, [], ◌∷◌, ◌++◌,
  map, reverse, length, length-map, All, ◌==◌, if◌then◌else◌, arith, ne→==,
}
use native.Mathlib.Nat.{zero-add}
use nm.Common.Ends.{ends}
use nm.Common.Options.{onward}
use nm.Libft.Strings.{ft_strlen}
use nm.Libft.Buffer.{malloc, store, written}
use nm.Libft.Buffer.Laws.{held, store-next, written-held, written-malloc}
use nm.Printf.Digits.{
  nb_dg_loop, nb_dg_inbase, base_length, value_loop, delete_zeros, reverse_delect_first_zeros,
  ft_convert_base, ft_itoa_unmax, decimal_digits, hex_digits, hex_capitals, itoa_hex,
  position_in_base, digits_loop,
}
use nm.Printf.Digits.Little.{
  value, spell, little, little-top, value-little, All-little, nb_dg_loop-little, ten_IsBase,
  sixteen_IsBase,
}
use nm.Printf.Digits.Unmax.{decimal, decimal_numeral, ft_itoa_unmax-decimal_numeral}
use nm.Printf.Digits.Turn.{reverse_loop-Ends}
use nm.Printf.Digits.Alphabet.{
  IsAlphabet, decimal_IsAlphabet, hex_IsAlphabet, capital_IsAlphabet, hex_letter, capital_letter,
}
use nm.Printf.Digits.Convert.{
  value_loop-spell, convert_loop-little, spell-reverse, ft_strlen-letters, length-little-le,
}

pub spell-snoc :
    (letter : ℕ → ℕ) (ds : List ℕ) (t : ℕ)
    → spell letter (ds ++ (t ∷ [])) ≡ letter t ∷ spell letter ds
unfolding spell
spell-snoc letter [] t = refl
spell-snoc letter (d ∷ ds) t = ap (λ (l : List ℕ). l ++ (letter d ∷ [])) (spell-snoc letter ds t)

value_loop-end : (chars : List ℕ) (base v : ℕ) → value_loop chars base (0 ∷ []) v ≡ some v
unfolding value_loop
value_loop-end chars base v = refl

-- A decimal numeral is read back as the number.
pub value_loop-decimal :
    (n : ℕ)
    → n < 2 ^ 64
    → value_loop decimal_digits 10 (decimal (little 10 64 n) ++ (0 ∷ [])) 0 ≡ some n
value_loop-decimal n h =
    let same = value-little 10 ten_IsBase 64 n h in
    value_loop-spell 10 decimal_digits _ decimal_IsAlphabet (little 10 64 n) (0 ∷ [])
      (All-little 10 ten_IsBase 64 n) (rw same h)
    ∙ value_loop-end decimal_digits 10 (value 10 (little 10 64 n))
    ∙ ap some same

module _ (chars : List ℕ) (letter : ℕ → ℕ) (α : IsAlphabet 16 chars letter) where
  delete_zeros-top :
      (t : ℕ) (tab : List ℕ)
      → t < 16
      → t ≢ 0
      → delete_zeros chars (letter t ∷ tab) ≡ some (letter t ∷ tab)
  unfolding delete_zeros
  delete_zeros-top zero tab h nz = absurd (nz refl)
  delete_zeros-top (suc t) tab h nz = onward _ (α.position (suc t) h)

  -- What is written, turned round, is the numeral.
  reverse_delect-spell :
      (ds : List ℕ) (t k : ℕ) (all : List ℕ)
      → all ≡ ds ++ (t ∷ [])
      → All (λ d. d < 16) all
      → t < 16
      → t ≢ 0
      → reverse_delect_first_zeros (held (map letter all ++ (0 ∷ [])) ++ malloc k) chars
        ≡ some (spell letter all ++ (0 ∷ []))
  unfolding reverse_delect_first_zeros
  reverse_delect-spell ds t k all e digits tb tz =
      let ls = map letter all in
      let string = λ (l : List ℕ).
        written-held (l ++ (0 ∷ [])) (malloc k)
        ∙ ap (λ (w : List ℕ). (l ++ (0 ∷ [])) ++ w) (written-malloc k)
        ∙ append-nil (l ++ (0 ∷ [])) in
      let top : spell letter all ≡ letter t ∷ spell letter ds =
        ap (spell letter) e ∙ spell-snoc letter ds t in
      onward _ (ap ft_strlen (string ls) ∙ ft_strlen-letters 16 chars letter α all [] digits)
      ∙ onward _ (
          reverse_loop-Ends (length ls) 0 (length ls) [] (0 ∷ []) (malloc k) (ends ls) refl
            (omega arith) (omega arith))
      ∙ ap (delete_zeros chars) (
          string (reverse ls)
          ∙ ap (λ (l : List ℕ). l ++ (0 ∷ [])) (sym (spell-reverse 16 chars letter α all) ∙ top))
      ∙ delete_zeros-top t (spell letter ds ++ (0 ∷ [])) tb tz
      ∙ ap (λ (l : List ℕ). some (l ++ (0 ∷ []))) (sym top)

  ft_convert_base-spell :
      (n : ℕ)
      → n ≢ 0
      → n < 2 ^ 64
      → ft_convert_base (decimal (little 10 64 n) ++ (0 ∷ [])) decimal_digits chars
        ≡ some (spell letter (little 16 64 n) ++ (0 ∷ []))
  unfolding ft_convert_base nb_dg_inbase
  ft_convert_base-spell n nz h =
      let short = length (little 16 64 n) in
      let long = length (little 10 64 n) in
      let le : short ≤ long = length-little-le 64 n n (omega arith) in
      let count : nb_dg_loop 10 64 n 1 + 1 ≡ short + suc (long - short) =
        omega (arith, nb_dg_loop-little 10 ten_IsBase 64 n 1 nz h) in
      let (ds, t, e, tz, tb) = little-top 16 sixteen_IsBase 64 n nz h in
      onward _ decimal_IsAlphabet.counted
      ∙ onward _ (value_loop-decimal n h)
      ∙ rw (ne→== n 0 nz, count)
          (onward _ (
              convert_loop-little 16 chars letter α sixteen_IsBase 64 0 n (suc (long - short)) []
                refl)
            ∙ onward _ (
                store-next (map letter (little 16 64 n)) (long - short) (0 + short) 0
                  (zero-add short ∙ sym (length-map letter (little 16 64 n))))
            ∙ reverse_delect-spell ds t (long - short) (little 16 64 n) e
                (All-little 16 sixteen_IsBase 64 n) tb tz)

-- The digits in base 16 as they are printed: '0' for 0, else with no zero in front.
unfoldable pub hex_numeral : (letter : ℕ → ℕ) → ℕ → List ℕ
hex_numeral letter n = if n == 0 then b'0' ∷ [] else spell letter (little 16 64 n)

itoa_hex-zero : (itoa_hex 0 b'x' ≡ some (b'0' ∷ 0 ∷ [])) × (itoa_hex 0 b'X' ≡ some (b'0' ∷ 0 ∷ []))
unfolding itoa_hex ft_itoa_unmax ft_convert_base nb_dg_inbase nb_dg_loop digits_loop base_length
    ft_strlen value_loop position_in_base store written
itoa_hex-zero = (refl, refl)

itoa_hex-pos :
    (n : ℕ)
    → n ≢ 0
    → n < 2 ^ 64
    → (itoa_hex n b'x' ≡ some (spell hex_letter (little 16 64 n) ++ (0 ∷ [])))
      × (itoa_hex n b'X' ≡ some (spell capital_letter (little 16 64 n) ++ (0 ∷ [])))
unfolding itoa_hex decimal_numeral
itoa_hex-pos n nz h =
    let printed : ft_itoa_unmax n ≡ some (decimal (little 10 64 n) ++ (0 ∷ [])) =
      ft_itoa_unmax-decimal_numeral n h ∙ rw (ne→== n 0 nz) refl in
    (
      onward _ printed ∙ ft_convert_base-spell hex_digits hex_letter hex_IsAlphabet n nz h,
      onward _ printed
          ∙ ft_convert_base-spell hex_capitals capital_letter capital_IsAlphabet n nz h,
    )

-- For every `uintmax_t`, `itoa_hex` stays inside its buffers, and its result is the string of the
-- digits in base 16, small letters for 'x' and capitals for 'X', with no zero in front, and the NUL.
pub itoa_hex-hex_numeral :
    (n : ℕ)
    → n < 2 ^ 64
    → (itoa_hex n b'x' ≡ some (hex_numeral hex_letter n ++ (0 ∷ [])))
      × (itoa_hex n b'X' ≡ some (hex_numeral capital_letter n ++ (0 ∷ [])))
unfolding hex_numeral
itoa_hex-hex_numeral zero h = itoa_hex-zero
itoa_hex-hex_numeral (suc n) h =
    rw (ne→== (suc n) 0 (omega arith)) (itoa_hex-pos (suc n) (omega arith) h)

value_loop-zero : value_loop decimal_digits 10 (b'0' ∷ 0 ∷ []) 0 ≡ some 0
unfolding value_loop position_in_base
value_loop-zero = refl

-- What `ft_itoa_unmax` prints of a `uintmax_t` is read back as the same number by the loop of
-- `ft_convert_base`.
pub ft_itoa_unmax-value_loop :
    (n : ℕ)
    → n < 2 ^ 64
    → (s : List ℕ) × (ft_itoa_unmax n ≡ some s) × (value_loop decimal_digits 10 s 0 ≡ some n)
unfolding decimal_numeral
ft_itoa_unmax-value_loop zero h =
    (b'0' ∷ 0 ∷ [], ft_itoa_unmax-decimal_numeral 0 h, value_loop-zero)
ft_itoa_unmax-value_loop (suc n) h = (
  decimal (little 10 64 (suc n)) ++ (0 ∷ []),
  ft_itoa_unmax-decimal_numeral (suc n) h ∙ rw (ne→== (suc n) 0 (omega arith)) refl,
  value_loop-decimal (suc n) h,
)
