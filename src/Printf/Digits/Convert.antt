-- ===== src/Printf/Digits/Convert.antt =====
-- `ft_convert_base` from decimal, and `itoa_hex`: the digits of the number in the new base.
use mathlib.Core.List.{append-nil, append_assoc, reverse-cons}
use native.Mathlib.Nat.{zero-add}
use nm.Common.{
  ℕ, zero, suc, ◌+◌, ◌*◌, ◌/◌, ◌%◌, ◌^◌, ◌≤◌, ◌<◌, ◌≡◌, ◌≢◌, refl, sym, ap, ◌∙◌, some, List, [],
  ◌∷◌, ◌++◌, map, reverse, length, length-append, All, arith, ne→==,
}
use nm.Common.Options.{onward}
use nm.Libft.Strings.{ft_strlen}
use nm.Libft.Buffer.{Buffer, malloc}
use nm.Libft.Buffer.Laws.{held, store-next}
use nm.Printf.Digits.{value_loop, convert_loop}
use nm.Printf.Digits.Alphabet.{IsAlphabet}
use nm.Printf.Digits.Little.{value, spell, little, little-pos, little-zero, little_end, IsBase}

module _ (base : ℕ) (chars : List ℕ) (letter : ℕ → ℕ) (α : IsAlphabet base chars letter) where
  -- The value of a spelled numeral, from the highest digit on.
  pub value_loop-spell :
      (ds : List ℕ) (rest : List ℕ)
      → All (λ d. d < base) ds
      → value base ds < 2 ^ 64
      → value_loop chars base (spell letter ds ++ rest) 0
        ≡ value_loop chars base rest (value base ds)
  unfolding spell value_loop
  value_loop-spell [] rest digits small = refl
  value_loop-spell (d ∷ ds) rest digits small =
      let no_wrap : (value base ds * base + d) % 2 ^ 64 ≡ d + base * value base ds = grind arith in
      ap (λ (l : List ℕ). value_loop chars base l 0)
        (append_assoc (spell letter ds) (letter d ∷ []) rest)
      ∙ value_loop-spell ds (letter d ∷ rest) digits.1 (grind arith)
      ∙ rw (ne→== (letter d) 0 (α.no_nul d digits.0))
          (onward _ (α.position d digits.0) ∙ ap (λ (v : ℕ). value_loop chars base rest v) no_wrap)

  convert_loop-done :
      (left i : ℕ) (result : Buffer) → convert_loop left chars result i 0 ≡ some (result, i)
  unfolding convert_loop
  convert_loop-done zero i result = refl
  convert_loop-done (suc left) i result = refl

  convert_loop-out :
      (i n : ℕ) (result : Buffer) → convert_loop 0 chars result i n ≡ some (result, i)
  unfolding convert_loop
  convert_loop-out i n result = refl

  convert_loop-step :
      (left i n k : ℕ) (xs : List ℕ)
      → n ≢ 0
      → n % base < base
      → i ≡ length xs
      → convert_loop (suc left) chars (held xs ++ malloc (suc k)) i n
        ≡ convert_loop left chars
            (held (xs ++ (letter (n % base) ∷ [])) ++ malloc k)
            (i + 1)
            (n / base)
  unfolding convert_loop
  convert_loop-step left i n k xs nz digit e = rw (ne→== n 0 nz) (
      onward _ α.counted
      ∙ onward _ (α.at (n % base) digit)
      ∙ onward _ (store-next xs k i (letter (n % base)) e))

  module _ (b : IsBase base) where
    pub convert_loop-little :
        (left i n r : ℕ) (xs : List ℕ)
        → i ≡ length xs
        → convert_loop left chars (held xs ++ malloc (length (little base left n) + r)) i n
          ≡ some (
            held (xs ++ map letter (little base left n)) ++ malloc r,
            i + length (little base left n),
          )
    convert_loop-little left i zero r xs e =
        let same : i + 0 ≡ i = omega arith in
        rw (little-zero base left)
          (rw (zero-add r, append-nil xs, same) (convert_loop-done left i (held xs ++ malloc r)))
    convert_loop-little zero i (suc n) r xs e =
        let same : i + 0 ≡ i = omega arith in
        rw (little_end base (suc n))
          (rw (zero-add r, append-nil xs, same) (convert_loop-out i (suc n) (held xs ++ malloc r)))
    convert_loop-little (suc left) i (suc n) r xs e =
        let nz : suc n ≢ 0 = omega arith in
        let c = letter (suc n % base) in
        let rest = little base left (suc n / base) in
        let room : suc (length rest) + r ≡ suc (length rest + r) = omega arith in
        let count : i + 1 + length rest ≡ i + suc (length rest) = omega arith in
        rw (little-pos base left (suc n) nz) (
          ap (λ (k : ℕ). convert_loop (suc left) chars (held xs ++ malloc k) i (suc n)) room
          ∙ convert_loop-step left i (suc n) (length rest + r) xs nz (b.remains (suc n)) e
          ∙ convert_loop-little left (i + 1) (suc n / base) r (xs ++ (c ∷ []))
              (omega (arith, length-append xs (c ∷ [])))
          ∙ ap (λ (l : List ℕ). some (held l ++ malloc r, i + 1 + length rest))
              (append_assoc xs (c ∷ []) (map letter rest))
          ∙ ap (λ (k : ℕ). some (held (xs ++ (c ∷ map letter rest)) ++ malloc r, k)) count)

  -- A spelled numeral is the letters from the last to the first.
  pub spell-reverse : (ds : List ℕ) → spell letter ds ≡ reverse (map letter ds)
  unfolding spell
  spell-reverse [] = refl
  spell-reverse (d ∷ ds) =
      ap (λ (l : List ℕ). l ++ (letter d ∷ [])) (spell-reverse ds)
      ∙ sym (reverse-cons (letter d) (map letter ds))

  pub ft_strlen-letters :
      (ds post : List ℕ)
      → All (λ d. d < base) ds
      → ft_strlen (map letter ds ++ (0 ∷ post)) ≡ some (length (map letter ds))
  unfolding ft_strlen
  ft_strlen-letters [] post digits = refl
  ft_strlen-letters (d ∷ ds) post digits =
      rw (ne→== (letter d) 0 (α.no_nul d digits.0), ft_strlen-letters ds post digits.1) refl

-- The number of digits falls with the number, and is not greater in a greater base.
pub length-little-le :
    (left m n : ℕ) → m ≤ n → length (little 16 left m) ≤ length (little 10 left n)
length-little-le left zero n h = rw (little-zero 16 left) (omega arith)
length-little-le zero (suc m) n h = rw (little_end 16 (suc m)) (omega arith)
length-little-le (suc left) (suc m) zero h = absurd (omega arith)
length-little-le (suc left) (suc m) (suc n) h =
    rw (little-pos 16 left (suc m) (omega arith), little-pos 10 left (suc n) (omega arith))
      (omega (arith, length-little-le left (suc m / 16) (suc n / 10) (omega arith)))
