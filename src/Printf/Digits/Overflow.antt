-- ===== src/Printf/Digits/Overflow.antt =====
-- `itoa_base` to base 2: the buffer of `ft_convert_base` has a place for each decimal digit only.
use mathlib.Core.Option
use native.Mathlib.Nat.{pow-suc}
use nm.Common.{
  ℕ, zero, suc, ◌+◌, ◌/◌, ◌^◌, ◌≤◌, ◌<◌, ◌≡◌, ◌≢◌, refl, sym, ap, ◌∙◌, Option, none, some, List, [],
  ◌∷◌, ◌++◌, map, length, length-map, set, get_elem?, get_elem?-ge, length-set, Option-cases, ◌==◌,
  arith, ne→==, Bool-cases, inl, inr, ltb, length-replicate,
}
use nm.Common.Options.{◌>>=◌, onward}
use nm.Libft.Strings.{ft_strlen}
use nm.Libft.Buffer.{Buffer, malloc, store}
use nm.Printf.Digits.{
  nb_dg_loop, nb_dg_inbase, base_length, convert_loop, ft_convert_base, ft_itoa_unmax, set_base,
  position_in_base, value_loop, itoa_base, decimal_digits,
}
use nm.Printf.Digits.Little.{
  IsBase, little, little-zero, little_end, little-pos, nb_dg_loop-little, ten_IsBase,
}
use nm.Printf.Digits.Unmax.{decimal, decimal_numeral, ft_itoa_unmax-decimal_numeral}
use nm.Printf.Digits.Alphabet.{IsAlphabet, decimal_IsAlphabet, alphabet, decimal_letter}
use nm.Printf.Digits.Convert.{convert_loop-little}
use nm.Libft.Buffer.Laws.{held, store-next}
use nm.Common.Tables.{all_below}
use mathlib.Core.List.{append_assoc, map-append}
use nm.Printf.Digits.Base.{value_loop-decimal}

little_some : (left n : ℕ) → n ≢ 0 → n < 2 ^ left → 1 ≤ length (little 2 left n)
little_some zero n nz h = absurd (omega arith)
little_some (suc left) n nz h = rw (little-pos 2 left n nz) (omega arith)

-- From 2 on there are more digits in base 2 than in base 10.
little-longer :
    (left m n : ℕ)
    → m ≤ n
    → 2 ≤ n
    → n < 2 ^ left
    → length (little 10 left m) < length (little 2 left n)
little-longer zero m n le two h = absurd (omega arith)
little-longer (suc left) zero n le two h =
    rw (little-zero 10 (suc left)) (omega (arith, little_some (suc left) n (omega arith) h))
little-longer (suc left) (suc m) n le two h =
    let power = pow-suc 2 left in
    rw (little-pos 10 left (suc m) (omega arith), little-pos 2 left n (omega arith))
      (elim (Bool-cases (ltb n 4)) [
        | inl few ↦
            let gone : suc m / 10 ≡ 0 = ground arith in
            let some_left = little_some left (n / 2) (ground arith) (omega (arith, power)) in
            rw (gone, little-zero 10 left) (omega (arith, some_left))
        | inr many ↦
            let longer =
              little-longer left (suc m / 10) (n / 2) (omega arith) (ground arith)
                (omega (arith, power)) in
            omega (arith, longer)
      ])

-- The result of `convert_loop` where the next place is outside of the buffer, or the loop faulted.
abbrev Overran : Option (Buffer × ℕ) → Type 0
Overran none = Unit
Overran (some (buf, i)) = length buf ≤ i

Overran-bind :
    {A : Type 0} (o : Option A) (f : A → Option (Buffer × ℕ))
    → ((a : A) → o ≡ some a → Overran (f a))
    → Overran (o >>= f)
Overran-bind none f h = tt
Overran-bind (some a) f h = h a refl

some-inj : {A : Type 0} (a b : A) → some a ≡ some b → a ≡ b
some-inj a b e = Option.some-injective a b e

-- A write keeps the length.
length-store : (buf buf' : Buffer) (i c : ℕ) → store buf i c ≡ some buf' → length buf' ≡ length buf
unfolding store
length-store buf buf' i c e = elim (Option-cases (get_elem? buf i)) [
  | inl out ↦ let no : none ≡ some buf' = rw (store, out) at e in absurd (ground (arith, no))
  | inr (old, there) ↦
      let is_set : some (set buf i (some c)) ≡ some buf' = rw (store, there) at e in
      ap length (sym (some-inj _ _ is_set)) ∙ length-set buf i (some c)
]

store-outside : (buf : Buffer) (i c : ℕ) → length buf ≤ i → store buf i c ≡ none
unfolding store
store-outside buf i c h = rw (store, get_elem?-ge buf i h) refl

module _ (base : ℕ) (chars : List ℕ) (counted : base_length chars ≡ some base) where
  Overran-convert_loop :
      (left i n : ℕ) (buf : Buffer)
      → length buf ≤ i + length (little base left n)
      → Overran (convert_loop left chars buf i n)
  unfolding convert_loop
  Overran-convert_loop zero i n buf h = let e = ap length (little_end base n) in omega arith
  Overran-convert_loop (suc left) i n buf h = elim (Bool-cases (n == 0)) [
    | inl z ↦
        let e : n ≡ 0 = ground arith in
        rw z (
          let none_left = ap length (ap (little base (suc left)) e ∙ little-zero base (suc left)) in
          omega arith)
    | inr nz ↦
        let digits = ap length (little-pos base left n (ground arith)) in
        rw nz (
          Overran-bind _ _ (λ m em.
            let same : m ≡ base = some-inj _ _ (sym em ∙ counted) in
            Overran-bind _ _ (λ digit ed. Overran-bind _ _ (λ buf' eb.
              let size = length-store buf buf' i digit eb in
              let quotient = ap (λ (k : ℕ). length (little base left (n / k))) same in
              Overran-convert_loop left (i + 1) (n / m) buf'
                (omega (arith, size, digits, quotient))))))
  ]

end-Overran :
    {A : Type 0} (o : Option (Buffer × ℕ)) (K : Buffer → Option A)
    → Overran o
    → (o >>= λ r. store r.0 r.1 0 >>= K) ≡ none
end-Overran none K h = refl
end-Overran (some (buf, i)) K h = ap (λ (o : Option Buffer). o >>= K) (store-outside buf i 0 h)

binary_counted : base_length (b'0' ∷ b'1' ∷ 0 ∷ []) ≡ some 2
unfolding base_length ft_strlen
binary_counted = refl

ft_convert_base-overflow :
    (n : ℕ)
    → 2 ≤ n
    → n < 2 ^ 64
    → ft_convert_base (decimal (little 10 64 n) ++ (0 ∷ [])) decimal_digits (b'0' ∷ b'1' ∷ 0 ∷ [])
      ≡ none
unfolding ft_convert_base nb_dg_inbase
ft_convert_base-overflow n two h =
    let count : nb_dg_loop 10 64 n 1 + 1 ≡ 1 + length (little 10 64 n) =
      omega (arith, nb_dg_loop-little 10 ten_IsBase 64 n 1 (omega arith) h) in
    onward _ decimal_IsAlphabet.counted
    ∙ onward _ (value_loop-decimal n h)
    ∙ rw (ne→== n 0 (omega arith)) (
        end-Overran _ _ (
          Overran-convert_loop 2 (b'0' ∷ b'1' ∷ 0 ∷ []) binary_counted 64 0 n
            (malloc (nb_dg_loop 10 64 n 1 + 1))
            (omega (
              arith,
              count,
              little-longer 64 n n (omega arith) two h,
              length-replicate {A = Option ℕ} (nb_dg_loop 10 64 n 1 + 1) none,
            ))))

two_IsBase : IsBase 2
two_IsBase = record {
  two = omega arith;
  halves = λ n. omega arith;
  divides = λ n. omega arith;
  remains = λ n. omega arith;
  small = λ n h. omega arith;
  large = λ n h. omega arith;
}

binary_IsAlphabet : IsAlphabet 2 (b'0' ∷ b'1' ∷ 0 ∷ []) decimal_letter
unfolding position_in_base all_below
binary_IsAlphabet = alphabet 2 (b'0' ∷ b'1' ∷ 0 ∷ []) decimal_letter binary_counted refl

-- The digits in base 2 as chars, the lowest first.
abbrev pub binary : ℕ → List ℕ
binary n = map decimal_letter (little 2 64 n)

length-binary : (n : ℕ) → length (binary n) ≡ length (little 2 64 n)
length-binary n = length-map decimal_letter (little 2 64 n)

-- With a place for each digit and for the NUL, the loop and the write behind it do not fault.
binary_fits :
    (n : ℕ)
    → (convert_loop 64 (set_base b'0' 2) (malloc (length (binary n) + 1)) 0 n >>= λ r.
        store r.0 r.1 0)
      ≡ some (held (binary n) ++ (some 0 ∷ []))
unfolding set_base
binary_fits n =
    let ds = little 2 64 n in
    ap
      (λ (k : ℕ).
        convert_loop 64 (b'0' ∷ b'1' ∷ 0 ∷ []) (malloc (k + 1)) 0 n >>= λ r. store r.0 r.1 0)
      (length-binary n)
    ∙ onward _ (
        convert_loop-little 2 (b'0' ∷ b'1' ∷ 0 ∷ []) decimal_letter binary_IsAlphabet two_IsBase 64
          0 n 1 [] refl)
    ∙ store-next (binary n) 0 (0 + length ds) 0 (omega (arith, length-binary n))
    ∙ rw (map-append some (binary n) (0 ∷ []), append_assoc (held (binary n)) (some 0 ∷ []) []) refl

binary-longer : (n : ℕ) → 2 ≤ n → n < 2 ^ 64 → nb_dg_inbase n 10 + 1 ≤ length (binary n)
unfolding nb_dg_inbase
binary-longer n two h = omega (
  arith,
  nb_dg_loop-little 10 ten_IsBase 64 n 1 (omega arith) h,
  little-longer 64 n n (omega arith) two h,
  length-binary n,
)

decimal_numeral-value :
    (n : ℕ)
    → 2 ≤ n
    → n < 2 ^ 64
    → value_loop (set_base b'0' 10) 10 (decimal_numeral n ++ (0 ∷ [])) 0 ≡ some n
unfolding set_base decimal_numeral
decimal_numeral-value n two h = rw (ne→== n 0 (omega arith)) (value_loop-decimal n h)

decimal_base : base_length (set_base b'0' 10) ≡ some 10
unfolding set_base
decimal_base = decimal_IsAlphabet.counted

itoa_base_faults : (n : ℕ) → 2 ≤ n → n < 2 ^ 64 → itoa_base n 10 2 ≡ none
unfolding itoa_base set_base decimal_numeral
itoa_base_faults n two h =
    let printed : ft_itoa_unmax n ≡ some (decimal (little 10 64 n) ++ (0 ∷ [])) =
      ft_itoa_unmax-decimal_numeral n h ∙ rw (ne→== n 0 (omega arith)) refl in
    onward _ printed ∙ ft_convert_base-overflow n two h

-- For every `uintmax_t` from 2 on, `itoa_base` to base 2 writes past the end of its buffer: the decimal
-- digits are printed and read back as the number; its binary digits and the NUL, at the place behind
-- them, need more places than the buffer has, which are as many as the decimal digits and one; in
-- memory with all these places the loop and the write of the NUL do not fault and leave the digits,
-- the lowest first; but `itoa_base` faults.
pub itoa_base-overflow :
    (n : ℕ)
    → 2 ≤ n
    → n < 2 ^ 64
    → (ft_itoa_unmax n ≡ some (decimal_numeral n ++ (0 ∷ [])))
      × (base_length (set_base b'0' 10) ≡ some 10)
      × (value_loop (set_base b'0' 10) 10 (decimal_numeral n ++ (0 ∷ [])) 0 ≡ some n)
      × (nb_dg_inbase n 10 + 1 ≤ length (binary n))
      × ((convert_loop 64 (set_base b'0' 2) (malloc (length (binary n) + 1)) 0 n >>= λ r.
            store r.0 r.1 0)
          ≡ some (held (binary n) ++ (some 0 ∷ [])))
      × (itoa_base n 10 2 ≡ none)
itoa_base-overflow n two h = (
  ft_itoa_unmax-decimal_numeral n h,
  decimal_base,
  decimal_numeral-value n two h,
  binary-longer n two h,
  binary_fits n,
  itoa_base_faults n two h,
)
