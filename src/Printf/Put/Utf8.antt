-- ===== src/Printf/Put/Utf8.antt =====
-- `we_to_char` against UTF-8.
use nm.Common.{
  ℕ, ◌+◌, ◌/◌, ◌%◌, ◌^◌, ◌≤◌, ◌<◌, ◌≡◌, ◌↔◌, refl, ap, ◌∙◌, true, false, List, [], ◌∷◌, get_elem?,
  leb, if◌then◌else◌, arith, sym, ◌⊎◌, inl, inr, Bool-cases,
}
use mathlib.Core.Option
use nm.Printf.Put.{we_to_char}

-- The encoding of a code point of up to 11 bits, or of up to 16, in an array of 5 bytes.
unfoldable pub utf8 : ℕ → List ℕ
utf8 we =
    if leb we 0x7f
    then we ∷ 0 ∷ 0 ∷ 0 ∷ 0 ∷ []
    else if leb we 0x7ff
    then (192 + we / 64) ∷ (128 + we % 64) ∷ 0 ∷ 0 ∷ 0 ∷ []
    else (224 + we / 4096) ∷ (128 + we / 64 % 64) ∷ (128 + we % 64) ∷ 0 ∷ 0 ∷ []

we_to_char-three :
    (we : ℕ)
    → 0x800 ≤ we
    → we < 0x10000
    → we_to_char we
      ≡ (we / 2 ^ 12 + 224) % 256 ∷ (we / 2 ^ 6 + 192) % 256 ∷ (we % 64 + 128) ∷ 0 ∷ 0 ∷ []
unfolding we_to_char
we_to_char-three we low high =
    let small : leb we 0x7f ≡ false = ground arith in
    let negative : leb (2 ^ 31) we ≡ false = ground arith in
    let two : leb we 0x7ff ≡ false = ground arith in
    let three : leb we 0xffff ≡ true = ground arith in rw (small, negative, two, three) refl

utf8-three :
    (we : ℕ)
    → 0x800 ≤ we
    → utf8 we ≡ (224 + we / 4096) ∷ (128 + we / 64 % 64) ∷ (128 + we % 64) ∷ 0 ∷ 0 ∷ []
unfolding utf8
utf8-three we low =
    let small : leb we 0x7f ≡ false = ground arith in
    let two : leb we 0x7ff ≡ false = ground arith in rw (small, two) refl

up_to_two : (we : ℕ) → we < 0x800 → we_to_char we ≡ utf8 we
unfolding we_to_char utf8
up_to_two we h =
    let negative : leb (2 ^ 31) we ≡ false = ground arith in
    let two : leb we 0x7ff ≡ true = ground arith in
    let first : (we / 2 ^ 6 + 192) % 256 ≡ 192 + we / 64 = omega arith in
    let last : we % 64 + 128 ≡ 128 + we % 64 = omega arith in
    elim (Bool-cases (leb we 0x7f)) [
      | inl one ↦ let whole : we % 256 ≡ we = ground arith in rw (one, whole) refl
      | inr more ↦ rw (more, negative, two, first, last) refl
    ]

-- Up to 0x7ff, `we_to_char` is UTF-8; from there to 0xffff it is exactly where the bits 12 and 13 are set.
pub we_to_char-utf8 :
    (we : ℕ) → we < 0x10000 → (we_to_char we ≡ utf8 we) ↔ ((we < 0x800) ⊎ (we / 4096 % 4 ≡ 3))
we_to_char-utf8 we high = elim (Bool-cases (leb we 0x7ff)) [
  | inl short ↦ (λ e. inl (ground arith), λ h. up_to_two we (ground arith))
  | inr long ↦
      let three = we_to_char-three we (ground arith) high in
      let right = utf8-three we (ground arith) in
      (
        λ e.
            let middle : (we / 2 ^ 6 + 192) % 256 ≡ 128 + we / 64 % 64 =
              Option.some-injective _ _
                (ap (λ (l : List ℕ). get_elem? l 1) (sym three ∙ e ∙ right)) in
            inr (omega (arith, middle)),
        λ h.
            let set : we / 4096 % 4 ≡ 3 = elim h [
              | inl few ↦ absurd (ground arith)
              | inr bits ↦ bits
            ] in
            let first : (we / 2 ^ 12 + 224) % 256 ≡ 224 + we / 4096 = omega arith in
            let middle : (we / 2 ^ 6 + 192) % 256 ≡ 128 + we / 64 % 64 = omega (arith, set) in
            let last : we % 64 + 128 ≡ 128 + we % 64 = omega arith in
            three ∙ rw (first, middle, last) (sym right),
      )
]
