-- ===== src/FtOtool/Perform/Section.antt =====
-- The text of a section.
use mathlib.Core.List.{append_assoc, reverse-cons}
use mathlib.Core.Option
use nm.Common.{
  Option-cases, inl, inr, ℕ, zero, suc, ◌+◌, ◌/◌, ◌%◌, ◌^◌, ◌≤◌, ◌<◌, ◌≡◌, refl, sym, ap, ◌∙◌, Bool,
  none, some, List, [], ◌∷◌, ◌++◌, map, reverse, length, take, drop, All, arith,
}
use nm.Machine.{ok, ◌⊕◌}
use nm.Libft.Strings.{ft_strlen, ft_strchr}
use nm.FtOtool.Dump.{Call, success, put_byte, put_byte_space, put_tab, put_newline, dump_section}
use nm.Machine.Words.{le_bytes}
use nm.FtOtool.Dump.Rows.{rows, width, layout, dump_section-rows}
use nm.FtOtool.Perform.{perform, perform_all}
use nm.FtOtool.Perform.Lines.{
  hex_pairs, hex_columns, perform_all-cons, perform_all-put_byte, perform_all-put_byte_space,
}
use nm.Printf.Monad.{◌>>=◌, next_text}
use nm.Printf.Put.{ft_strnchr, ft_putchar, putnstr_loop, ft_putnstr, ft_putnchar, max_2}
use nm.Printf.Data.{init, has, has_before, set_cast, flags_loop, set_flags}
use nm.Printf.Unsigned.{size_of}
use nm.Printf.Con.{parse, full_precison, shown_length, set_print_s, con_s}
use nm.Printf.Format.{is_f, ini_set, letter_loop, directive, format_loop, ft_printf}

perform_all-first :
    (c : Call) (cs : List Call) (out : List ℕ)
    → perform_all (c ∷ cs) ≡ some out
    → (first : List ℕ) × (rest : List ℕ) × (perform c ≡ some first)
      × (perform_all cs ≡ some rest)
      × (out ≡ first ++ rest)
unfolding perform_all
perform_all-first c cs out e = elim (Option-cases (perform c)) [
  | inl f ↦ let no : none ≡ some out = rw (perform_all, f) at e in absurd (ground (arith, no))
  | inr (first, f) ↦ elim (Option-cases (perform_all cs)) [
    | inl r ↦ let no : none ≡ some out = rw (perform_all, f, r) at e in absurd (ground (arith, no))
    | inr (rest, r) ↦
        let same : some (first ++ rest) ≡ some out = rw (perform_all, f, r) at e in
        (first, rest, f, r, sym (Option.some-injective _ _ same))
  ]
]

perform_all-append :
    (cs ds : List Call) (out rest : List ℕ)
    → perform_all cs ≡ some out
    → perform_all ds ≡ some rest
    → perform_all (cs ++ ds) ≡ some (out ++ rest)
unfolding perform_all
perform_all-append [] ds out rest e f =
    f ∙ ap (λ (l : List ℕ). some (l ++ rest)) (Option.some-injective _ _ e)
perform_all-append (c ∷ cs) ds out rest e f =
    let (first, others, g, h, same) = perform_all-first c cs out e in
    perform_all-cons c (cs ++ ds) first (others ++ rest) g
      (perform_all-append cs ds others rest h f)
    ∙ ap some (sym (append_assoc first others rest) ∙ ap (λ (l : List ℕ). l ++ rest) (sym same))

All-take : (n : ℕ) (P : ℕ → Type 0) (xs : List ℕ) → All P xs → All P (take n xs)
All-take zero P xs h = tt
All-take (suc n) P [] h = tt
All-take (suc n) P (x ∷ xs) h = (h.0, All-take n P xs h.1)

All-drop : (n : ℕ) (P : ℕ → Type 0) (xs : List ℕ) → All P xs → All P (drop n xs)
All-drop zero P xs h = h
All-drop (suc n) P [] h = tt
All-drop (suc n) P (x ∷ xs) h = All-drop n P xs h.1

All-append : (P : ℕ → Type 0) (xs ys : List ℕ) → All P xs → All P ys → All P (xs ++ ys)
All-append P [] ys h k = k
All-append P (x ∷ xs) ys h k = (h.0, All-append P xs ys h.1 k)

All-le_bytes : (n v : ℕ) → All (λ b. b < 256) (reverse (le_bytes n v))
unfolding le_bytes
All-le_bytes zero v = tt
All-le_bytes (suc n) v = rw (reverse-cons (v % 256) (le_bytes n (v / 256))) (
    All-append _ (reverse (le_bytes n (v / 256))) (v % 256 ∷ []) (All-le_bytes n (v / 256))
      (omega arith, tt))

-- The rows as text: the address, a tab, the bytes and a newline.
unfoldable pub text_rows : (w left a : ℕ) → List ℕ → List ℕ
text_rows w left a [] = []
text_rows w zero a (b ∷ ds) = []
text_rows w (suc left) a (b ∷ ds) =
    hex_pairs (reverse (le_bytes w a))
    ++ (9 ∷ hex_columns (take 16 (b ∷ ds)))
    ++ (10 ∷ text_rows w left (a + 16) (drop 16 (b ∷ ds)))

tab_printed : perform put_tab ≡ some (9 ∷ [])
unfolding perform ft_printf format_loop ft_putchar ◌>>=◌ directive letter_loop is_f ini_set con_s
    parse set_flags flags_loop set_cast has_before ft_strnchr init set_print_s size_of max_2
    shown_length full_precison has ft_putnchar ft_putnstr putnstr_loop next_text ft_strlen ft_strchr
tab_printed = refl

newline_printed : perform put_newline ≡ some (10 ∷ [])
unfolding perform ft_printf format_loop ft_putchar ◌>>=◌
newline_printed = refl

perform_all-rows :
    (w left a : ℕ) (ds : List ℕ)
    → All (λ b. b < 256) ds
    → perform_all (rows w left a ds) ≡ some (text_rows w left a ds)
unfolding rows text_rows perform_all
perform_all-rows w left a [] h = refl
perform_all-rows w zero a (b ∷ ds) h = refl
perform_all-rows w (suc left) a (b ∷ ds) h =
    perform_all-append _ _ _ _
      (perform_all-append (map put_byte (reverse (le_bytes w a))) _ _ _
        (perform_all-put_byte (reverse (le_bytes w a)) (All-le_bytes w a))
        (perform_all-cons put_tab (map put_byte_space (take 16 (b ∷ ds))) (9 ∷ []) _ tab_printed
          (perform_all-put_byte_space (take 16 (b ∷ ds)) (All-take 16 _ (b ∷ ds) h))))
      (perform_all-cons put_newline (rows w left (a + 16) (drop 16 (b ∷ ds))) (10 ∷ []) _
        newline_printed
        (perform_all-rows w left (a + 16) (drop 16 (b ∷ ds)) (All-drop 16 _ (b ∷ ds) h)))

-- Let a mapping below 2 ^ 63 and of less than 2 ^ 32 bytes hold the field `addr` of a section, its contents
-- somewhere behind it and inside of the file, and let the addresses of the section not wrap. Then
-- `dump_section` does not fault and succeeds, and what it prints is the section in rows of 16 bytes,
-- the last one maybe shorter: the address of the first byte in base 16, a tab, two digits and a blank
-- for each byte, and a newline. It changes nothing but the field `addr`.
pub dump_section-text_rows :
    (g k : ℕ) (is_64 : Bool) (pre mid section post : List ℕ) (a offset p : ℕ)
    → g + length pre + width is_64 + length mid + length section ≤ g + k
    → g + k < 2 ^ 63
    → k < 2 ^ 32
    → a + length section < 256 ^ width is_64
    → p ⊕ offset ≡ g + length pre + width is_64 + length mid
    → All (λ b. b < 256) section
    → (a' : ℕ) × (calls : List Call) × (dump_section
          (g + length pre)
          is_64
          (length section)
          offset
          p
          (layout g k is_64 pre mid section post a)
        ≡ ok (success, calls) (layout g k is_64 pre mid section post a'))
      × (perform_all calls ≡ some (text_rows (width is_64) (2 ^ 28 + 1) a section))
dump_section-text_rows g k is_64 pre mid section post a offset p in_file low small h place bytes =
    let (a', dumped) =
      dump_section-rows g k is_64 pre mid section post a offset p in_file low small h place in
    (
      a',
      rows (width is_64) (2 ^ 28 + 1) a section,
      dumped,
      perform_all-rows (width is_64) (2 ^ 28 + 1) a section bytes,
    )
