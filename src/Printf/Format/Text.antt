-- ===== src/Printf/Format/Text.antt =====
-- `%s` and `%c` on the formats of the programs.
use mathlib.Core.List.{append-nil}
use mathlib.Core.Option
use nm.Common.{
  ℕ, ◌+◌, ◌-◌, ◌%◌, ◌^◌, ◌<◌, leb, true, ◌≡◌, refl, ap, ◌∙◌, false, some, List, [], ◌∷◌, ◌++◌,
  length, arith, ne→==, ltb, Option,
}
use nm.Common.Int.{ℤ, pos, ◌-ℤ◌, ◌+ℤ◌}
use nm.Libft.Strings.{ft_strlen, ft_strchr}
use nm.Libft.Strings.Laws.{c_string, c_string-cons, ends, goes_on, ft_strlen-c_string}
use nm.Printf.Monad.{Arg, text, word, next_word, ◌>>=◌, next_text}
use nm.Printf.Monad.Steps.{follow}
use nm.Printf.Put.{ft_strnchr, ft_putchar, max_2, putnstr_loop, ft_putnstr, ft_putnchar}
use nm.Printf.Data.{init, has, has_before, set_cast, flags_loop, set_flags}
use nm.Printf.Unsigned.{size_of}
use nm.Printf.Con.{
  full_precison, shown_length, set_print_s, parse, con_s, put_c, set_print_c, con_c,
}
use nm.Printf.Format.{is_f, ini_set, letter_loop, directive, format_loop, ft_printf}

abbrev pub symbol_format : List ℕ
symbol_format = b'%' ∷ b's' ∷ 10 ∷ 0 ∷ []

abbrev pub name_format : List ℕ
name_format = b'%' ∷ b's' ∷ b':' ∷ 10 ∷ 0 ∷ []

abbrev pub letter_format : List ℕ
letter_format = b' ' ∷ b'%' ∷ b'c' ∷ b' ' ∷ 0 ∷ []

putnstr_loop-c_string : (x s : List ℕ) → c_string x ≡ some s → putnstr_loop x (length s) ≡ some s
unfolding putnstr_loop c_string
putnstr_loop-c_string [] s e = absurd (ground arith)
putnstr_loop-c_string (c ∷ x) s e = elim (c_string-cons c x s e) [
  | ends z n ↦ rw n refl
  | goes_on nz r f n ↦ rw (n, ne→== c 0 nz, putnstr_loop-c_string x r f) refl
]

module _ (x s : List ℕ) (e : c_string x ≡ some s) (args : List Arg) where
  size_of-c_string : size_of x args ≡ some (pos (length s), [], args)
  unfolding size_of ◌>>=◌
  size_of-c_string =
      let n : ft_strlen x ≡ some (length s) = ft_strlen-c_string x ∙ ap (Option.map length) e in
      rw n refl

  shown : shown_length (record init { ori = x }) (pos (length s)) ≡ pos (length s)
  unfolding shown_length full_precison init
  shown = let longest : ltb (length s + 0) (length s + 0) ≡ false = ground arith in rw longest refl

  whole : max_2 (pos 0) (pos (length s)) ≡ pos (length s)
  unfolding max_2
  whole = let least : ltb (length s + 0) 0 ≡ false = ground arith in rw least refl

  blanks :
      ft_putnchar b' ' (max_2 (pos 0) (pos (length s)) -ℤ pos (length s)) args ≡ some (tt, [], args)
  unfolding ft_putnchar
  blanks =
      let all : leb (0 + length s) (length s + 0) ≡ true = ground arith in
      let none_left : length s + 0 - (0 + length s) ≡ 0 = omega arith in
      rw (whole, all, none_left) refl

  chars : ft_putnstr x (pos (length s)) args ≡ some (tt, s, args)
  unfolding ft_putnstr ◌>>=◌
  chars = rw (putnstr_loop-c_string x s e) refl

  not_left : has init.flags b'-' args ≡ some (false, [], args)
  unfolding has ft_strchr ◌>>=◌ init
  not_left = refl

  set_print_s-c_string :
      set_print_s (record init { ori = x }) args
      ≡ some (
        record init { ori = x; len = max_2 (pos 0) (pos (length s)); precison = pos (length s) },
        s ++ [],
        args,
      )
  unfolding set_print_s full_precison init
  set_print_s-c_string =
      follow _ _ size_of-c_string
        (rw shown (follow _ _ not_left (follow _ _ (follow _ _ blanks chars) refl)))

  trim :
      {A : Type 0}
      → (a : A)
      → ◌≡◌ {A = Option (A × List ℕ × List Arg)} (some (a, s ++ [], args)) (some (a, s, args))
  trim a = ap (λ (l : List ℕ). some (a, l, args)) (append-nil s)

  parsed :
      (rest : List ℕ)
      → parse (b'%' ∷ b's' ∷ rest) 1 (text (some x) ∷ args) ≡ some (init, [], text (some x) ∷ args)
  unfolding parse set_flags flags_loop set_cast has_before ft_strnchr ◌>>=◌ init
  parsed rest = refl

  con_s-c_string :
      (rest : List ℕ)
      → con_s (b'%' ∷ b's' ∷ rest) 1 (text (some x) ∷ args)
        ≡ some (
          record init { ori = x; len = max_2 (pos 0) (pos (length s)); precison = pos (length s) },
          s,
          args,
        )
  unfolding con_s next_text init
  con_s-c_string rest = follow _ _ (parsed rest) (follow _ _ refl set_print_s-c_string) ∙ trim _

  directive-c_string :
      (rest : List ℕ)
      → directive (b'%' ∷ b's' ∷ rest) (text (some x) ∷ args) ≡ some ((pos (length s), 1), s, args)
  unfolding directive letter_loop is_f ini_set init
  directive-c_string rest =
      follow _ _ refl (follow _ _ refl (follow _ _ (con_s-c_string rest) refl))
      ∙ trim _
      ∙ ap (λ (l : ℤ). some ((l, 1), s, args)) whole

add_pos : (a b : ℕ) → pos a +ℤ pos b ≡ pos (a + b)
add_pos a b =
    let some_more : leb 0 (a + b) ≡ true = ground arith in
    let same : a + b - 0 ≡ a + b = omega arith in rw (some_more, same) refl

-- For every `s` that holds a string, ft_printf("%s\n", s) and ft_printf("%s:\n", s) do not fault; they
-- print the string with what is behind it in the format, and return the number of chars.
pub ft_printf-text :
    (x s : List ℕ)
    → c_string x ≡ some s
    → (ft_printf symbol_format (text (some x) ∷ []) ≡ some (pos (length s + 1), s ++ (10 ∷ []), []))
      × (ft_printf name_format (text (some x) ∷ [])
          ≡ some (pos (length s + 1 + 1), s ++ (b':' ∷ 10 ∷ []), []))
unfolding ft_printf format_loop ft_putchar
ft_printf-text x s e =
    let first : pos 0 +ℤ pos (length s) ≡ pos (length s) =
      add_pos 0 (length s) ∙ ap pos (omega arith) in
    let second = add_pos (length s) 1 in
    let third = add_pos (length s + 1) 1 in
    (
      follow _ _ (directive-c_string x s e [] (10 ∷ 0 ∷ [])) (follow _ _ refl refl)
          ∙ ap (λ (n : ℤ). some (n, s ++ (10 ∷ []), []))
              (ap (λ (n : ℤ). n +ℤ pos 1) first ∙ second),
      follow _ _ (directive-c_string x s e [] (b':' ∷ 10 ∷ 0 ∷ []))
            (follow _ _ refl (follow _ _ refl refl))
          ∙ ap (λ (n : ℤ). some (n, s ++ (b':' ∷ 10 ∷ []), []))
              (ap (λ (n : ℤ). n +ℤ pos 1 +ℤ pos 1) first
                ∙ ap (λ (n : ℤ). n +ℤ pos 1) second
                ∙ third),
    )

-- ft_printf(" %c ", c)
pub ft_printf-letter :
    (c : ℕ)
    → c < 256
    → ft_printf letter_format (word c ∷ []) ≡ some (pos 3, b' ' ∷ c ∷ b' ' ∷ [], [])
unfolding ft_printf format_loop ft_putchar ◌>>=◌ directive letter_loop is_f ini_set con_c parse
    set_flags flags_loop set_cast has_before ft_strnchr init set_print_c max_2 has ft_strchr
    ft_putnchar put_c next_word
ft_printf-letter c h = let same : c % 2 ^ 32 % 256 ≡ c = omega arith in rw same refl
