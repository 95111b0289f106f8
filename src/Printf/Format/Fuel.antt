-- ===== src/Printf/Format/Fuel.antt =====
-- The rounds of `ft_printf`.
use nm.Common.{
  ℕ, zero, suc, ◌+◌, ◌≤◌, ◌≡◌, refl, List, [], ◌∷◌, length, drop, ◌==◌, arith, Bool-cases, inl, inr,
  Option-cases,
}
use nm.Common.Int.{ℤ, pos, ◌+ℤ◌}
use nm.Printf.Monad.{Arg, Print, ◌>>=◌}
use nm.Printf.Put.{ft_putchar}
use nm.Printf.Format.{directive, format_loop, ft_printf}

length-drop : {A : Type 0} (i : ℕ) (xs : List A) → length (drop i xs) ≤ length xs
length-drop zero xs = omega arith
length-drop (suc i) [] = omega arith
length-drop (suc i) (x ∷ xs) = omega (arith, length-drop i xs)

-- Code that goes on alike behind the same beginning.
alike :
    {A B : Type 0} (p : Print A) (k l : A → Print B) (args : List Arg)
    → ((a : A) (args' : List Arg) → k a args' ≡ l a args')
    → (p >>= k) args ≡ (p >>= l) args
unfolding ◌>>=◌
alike p k l args h = elim (Option-cases (p args)) [
  | inl e ↦ rw (◌>>=◌, e) refl
  | inr ((a, out, args'), e) ↦ rw (◌>>=◌, e, h a args') refl
]

alike_fuel :
    (a b : ℕ) (format : List ℕ) (nbr : ℤ) (args : List Arg)
    → length format ≤ a
    → length format ≤ b
    → format_loop a format nbr args ≡ format_loop b format nbr args
unfolding format_loop
alike_fuel a b [] nbr args h k = refl
alike_fuel zero b (c ∷ format) nbr args h k = absurd (omega arith)
alike_fuel (suc a) zero (c ∷ format) nbr args h k = absurd (omega arith)
alike_fuel (suc a) (suc b) (c ∷ format) nbr args h k = elim (Bool-cases (c == 0)) [
  | inl z ↦ rw z refl
  | inr nz ↦ elim (Bool-cases (c == b'%')) [
    | inl per ↦
        rw (nz, per)
          (alike (directive (c ∷ format)) _ _ args (λ d args'.
            let shorter = length-drop d.1 format in
            alike_fuel a b (drop d.1 format) (nbr +ℤ d.0) args' (omega (arith, shorter))
              (omega (arith, shorter))))
    | inr char ↦
        rw (nz, char)
          (alike (ft_putchar c) _ _ args
            (λ u args'. alike_fuel a b format (nbr +ℤ pos 1) args' (omega arith) (omega arith)))
  ]
]

-- For every format and all arguments, as many rounds as the format has chars are enough: with more
-- of them the result, the output and the arguments that are left are the same.
pub format_loop-enough :
    (more : ℕ) (format : List ℕ) (args : List Arg)
    → format_loop (length format + more) format (pos 0) args ≡ ft_printf format args
unfolding ft_printf
format_loop-enough more format args =
    alike_fuel (length format + more) (length format) format (pos 0) args (omega arith)
      (omega arith)
