-- ===== src/Printf/Monad.antt =====
-- What the code of ft_printf works in: it writes chars to the standard output and takes the arguments
-- from a va_list one by one. The callees advance the caller's va_list, as they do where va_list is
-- an array. `none` is a fault.
pub mod Steps
use nm.Common.{ℕ, ◌%◌, ◌^◌, Option, none, some, List, [], ◌∷◌, ◌++◌}

-- An argument: an integer of at most 64 bits, as its bits, a `char *` or a `wchar_t *`, where NULL is
-- a `none` inside.
pub data Arg : Type 0 where
  word : ℕ → Arg
  text : Option (List ℕ) → Arg
  wide : Option (List ℕ) → Arg

-- The result, the chars that are written, and the arguments that are left.
abbrev pub Print : Type 0 → Type 0
Print A = List Arg → Option (A × List ℕ × List Arg)

abbrev pub pure : {A : Type 0} → A → Print A
pure a args = some (a, [], args)

infixl 5 ◌>>=◌ ◌>>◌
unfoldable pub ◌>>=◌ : {A B : Type 0} → Print A → (A → Print B) → Print B
◌>>=◌ p k args = elim (p args) [
  | none ↦ none
  | some (a, out, args') ↦ elim (k a args') [
    | none ↦ none
    | some (b, out', args'') ↦ some (b, out ++ out', args'')
  ]
]

abbrev pub ◌>>◌ : {A B : Type 0} → Print A → Print B → Print B
p >> k = p >>= λ _. k

-- `write(1, s, n)`
abbrev pub emit : List ℕ → Print (Unit {0})
emit out args = some (tt, out, args)

-- Code that writes nothing, and may fault.
abbrev pub attempt : {A : Type 0} → Option A → Print A
attempt o args = elim o [ none ↦ none | some a ↦ some (a, [], args) ]

-- `va_arg` for a type of `bits` bits, and for the two kinds of pointers.
unfoldable pub next_word : (bits : ℕ) → Print ℕ
next_word bits (word v ∷ args) = some (v % 2 ^ bits, [], args)
next_word bits (text s ∷ args) = none
next_word bits (wide s ∷ args) = none
next_word bits [] = none

unfoldable pub next_text : Print (Option (List ℕ))
next_text (text s ∷ args) = some (s, [], args)
next_text (word v ∷ args) = none
next_text (wide s ∷ args) = none
next_text [] = none

unfoldable pub next_wide : Print (Option (List ℕ))
next_wide (wide s ∷ args) = some (s, [], args)
next_wide (word v ∷ args) = none
next_wide (text s ∷ args) = none
next_wide [] = none
