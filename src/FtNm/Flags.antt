-- ===== src/FtNm/Flags.antt =====
-- set_flag.c: the options on the command line, collected in a buffer of 10 chars that ends in NUL.
pub mod Spec
pub mod Buffer
pub mod Laws
use nm.Common.{
  ℕ, zero, suc, ◌+◌, Bool, true, false, ◌||◌, Option, none, some, List, [], ◌∷◌, ◌==◌,
  if◌then◌else◌, get_elem?, set, replicate,
}
use nm.Libft.Strings.{ft_strchr}

unfoldable pub is_flag : ℕ → Bool
is_flag c = c == b'g' || c == b'p' || c == b'r' || c == b'u' || c == b'U' || c == b'j'

-- The state of `set_flags_nm`: the buffer, and the next place in it.
pub record Flags : Type 0 where
  pub flags : List ℕ
  pub i : ℕ

-- `overrun` is a `ft_strchr` or a write outside of the buffer. `usage c` is `put_usage`, at the char
-- that is no option, and the result -1.
pub data Parsed {ℓ} (A : Type ℓ) : Type ℓ where
  parsed : A → Parsed A
  usage : ℕ → Parsed A
  overrun : Parsed A

infixl 5 ◌>>=◌
abbrev pub ◌>>=◌ {ℓ κ} : {A : Type ℓ} {B : Type κ} → Parsed A → (A → Parsed B) → Parsed B
parsed a >>= f = f a
usage c >>= f = usage c
overrun >>= f = overrun

-- `flags[i++] = c`
unfoldable pub store_flag : Flags → ℕ → Parsed Flags
store_flag f c = elim (get_elem? f.flags f.i) [
  | none ↦ overrun
  | some _ ↦ parsed (record { flags = set f.flags f.i c; i = f.i + 1 })
]

-- `if (!ft_strchr(flags, **av)) flags[i++] = *((*av));`
unfoldable pub add_flag : Flags → ℕ → Parsed Flags
add_flag f c = elim (ft_strchr f.flags c) [
  | none ↦ overrun
  | some none ↦ store_flag f c
  | some (some at) ↦ parsed f
]

-- The chars of one argument behind its dash.
unfoldable pub add_flags : Flags → List ℕ → Parsed Flags
add_flags f [] = parsed f
add_flags f (c ∷ s) = if is_flag c then (do f' ← add_flag f c; add_flags f' s) else usage c

-- The loop over `av`, whose strings are given without their NUL. `ct` counts the arguments.
unfoldable pub flags_loop : Flags → ℕ → List (List ℕ) → Parsed (Flags × ℕ)
flags_loop f ct [] = parsed (f, ct)
flags_loop f ct ([] ∷ av) = parsed (f, ct)
flags_loop f ct ((d ∷ []) ∷ av) = parsed (f, ct)
flags_loop f ct ((d ∷ c ∷ s) ∷ av) =
    if d == b'-' then (do f' ← add_flags f (c ∷ s); flags_loop f' (ct + 1) av) else parsed (f, ct)

-- `av` without the program's name; `ft_bzero(flags, 10)`. The count includes that name.
unfoldable pub set_flags_nm : List (List ℕ) → Parsed (Flags × ℕ)
set_flags_nm av = flags_loop (record { flags = replicate 10 0; i = 0 }) 1 av
