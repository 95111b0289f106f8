-- ===== src/Libft/NextLine/Chars.antt =====
-- The first line of a string, as ft_strchr finds its end and ft_strcdup copies it.
use nm.Common.{
  ℕ, suc, ◌+◌, ◌≡◌, ◌≢◌, refl, ap, ◌∙◌, ◌⊎◌, Bool, true, false, Option, none, some, List, [], ◌∷◌,
  ◌++◌, length, drop, ◌==◌, Bool-cases, Option-cases, inl, inr, ne→==, arith,
}
use nm.Common.Options.{◌>>=◌, onward}
use nm.Libft.Buffer.{Buffer, store}
use nm.Libft.Buffer.Laws.{held}
use nm.Libft.Strings.{ft_strchr}
use nm.Libft.Strings.Holds.{Holds, nul, char}
use nm.Libft.Split.Words.{word, rest}
use nm.Libft.Split.{ft_fillwords}
use nm.Libft.Split.Parts.{ft_fillwords-word}
use nm.Libft.Copies.{ncopy_loop}
use nm.Libft.NextLine.{strcdup_length, strcdup_loop, ft_strcdup}

abbrev pub is_newline : ℕ → Bool
is_newline a = a == 10

-- The chars in front of the first newline, and the string from there on.
abbrev pub first_line : List ℕ → List ℕ
first_line = word is_newline

abbrev pub from_newline : List ℕ → List ℕ
from_newline = rest is_newline

-- A string has no newline, or goes on behind its first one with `t`.
pub data Found (x s : List ℕ) : Type 0 where
  nowhere : from_newline s ≡ [] → ft_strchr x 10 ≡ some none → Found x s
  found :
      (k : ℕ) (t : List ℕ)
      → from_newline s ≡ 10 ∷ t
      → ft_strchr x 10 ≡ some (some k)
      → Holds (drop (k + 1) x) t
      → Found x s

Found-cons : {c : ℕ} {x s : List ℕ} → c ≢ 0 → (c == 10) ≡ false → Found x s → Found (c ∷ x) (c ∷ s)
unfolding ft_strchr rest
Found-cons {c} nz n (nowhere e f) = nowhere (rw n e) (rw (n, ne→== c 0 nz, f) refl)
Found-cons {c} nz n (found k t e f h) =
    found (suc k) t (rw n e) (rw (n, ne→== c 0 nz, f) refl) (rw (one k) h)
  where
    one : (k : ℕ) → suc k + 1 ≡ suc (k + 1)
    one k = omega arith

Found-here : {c : ℕ} {x s : List ℕ} → (c == 10) ≡ true → Holds x s → Found (c ∷ x) (c ∷ s)
unfolding ft_strchr rest
Found-here {c} {x} {s} n h = found 0 s (rw n (ground arith)) (rw n refl) h

pub ft_strchr-Found : {x s : List ℕ} → Holds x s → Found x s
unfolding ft_strchr rest
ft_strchr-Found (nul r z) = nowhere refl (rw z refl)
ft_strchr-Found (char {c} nz h) = elim (Bool-cases (c == 10)) [
  | inl n ↦ Found-here n h
  | inr n ↦ Found-cons nz n (ft_strchr-Found h)
]

-- `ft_strcdup` copies the first line.
strcdup_length-first_line :
    {x s : List ℕ} → Holds x s → strcdup_length x 10 ≡ some (length (first_line s))
unfolding strcdup_length word
strcdup_length-first_line (nul r z) = rw z refl
strcdup_length-first_line (char {c} nz h) = elim (Bool-cases (c == 10)) [
  | inl n ↦ rw (ne→== c 0 nz, n) refl
  | inr n ↦ rw (ne→== c 0 nz, n, strcdup_length-first_line h) refl
]

-- Its loop does what a loop for so many chars does.
strcdup_loop-end :
    (copy : Buffer) (i a : ℕ) (x : List ℕ)
    → (a ≡ 0) ⊎ ((a == 10) ≡ true)
    → strcdup_loop copy i (a ∷ x) 10 ≡ ncopy_loop copy i (a ∷ x) 0
unfolding strcdup_loop ncopy_loop
strcdup_loop-end copy i a x (inl z) = rw z refl
strcdup_loop-end copy i a x (inr n) = ground arith

strcdup_loop-store :
    (copy : Buffer) (i a n : ℕ) (x : List ℕ)
    → a ≢ 0
    → (a == 10) ≡ false
    → ((copy' : Buffer) → strcdup_loop copy' (i + 1) x 10 ≡ ncopy_loop copy' (i + 1) x n)
    → strcdup_loop copy i (a ∷ x) 10 ≡ ncopy_loop copy i (a ∷ x) (suc n)
unfolding strcdup_loop ncopy_loop
strcdup_loop-store copy i a n x nz e same = elim (Option-cases (store copy i a)) [
  | inl f ↦ rw (ne→== a 0 nz, e, f) refl
  | inr (copy', f) ↦ rw (ne→== a 0 nz, e, f) (same copy')
]

strcdup_loop-ncopy_loop :
    {x s : List ℕ} (copy : Buffer) (i : ℕ)
    → Holds x s
    → strcdup_loop copy i x 10 ≡ ncopy_loop copy i x (length (first_line s))
unfolding word
strcdup_loop-ncopy_loop copy i (nul {c} r z) = strcdup_loop-end copy i c r (inl z)
strcdup_loop-ncopy_loop copy i (char {c} {x} {s} nz h) = elim (Bool-cases (c == 10)) [
  | inl n ↦ strcdup_loop-end copy i c x (inr n) ∙ rw n refl
  | inr n ↦
      strcdup_loop-store copy i c (length (first_line s)) x nz n
        (λ copy'. strcdup_loop-ncopy_loop copy' (i + 1) h)
      ∙ rw n refl
]

pub ft_strcdup-first_line :
    {x s : List ℕ} → Holds x s → ft_strcdup x 10 ≡ some (held (first_line s) ++ (some 0 ∷ []))
unfolding ft_strcdup ft_fillwords
ft_strcdup-first_line {x} {s} h =
    onward _ (strcdup_length-first_line h)
    ∙ ap (λ (m : Option (Buffer × ℕ)). m >>= λ r. store r.0 r.1 0) (strcdup_loop-ncopy_loop _ 0 h)
    ∙ ft_fillwords-word is_newline h
