-- ===== src/Libft/Strings/Prefix.antt =====
-- `ft_strncmp` and the first bytes of two strings.
use nm.Common.{
  ◌&&◌, not, ℕ, zero, suc, ◌≡◌, refl, ◌∙◌, Bool, true, false, some, List, [], ◌∷◌, ltb, ◌==◌, arith,
  Bool-cases, inl, inr,
}
use nm.Common.Int.{sub_ℕ, is_zero}
use nm.Libft.Strings.{ft_strncmp, ft_strnequ}
use nm.Libft.Strings.Laws.{c_string, Held, ends, goes_on, c_string-cons}

-- Two strings agree in their first `n` bytes, where a string that ends has no more of them.
unfoldable pub agree : ℕ → List ℕ → List ℕ → Bool
agree zero s t = true
agree (suc n) [] [] = true
agree (suc n) [] (b ∷ t) = false
agree (suc n) (a ∷ s) [] = false
agree (suc n) (a ∷ s) (b ∷ t) = a == b && agree n s t

is_zero-sub_ℕ : (a b : ℕ) → is_zero (sub_ℕ a b) ≡ (a == b)
is_zero-sub_ℕ a b = ground arith

module _ (n a b : ℕ) (x y : List ℕ) where
  on :
      (not (a == 0) && not (b == 0) && a == b && ltb 0 n) ≡ true
      → ft_strnequ (a ∷ x) (b ∷ y) (suc n) ≡ ft_strnequ x y n
  unfolding ft_strnequ ft_strncmp
  on h = rw h refl

  off :
      (not (a == 0) && not (b == 0) && a == b && ltb 0 n) ≡ false
      → ft_strnequ (a ∷ x) (b ∷ y) (suc n) ≡ some (a == b)
  unfolding ft_strnequ ft_strncmp
  off h = rw h (rw (is_zero-sub_ℕ a b) refl)

ft_strnequ-heads :
    (n a b : ℕ) (x y s t : List ℕ)
    → Held a x s
    → Held b y t
    → ((s t : List ℕ)
        → c_string x ≡ some s
        → c_string y ≡ some t
        → ft_strnequ x y n ≡ some (agree n s t))
    → ft_strnequ (a ∷ x) (b ∷ y) (suc n) ≡ some (agree (suc n) s t)
unfolding agree
ft_strnequ-heads n a b x y s t (ends a0 es) (ends b0 et) ih =
    rw (es, et) (off n a b x y (ground arith) ∙ ground arith)
ft_strnequ-heads n a b x y s t (ends a0 es) (goes_on bn q f et) ih =
    rw (es, et) (off n a b x y (ground arith) ∙ ground arith)
ft_strnequ-heads n a b x y s t (goes_on an r e es) (ends b0 et) ih =
    rw (es, et) (off n a b x y (ground arith) ∙ ground arith)
ft_strnequ-heads zero a b x y s t (goes_on an r e es) (goes_on bn q f et) ih =
    rw (es, et) (off zero a b x y (ground arith) ∙ ground arith)
ft_strnequ-heads (suc n) a b x y s t (goes_on an r e es) (goes_on bn q f et) ih =
    elim (Bool-cases (a == b)) [
      | inl same ↦ rw (es, et) (on (suc n) a b x y (ground arith) ∙ ih r q e f ∙ rw same refl)
      | inr ne ↦ rw (es, et) (off (suc n) a b x y (ground arith) ∙ rw ne refl)
    ]

-- On objects that hold strings `ft_strnequ`, and the `ft_strncmp` in it, does not fault for any `n`,
-- and its result is whether the strings agree in their first `n` bytes.
pub ft_strnequ-agree :
    (n : ℕ) (x y s t : List ℕ)
    → c_string x ≡ some s
    → c_string y ≡ some t
    → ft_strnequ x y n ≡ some (agree n s t)
unfolding c_string ft_strnequ ft_strncmp agree
ft_strnequ-agree zero x y s t hx hy = refl
ft_strnequ-agree (suc n) [] y s t hx hy = absurd (ground arith)
ft_strnequ-agree (suc n) (a ∷ x) [] s t hx hy = absurd (ground arith)
ft_strnequ-agree (suc n) (a ∷ x) (b ∷ y) s t hx hy =
    ft_strnequ-heads n a b x y s t (c_string-cons a x s hx) (c_string-cons b y t hy)
      (ft_strnequ-agree n x y)
