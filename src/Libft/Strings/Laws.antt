-- ===== src/Libft/Strings/Laws.antt =====
-- What the string functions of libft compute, in terms of the string that an object holds.
use mathlib.Core.Option
use nm.Common.{
  ◌&&◌, not, Option-cases, ℕ, ◌≡◌, ◌≢◌, refl, ◌∙◌, Bool, true, false, Option, none, some, List, [],
  ◌∷◌, ltb, ◌==◌, if◌then◌else◌, arith, length, Bool-cases, inl, inr,
}
use nm.Common.Int.{ℤ, sub_ℕ, is_pos, is_neg}
use nm.Libft.Strings.{ft_strlen, ft_strcmp}

-- The string that an object holds: its bytes before the first NUL. `none` if it holds no NUL.
unfoldable pub c_string : List ℕ → Option (List ℕ)
c_string [] = none
c_string (c ∷ s) = if c == 0 then some [] else Option.map (λ t. c ∷ t) (c_string s)

-- The order of strings: byte by byte, a proper prefix first.
unfoldable pub string_gt : List ℕ → List ℕ → Bool
string_gt [] t = false
string_gt (a ∷ s) [] = true
string_gt (a ∷ s) (b ∷ t) = if a == b then string_gt s t else ltb b a

-- `ft_strlen` is the length of the string, and faults exactly where there is none.
pub ft_strlen-c_string : (s : List ℕ) → ft_strlen s ≡ Option.map length (c_string s)
unfolding ft_strlen c_string
ft_strlen-c_string [] = refl
ft_strlen-c_string (c ∷ s) = ground (arith, ft_strlen-c_string s)

-- The two shapes of a string at a byte.
pub data Held (c : ℕ) (x s : List ℕ) : Type 0 where
  ends : c ≡ 0 → s ≡ [] → Held c x s
  goes_on : c ≢ 0 → (r : List ℕ) → c_string x ≡ some r → s ≡ c ∷ r → Held c x s

pub c_string-cons : (c : ℕ) (x s : List ℕ) → c_string (c ∷ x) ≡ some s → Held c x s
unfolding c_string
c_string-cons c x s h = elim (Bool-cases (c == 0)) [
  | inl z ↦ ends (ground arith) (ground arith)
  | inr nz ↦ elim (Option-cases (c_string x)) [
    | inl e ↦ absurd (ground arith)
    | inr (r, e) ↦ goes_on (ground arith) r e (ground arith)
  ]
]

-- The result of `ft_strcmp` on two strings is positive or negative as their order says.
pub record Compared (x y s t : List ℕ) : Type 0 where
  pub result : ℤ
  pub runs : ft_strcmp x y ≡ some result
  pub gt : is_pos result ≡ string_gt s t
  pub lt : is_neg result ≡ string_gt t s

module _ (a b : ℕ) (x y : List ℕ) where
  differ :
      (not (a == 0) && not (b == 0) && a == b) ≡ false
      → ft_strcmp (a ∷ x) (b ∷ y) ≡ some (sub_ℕ a b)
  unfolding ft_strcmp
  differ h = rw h

  agree :
      (not (a == 0) && not (b == 0) && a == b) ≡ true → ft_strcmp (a ∷ x) (b ∷ y) ≡ ft_strcmp x y
  unfolding ft_strcmp
  agree h = rw h

Compared-differ :
    (a b : ℕ) (x y s t : List ℕ)
    → (not (a == 0) && not (b == 0) && a == b) ≡ false
    → is_pos (sub_ℕ a b) ≡ string_gt s t
    → is_neg (sub_ℕ a b) ≡ string_gt t s
    → Compared (a ∷ x) (b ∷ y) s t
Compared-differ a b x y s t h g l = record {
  result = sub_ℕ a b;
  runs = differ a b x y h;
  gt = g;
  lt = l;
}

Compared-agree :
    (a b : ℕ) (x y s t : List ℕ)
    → (not (a == 0) && not (b == 0) && a == b) ≡ true
    → Compared x y s t
    → Compared (a ∷ x) (b ∷ y) (a ∷ s) (b ∷ t)
unfolding string_gt
Compared-agree a b x y s t h c = record {
  result = c.result;
  runs = agree a b x y h ∙ c.runs;
  gt = ground arith;
  lt = ground arith;
}

Compared-heads :
    (a b : ℕ) (x y s t : List ℕ)
    → Held a x s
    → Held b y t
    → ((s t : List ℕ) → c_string x ≡ some s → c_string y ≡ some t → Compared x y s t)
    → Compared (a ∷ x) (b ∷ y) s t
unfolding string_gt
Compared-heads a b x y s t (ends a0 es) (ends b0 et) ih =
    Compared-differ a b x y s t (ground arith) (ground arith) (ground arith)
Compared-heads a b x y s t (ends a0 es) (goes_on bn r e et) ih =
    Compared-differ a b x y s t (ground arith) (ground arith) (ground arith)
Compared-heads a b x y s t (goes_on an r e es) (ends b0 et) ih =
    Compared-differ a b x y s t (ground arith) (ground arith) (ground arith)
Compared-heads a b x y s t (goes_on an r e es) (goes_on bn q f et) ih = elim (Bool-cases (a == b)) [
  | inl same ↦ rw (es, et) (Compared-agree a b x y r q (ground arith) (ih r q e f))
  | inr ne ↦ Compared-differ a b x y s t (ground arith) (ground arith) (ground arith)
]

-- On objects that hold strings `ft_strcmp` does not fault, and its result is positive or negative
-- exactly as the order of the two strings says.
pub ft_strcmp-Compared :
    (x y s t : List ℕ) → c_string x ≡ some s → c_string y ≡ some t → Compared x y s t
unfolding c_string
ft_strcmp-Compared [] y s t hx hy = absurd (ground arith)
ft_strcmp-Compared (a ∷ x) [] s t hx hy = absurd (ground arith)
ft_strcmp-Compared (a ∷ x) (b ∷ y) s t hx hy =
    Compared-heads a b x y s t (c_string-cons a x s hx) (c_string-cons b y t hy)
      (ft_strcmp-Compared x y)

-- The order is a strict total order.
pub string_gt_irrefl : (s : List ℕ) → string_gt s s ≡ false
unfolding string_gt
string_gt_irrefl [] = refl
string_gt_irrefl (a ∷ s) = ground (arith, string_gt_irrefl s)

pub string_gt_asym : (s t : List ℕ) → string_gt s t ≡ true → string_gt t s ≡ false
unfolding string_gt
string_gt_asym [] t h = absurd (ground arith)
string_gt_asym (a ∷ s) [] h = refl
string_gt_asym (a ∷ s) (b ∷ t) h = ground (arith, string_gt_asym s t)

pub string_gt_total : (s t : List ℕ) → string_gt s t ≡ false → string_gt t s ≡ false → s ≡ t
unfolding string_gt
string_gt_total [] [] h k = refl
string_gt_total [] (b ∷ t) h k = absurd (ground arith)
string_gt_total (a ∷ s) [] h k = absurd (ground arith)
string_gt_total (a ∷ s) (b ∷ t) h k = ground (arith, string_gt_total s t)

pub string_gt_trans :
    (r s t : List ℕ) → string_gt r s ≡ true → string_gt s t ≡ true → string_gt r t ≡ true
unfolding string_gt
string_gt_trans [] s t h k = absurd (ground arith)
string_gt_trans (a ∷ r) [] t h k = absurd (ground arith)
string_gt_trans (a ∷ r) (b ∷ s) [] h k = refl
string_gt_trans (a ∷ r) (b ∷ s) (c ∷ t) h k = ground (arith, string_gt_trans r s t)
