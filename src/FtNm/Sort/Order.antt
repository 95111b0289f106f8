-- ===== src/FtNm/Sort/Order.antt =====
-- The order of sort_list_by_name.c: by name, and by value among the symbols of one name.
use nm.Common.{
  ℕ, ◌+◌, ◌^◌, ◌≤◌, ◌<◌, ◌≡◌, refl, ap, ◌∙◌, Bool, true, false, Option, none, some, List, [], ltb,
  if◌then◌else◌, arith,
}
use nm.Common.Int.{ℤ, pos, negsuc, is_pos, is_neg, is_zero}
use nm.Machine.{Machine, Run, ok, fault, look, string_at, read_word, pure, ◌>>=◌}
use nm.Machine.Steps.{step}
use nm.Libft.Strings.Laws.{
  c_string, string_gt, ft_strcmp-Compared, Compared, string_gt_asym, string_gt_total,
}
use nm.FtNm.NotFat.{Symbol}
use nm.FtNm.Sort.{compare_words, compare_add, compare_name, out_of_order}

-- What a symbol is sorted by.
pub record Key : Type 0 where
  pub name : List ℕ
  pub value : ℕ

abbrev text : Option (List ℕ) → List ℕ
text none = []
text (some s) = s

abbrev word : Run ℕ → ℕ
word (ok v m) = v
word fault = 0

unfoldable pub key : Machine → Symbol → Key
key m s = record {
  name = text (c_string (string_at m s.name));
  value = word (read_word s.is_64 s.add m);
}

unfoldable pub key_gt : Key → Key → Bool
key_gt k l =
    if string_gt k.name l.name
    then true
    else if string_gt l.name k.name
    then false
    else ltb l.value k.value

-- A symbol of the width `is_64`, whose name ends in the mapping and whose value lies in it. `low`
-- says where the values of each name begin: they are less than 2 ^ 31 apart.
pub record IsReadable (m : Machine) (is_64 : Bool) (low : List ℕ → ℕ) (s : Symbol) : Type 0 where
  pub width : s.is_64 ≡ is_64
  pub named : c_string (string_at m s.name) ≡ some (key m s).name
  pub valued : read_word is_64 s.add m ≡ ok (key m s).value m
  pub above : low (key m s).name ≤ (key m s).value
  pub below : (key m s).value < low (key m s).name + 2 ^ 31
  pub fits : (key m s).value < 2 ^ 64

-- Values that are less than 2 ^ 31 apart compare as numbers.
pub compare_words-near :
    (low a b : ℕ)
    → a < 2 ^ 64
    → b < 2 ^ 64
    → low ≤ a
    → a < low + 2 ^ 31
    → low ≤ b
    → b < low + 2 ^ 31
    → (is_pos (compare_words a b) ≡ ltb b a) × (is_neg (compare_words a b) ≡ ltb a b)
unfolding compare_words
compare_words-near low a b ha hb la ua lb ub = ground arith

is_zero-signs :
    (z : ℤ) (b : Bool) → is_pos z ≡ b → is_neg z ≡ false → is_zero z ≡ (if b then false else true)
is_zero-signs (pos n) b p q = ground arith
is_zero-signs (negsuc n) b p q = absurd (ground arith)

is_zero-neg : (z : ℤ) → is_neg z ≡ true → (is_zero z ≡ false) × (is_pos z ≡ false)
is_zero-neg (pos n) q = absurd (ground arith)
is_zero-neg (negsuc n) q = (refl, refl)

-- How a comparison goes on, given the order of the names.
abbrev pub settle : (wrong by_name wrong_add : Bool) → Bool
settle wrong by_name wrong_add = if wrong then true else if by_name then wrong_add else false

module _ {m : Machine} {is_64 : Bool} {low : List ℕ → ℕ} {a b : Symbol}
    (ra : IsReadable m is_64 low a) (rb : IsReadable m is_64 low b) where
  pub names : Compared (string_at m a.name) (string_at m b.name) (key m a).name (key m b).name
  names = ft_strcmp-Compared _ _ (key m a).name (key m b).name ra.named rb.named

  compare_name-ok : compare_name a b m ≡ ok names.result m
  unfolding compare_name
  compare_name-ok = rw (names.runs, look)

  compare_add-ok : compare_add a b m ≡ ok (compare_words (key m a).value (key m b).value) m
  unfolding compare_add
  compare_add-ok =
      step _ _ (ap (λ (w : Bool). read_word w a.add m) ra.width ∙ ra.valued)
      ∙ step _ _ (ap (λ (w : Bool). read_word w b.add m) ra.width ∙ rb.valued)

  pub out_of_order-ok :
      (wrong : ℤ → Bool)
      → out_of_order wrong a b m
        ≡ ok
            (settle
              (wrong names.result)
              (is_zero names.result)
              (wrong (compare_words (key m a).value (key m b).value)))
            m
  unfolding out_of_order
  out_of_order-ok wrong =
      step _ _ compare_name-ok ∙ settled (wrong names.result) (is_zero names.result)
    where
      settled :
          (w z : Bool)
          → (if w
                then pure true
                else if z
                then (compare_add a b >>= λ d. pure (wrong d))
                else pure false)
              m
            ≡ ok (settle w z (wrong (compare_words (key m a).value (key m b).value))) m
      settled true z = refl
      settled false true = step _ _ compare_add-ok
      settled false false = refl

  near :
      (key m a).name ≡ (key m b).name
      → (is_pos (compare_words (key m a).value (key m b).value)
          ≡ ltb (key m b).value (key m a).value)
        × (is_neg (compare_words (key m a).value (key m b).value)
            ≡ ltb (key m a).value (key m b).value)
  near e =
      let same = ap low e in
      compare_words-near (low (key m b).name) _ _ ra.fits rb.fits (omega arith) (omega arith)
        rb.above rb.below

  same_name :
      string_gt (key m a).name (key m b).name ≡ false
      → string_gt (key m b).name (key m a).name ≡ false
      → (is_pos (compare_words (key m a).value (key m b).value)
          ≡ ltb (key m b).value (key m a).value)
        × (is_neg (compare_words (key m a).value (key m b).value)
            ≡ ltb (key m a).value (key m b).value)
  same_name g l = near (string_gt_total _ _ g l)

  pub settle-gt :
      settle
        (is_pos names.result)
        (is_zero names.result)
        (is_pos (compare_words (key m a).value (key m b).value))
      ≡ key_gt (key m a) (key m b)
  unfolding key_gt
  settle-gt = ground (
    arith,
    names.gt,
    names.lt,
    same_name,
    is_zero-neg names.result,
    is_zero-signs names.result (string_gt (key m a).name (key m b).name),
    string_gt_asym (key m a).name (key m b).name,
  )

  pub settle-lt :
      settle
        (is_neg names.result)
        (is_zero names.result)
        (is_neg (compare_words (key m a).value (key m b).value))
      ≡ key_gt (key m b) (key m a)
  unfolding key_gt
  settle-lt = ground (
    arith,
    names.gt,
    names.lt,
    same_name,
    is_zero-neg names.result,
    is_zero-signs names.result (string_gt (key m a).name (key m b).name),
    string_gt_asym (key m a).name (key m b).name,
  )
