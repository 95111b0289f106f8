-- ===== src/FtNm/Sort/Laws.antt =====
-- What sort_list_by_name.c returns.
use mathlib.Core.List.{Perm}
use nm.Common.{
  ℕ, [], ◌∷◌, ◌≡◌, refl, ◌∙◌, ap, Bool, true, false, List, if◌then◌else◌, arith, length, All,
}
use nm.Common.Int.{is_pos, is_neg}
use nm.Machine.{Machine, ok}
use nm.Machine.Steps.{step}
use nm.Libft.Strings.Laws.{string_gt, string_gt_irrefl, string_gt_asym}
use nm.FtNm.NotFat.{Symbol}
use nm.FtNm.Sort.{compare_exchange, compare_exchange_reverse, exchange, sort_list_by_name}
use nm.FtNm.Sort.Loops.{IsSorted, IsOrder, cp_loop-Sorted, exchange_step}
use nm.FtNm.Sort.Order.{Key, key, key_gt, IsReadable, out_of_order-ok, settle-gt, settle-lt}

key_gt_irrefl : (k : Key) → key_gt k k ≡ false
unfolding key_gt
key_gt_irrefl k = ground (arith, string_gt_irrefl k.name)

key_gt_asym : (k l : Key) → key_gt k l ≡ true → key_gt l k ≡ false
unfolding key_gt
key_gt_asym k l h = ground (arith, string_gt_asym k.name l.name, string_gt_asym l.name k.name)

-- Not greater is transitive, for strings and then for keys.
string_gt_trans_not :
    (r s t : List ℕ) → string_gt r s ≡ false → string_gt s t ≡ false → string_gt r t ≡ false
unfolding string_gt
string_gt_trans_not [] s t h k = refl
string_gt_trans_not (a ∷ r) [] t h k = absurd (ground arith)
string_gt_trans_not (a ∷ r) (b ∷ s) [] h k = absurd (ground arith)
string_gt_trans_not (a ∷ r) (b ∷ s) (c ∷ t) h k = ground (arith, string_gt_trans_not r s t)

key_gt_trans_not : (k l n : Key) → key_gt k l ≡ false → key_gt l n ≡ false → key_gt k n ≡ false
unfolding key_gt
key_gt_trans_not k l n h h' = ground (
  arith,
  string_gt_trans_not k.name l.name n.name,
  string_gt_trans_not n.name k.name l.name,
  string_gt_trans_not l.name n.name k.name,
)

-- The order that is sorted by: the reverse one with the option `r`.
abbrev pub symbol_gt : Machine → Bool → Symbol → Symbol → Bool
symbol_gt m reversed a b =
    if reversed then key_gt (key m b) (key m a) else key_gt (key m a) (key m b)

symbol_gt-IsOrder : (m : Machine) (reversed : Bool) → IsOrder (symbol_gt m reversed)
symbol_gt-IsOrder m false = record {
  irrefl = λ a. key_gt_irrefl _;
  asym = λ a b h. key_gt_asym _ _ h;
  trans = λ a b c h k. key_gt_trans_not _ _ _ h k;
}
symbol_gt-IsOrder m true = record {
  irrefl = λ a. key_gt_irrefl _;
  asym = λ a b h. key_gt_asym _ _ h;
  trans = λ a b c h k. key_gt_trans_not _ _ _ k h;
}

exchange_step-ok :
    (m : Machine) (reversed is_64 : Bool) (low : List ℕ → ℕ) (a b : Symbol)
    → IsReadable m is_64 low a
    → IsReadable m is_64 low b
    → exchange_step reversed a b m ≡ ok (exchange (symbol_gt m reversed a b) a b) m
unfolding compare_exchange compare_exchange_reverse
exchange_step-ok m false is_64 low a b ra rb =
    step _ _ (out_of_order-ok ra rb is_pos)
    ∙ ap (λ (w : Bool). ok (exchange w a b) m) (settle-gt ra rb)
exchange_step-ok m true is_64 low a b ra rb =
    step _ _ (out_of_order-ok ra rb is_neg)
    ∙ ap (λ (w : Bool). ok (exchange w a b) m) (settle-lt ra rb)

-- `out` is `list` in order, and the sort returned it.
pub record SortsTo (m : Machine) (reversed : Bool) (list out : List Symbol) : Type 0 where
  pub returns : sort_list_by_name reversed list m ≡ ok out m
  pub perm : Perm out list
  pub sorted : IsSorted (symbol_gt m reversed) out

-- If every name of the list ends in the mapping, every value lies in it, and the values of each
-- name are less than 2 ^ 31 apart, then `sort_list_by_name` does not fault and leaves the memory as
-- it is; its result holds the same symbols, sorted by name and value, or the other way round.
pub sort_list_by_name-SortsTo :
    (m : Machine) (reversed is_64 : Bool) (low : List ℕ → ℕ) (list : List Symbol)
    → All (IsReadable m is_64 low) list
    → (out : List Symbol) × SortsTo m reversed list out
unfolding sort_list_by_name
sort_list_by_name-SortsTo m reversed is_64 low list readable =
    let s =
      cp_loop-Sorted m reversed (symbol_gt m reversed) (symbol_gt-IsOrder m reversed)
        (IsReadable m is_64 low) (exchange_step-ok m reversed is_64 low) (length list) list refl
        readable in
    (s.out, record { returns = s.returns; perm = s.perm; sorted = s.sorted })

-- What holds of every symbol of the list holds of the symbols of the result, which has their number.
pub sort_list_by_name-keeps :
    (m : Machine) (reversed is_64 : Bool) (low : List ℕ → ℕ) (Q : Symbol → Type 0)
    (list : List Symbol)
    → All (λ s. IsReadable m is_64 low s × Q s) list
    → (out : List Symbol) × SortsTo m reversed list out
      × All (λ s. IsReadable m is_64 low s × Q s) out
      × (length out ≡ length list)
unfolding sort_list_by_name
sort_list_by_name-keeps m reversed is_64 low Q list h =
    let s =
      cp_loop-Sorted m reversed (symbol_gt m reversed) (symbol_gt-IsOrder m reversed)
        (λ s. IsReadable m is_64 low s × Q s)
        (λ a b ra rb. exchange_step-ok m reversed is_64 low a b ra.0 rb.0) (length list) list refl
        h in
    (s.out, record { returns = s.returns; perm = s.perm; sorted = s.sorted }, s.keeps, s.same_size)
