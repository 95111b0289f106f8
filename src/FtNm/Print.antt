-- ===== src/FtNm/Print.antt =====
-- print_nm_list.c: which symbols are shown, and `sort_nm_list` of nm.c. The lines are in Lines.
pub mod Shown
use nm.Common.{
  ℕ, Bool, true, false, not, ◌&&◌, ◌||◌, Option, none, some, List, [], ◌∷◌, leb, ◌==◌,
  if◌then◌else◌,
}
use nm.Machine.{Proc, Run, fault, pure}
use nm.Libft.Strings.{ft_strchr}
use nm.FtNm.NotFat.{Symbol}
use nm.FtNm.Sort.{sort_list_by_name}

abbrev pub is_some {ℓ} : {A : Type ℓ} → Option A → Bool
is_some none = false
is_some (some a) = true

-- What is done with the truth of `ft_strchr(flags, c)`; `none` is a read outside of the buffer.
abbrev pub with_flag {ℓ} : {A : Type ℓ} → List ℕ → ℕ → (Bool → Option A) → Option A
with_flag flags c k = elim (ft_strchr flags c) [ none ↦ none | some at ↦ k (is_some at) ]

unfoldable pub is_extern : ℕ → Bool
is_extern c = leb b'A' c && leb c b'Z'

unfoldable pub can_show_list : (type : ℕ) → (flags : List ℕ) → Option Bool
can_show_list type flags =
    if type == b'-'
    then some false
    else with_flag flags b'u' λ u. with_flag flags b'U' λ defined.
      if u && defined
      then some false
      else if u
      then with_flag flags b'g'
          (λ g. some (if g then type == b'U' else type == b'u' || type == b'U'))
      else if defined
      then with_flag flags b'g' (λ g. some (
          if g
          then is_extern type && not (type == b'U')
          else not (type == b'u') && not (type == b'U')))
      else some true

-- `reversed` is `ft_strchr(flags, 'r')`, which `sort_list_by_name` looks up itself.
unfoldable pub sort_nm_list : List Symbol → (flags : List ℕ) → Proc (List Symbol)
sort_nm_list list flags m = elim (ft_strchr flags b'p') [
  | none ↦ fault
  | some (some at) ↦ pure list m
  | some none ↦ elim list [
    | [] ↦ pure [] m
    | x ∷ xs ↦ elim (ft_strchr flags b'r') [
      | none ↦ fault
      | some at ↦ sort_list_by_name (is_some at) (x ∷ xs) m
    ]
  ]
]
