-- ===== src/FtNm/Flags/Buffer.antt =====
-- One letter of an option in the buffer of set_flag.c: it is found, or it fits.
use mathlib.Core.List.{append_assoc}
use nm.Common.{
  get_elem?-middle, set-middle, ℕ, suc, ◌+◌, ◌-◌, ◌≤◌, ◌≡◌, ◌≢◌, sym, ◌∙◌, Bool, true, false, ◌||◌,
  none, some, List, [], ◌∷◌, ◌++◌, ◌==◌, if◌then◌else◌, arith, length, length-append, get_elem?,
  set, replicate, Bool-cases, inl, inr,
}
use nm.Libft.Strings.{ft_strchr}
use nm.FtNm.Flags.{Flags, parsed, is_flag, store_flag, add_flag}
use nm.FtNm.Flags.Spec.{contains, buffer}

-- The letters of the options, no one twice: one of each of six at most.
unfoldable pub one_if : Bool → ℕ
one_if true = 1
one_if false = 0

unfoldable pub letters_in : List ℕ → ℕ
letters_in s =
    one_if (contains b'g' s)
    + one_if (contains b'p' s)
    + one_if (contains b'r' s)
    + one_if (contains b'u' s)
    + one_if (contains b'U' s)
    + one_if (contains b'j' s)

pub record IsSeen (seen : List ℕ) : Type 0 where
  pub counted : length seen ≡ letters_in seen
  pub no_nul : contains 0 seen ≡ false

pub letters_in-le : (s : List ℕ) → letters_in s ≤ 6
unfolding letters_in one_if
letters_in-le s = ground arith

pub contains-snoc : (a c : ℕ) (s : List ℕ) → contains a (s ++ (c ∷ [])) ≡ (contains a s || (c == a))
unfolding contains
contains-snoc a c [] = ground arith
contains-snoc a c (x ∷ xs) = ground (arith, contains-snoc a c xs)

pub IsSeen-snoc :
    (c : ℕ) (seen : List ℕ)
    → is_flag c ≡ true
    → contains c seen ≡ false
    → IsSeen seen
    → IsSeen (seen ++ (c ∷ []))
unfolding is_flag letters_in one_if
IsSeen-snoc c seen flag new v = record {
  counted = ground (
    arith,
    length-append seen (c ∷ []),
    contains-snoc b'g' c seen,
    contains-snoc b'p' c seen,
    contains-snoc b'r' c seen,
    contains-snoc b'u' c seen,
    contains-snoc b'U' c seen,
    contains-snoc b'j' c seen,
  );
  no_nul = ground (arith, contains-snoc 0 c seen);
}

-- In the buffer `ft_strchr` finds just the letters that are there.
pub ft_strchr-absent :
    (c : ℕ) (seen : List ℕ) (k : ℕ)
    → c ≢ 0
    → contains 0 seen ≡ false
    → contains c seen ≡ false
    → ft_strchr (seen ++ replicate (suc k) 0) c ≡ some none
unfolding ft_strchr contains
ft_strchr-absent c [] k nz z n = ground arith
ft_strchr-absent c (x ∷ xs) k nz z n = ground (arith, ft_strchr-absent c xs k nz)

pub ft_strchr-present :
    (c : ℕ) (seen rest : List ℕ)
    → contains 0 seen ≡ false
    → contains c seen ≡ true
    → (i : ℕ) × (ft_strchr (seen ++ rest) c ≡ some (some i))
unfolding ft_strchr contains
ft_strchr-present c [] rest z h = absurd (ground arith)
ft_strchr-present c (x ∷ xs) rest z h = elim (Bool-cases (x == c)) [
  | inl e ↦ (0, ground arith)
  | inr ne ↦
      let (i, e) = ft_strchr-present c xs rest (ground arith) (ground arith) in
      (suc i, ground arith)
]

pub store_flag-at :
    (f : Flags) (c v : ℕ)
    → get_elem? f.flags f.i ≡ some v
    → store_flag f c ≡ parsed (record { flags = set f.flags f.i c; i = f.i + 1 })
unfolding store_flag
store_flag-at f c v e = rw (e, store_flag)

-- Room is left, and the letter goes into it.
pub store_flag-buffer :
    (c : ℕ) (seen : List ℕ)
    → length seen ≤ 6
    → store_flag (buffer seen) c ≡ parsed (buffer (seen ++ (c ∷ [])))
store_flag-buffer c seen fits =
    let zeros : List ℕ = replicate (9 - length seen) 0 in
    let room : 10 - length seen ≡ suc (9 - length seen) = omega arith in
    let left : 10 - length (seen ++ (c ∷ [])) ≡ 9 - length seen =
      omega (arith, length-append seen (c ∷ [])) in
    let size : length seen + 1 ≡ length (seen ++ (c ∷ [])) =
      omega (arith, length-append seen (c ∷ [])) in
    let free : get_elem? (buffer seen).flags (length seen) ≡ some 0 =
      rw room (get_elem?-middle seen 0 zeros) in
    let filled : set (buffer seen).flags (length seen) c ≡ (buffer (seen ++ (c ∷ []))).flags =
      rw (room, left) (set-middle seen 0 c zeros ∙ sym (append_assoc seen (c ∷ []) zeros)) in
    store_flag-at (buffer seen) c 0 free ∙ λ i. parsed (record { flags = filled i; i = size i })

abbrev pub with_letter : ℕ → List ℕ → List ℕ
with_letter c seen = if contains c seen then seen else seen ++ (c ∷ [])

pub IsSeen-le : {seen : List ℕ} → IsSeen seen → length seen ≤ 6
IsSeen-le {seen} v = omega (arith, letters_in-le seen)

module _ (f : Flags) (c : ℕ) where
  add_flag-new : ft_strchr f.flags c ≡ some none → add_flag f c ≡ store_flag f c
  unfolding add_flag
  add_flag-new e = rw (e, add_flag)

  add_flag-old : (i : ℕ) → ft_strchr f.flags c ≡ some (some i) → add_flag f c ≡ parsed f
  unfolding add_flag
  add_flag-old i e = rw (e, add_flag)

pub is_flag-ne_nul : (c : ℕ) → is_flag c ≡ true → c ≢ 0
unfolding is_flag
is_flag-ne_nul c h = ground arith

pub add_flag-buffer :
    (c : ℕ) (seen : List ℕ)
    → is_flag c ≡ true
    → IsSeen seen
    → add_flag (buffer seen) c ≡ parsed (buffer (with_letter c seen))
add_flag-buffer c seen flag v = elim (Bool-cases (contains c seen)) [
  | inl old ↦
      let (i, e) = ft_strchr-present c seen (replicate (10 - length seen) 0) v.no_nul old in
      rw old (add_flag-old (buffer seen) c i e)
  | inr new ↦
      let room : 10 - length seen ≡ suc (9 - length seen) = omega (arith, IsSeen-le v) in
      let e = ft_strchr-absent c seen (9 - length seen) (is_flag-ne_nul c flag) v.no_nul new in
      let e' : ft_strchr (buffer seen).flags c ≡ some none = rw room e in
      rw new (add_flag-new (buffer seen) c e' ∙ store_flag-buffer c seen (IsSeen-le v))
]

pub IsSeen-with_letter :
    (c : ℕ) (seen : List ℕ) → is_flag c ≡ true → IsSeen seen → IsSeen (with_letter c seen)
IsSeen-with_letter c seen flag v = elim (Bool-cases (contains c seen)) [
  | inl old ↦ rw old v
  | inr new ↦ rw new (IsSeen-snoc c seen flag new v)
]
