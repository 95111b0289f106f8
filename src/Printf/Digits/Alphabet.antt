-- ===== src/Printf/Digits/Alphabet.antt =====
-- The digits of a base as chars: what `ft_convert_base` needs of its two strings.
use nm.Common.{
  ℕ, ◌+◌, ◌<◌, ◌≡◌, ◌≢◌, refl, Bool, true, false, Option, none, some, List, get_elem?, ltb, ◌==◌,
  if◌then◌else◌, arith, ==→eq, ◌&&◌,
}
use nm.Common.Tables.{all_below, all_below-holds}
use nm.Libft.Strings.{ft_strlen}
use nm.Printf.Digits.{base_length, position_in_base, decimal_digits, hex_digits, hex_capitals}

-- `chars` holds the letters of the digits below `base`, in order, and a NUL.
pub record IsAlphabet (base : ℕ) (chars : List ℕ) (letter : ℕ → ℕ) : Type 0 where
  pub counted : base_length chars ≡ some base
  pub at : (d : ℕ) → d < base → get_elem? chars d ≡ some (letter d)
  pub position : (d : ℕ) → d < base → position_in_base chars (letter d) ≡ some d
  pub no_nul : (d : ℕ) → d < base → letter d ≢ 0

abbrev pub is : Option ℕ → ℕ → Bool
is none n = false
is (some m) n = m == n

is-eq : (o : Option ℕ) (n : ℕ) → is o n ≡ true → o ≡ some n
is-eq none n h = absurd (ground arith)
is-eq (some m) n h = ground (arith, ==→eq m n)

-- The letters of numerals: '0' to '9', and 'a' on or 'A' on.
abbrev pub decimal_letter : ℕ → ℕ
decimal_letter d = d + b'0'

abbrev pub hex_letter : ℕ → ℕ
hex_letter d = if ltb d 10 then d + b'0' else d + 87

abbrev pub capital_letter : ℕ → ℕ
capital_letter d = if ltb d 10 then d + b'0' else d + 55

-- The test of both tables, for every digit.
abbrev fits : List ℕ → (ℕ → ℕ) → ℕ → Bool
fits chars letter d =
    is (get_elem? chars d) (letter d)
    && is (position_in_base chars (letter d)) d
    && ltb 0 (letter d)

fits-at :
    (chars : List ℕ) (letter : ℕ → ℕ) (d : ℕ)
    → fits chars letter d ≡ true
    → get_elem? chars d ≡ some (letter d)
fits-at chars letter d h = is-eq (get_elem? chars d) (letter d) (ground arith)

fits-position :
    (chars : List ℕ) (letter : ℕ → ℕ) (d : ℕ)
    → fits chars letter d ≡ true
    → position_in_base chars (letter d) ≡ some d
fits-position chars letter d h = is-eq (position_in_base chars (letter d)) d (ground arith)

fits-no_nul : (chars : List ℕ) (letter : ℕ → ℕ) (d : ℕ) → fits chars letter d ≡ true → letter d ≢ 0
fits-no_nul chars letter d h = ground arith

pub alphabet :
    (base : ℕ) (chars : List ℕ) (letter : ℕ → ℕ)
    → base_length chars ≡ some base
    → all_below base (fits chars letter) ≡ true
    → IsAlphabet base chars letter
alphabet base chars letter counted table = record {
  counted = counted;
  at = λ d h. fits-at chars letter d (all_below-holds base _ d table h);
  position = λ d h. fits-position chars letter d (all_below-holds base _ d table h);
  no_nul = λ d h. fits-no_nul chars letter d (all_below-holds base _ d table h);
}

pub decimal_IsAlphabet : IsAlphabet 10 decimal_digits decimal_letter
unfolding base_length ft_strlen position_in_base all_below
decimal_IsAlphabet = alphabet 10 decimal_digits decimal_letter refl refl

pub hex_IsAlphabet : IsAlphabet 16 hex_digits hex_letter
unfolding base_length ft_strlen position_in_base all_below
hex_IsAlphabet = alphabet 16 hex_digits hex_letter refl refl

pub capital_IsAlphabet : IsAlphabet 16 hex_capitals capital_letter
unfolding base_length ft_strlen position_in_base all_below
capital_IsAlphabet = alphabet 16 hex_capitals capital_letter refl refl
