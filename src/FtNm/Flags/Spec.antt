-- ===== src/FtNm/Flags/Spec.antt =====
-- What `set_flags_nm` is to make of a command line, described apart from its loops.
use nm.Common.{
  ℕ, suc, ◌-◌, Bool, false, ◌||◌, Option, none, some, List, [], ◌∷◌, ◌++◌, ◌==◌, if◌then◌else◌,
  length, replicate,
}
use nm.FtNm.Flags.{Flags, Parsed, parsed, usage, is_flag}

unfoldable pub contains : ℕ → List ℕ → Bool
contains c [] = false
contains c (x ∷ xs) = (x == c) || contains c xs

-- The letters of a text, each where it comes first, behind those of `seen`.
unfoldable pub collect : List ℕ → List ℕ → List ℕ
collect seen [] = seen
collect seen (c ∷ s) = collect (if contains c seen then seen else seen ++ (c ∷ [])) s

-- The first char that is no option.
unfoldable pub first_bad : List ℕ → Option ℕ
first_bad [] = none
first_bad (c ∷ s) = if is_flag c then first_bad s else some c

-- The arguments before the first that does not begin with a dash or is just one: their letters, in
-- a row, and their number.
unfoldable pub option_letters : List (List ℕ) → List ℕ
option_letters [] = []
option_letters ([] ∷ av) = []
option_letters ((d ∷ []) ∷ av) = []
option_letters ((d ∷ c ∷ s) ∷ av) = if d == b'-' then (c ∷ s) ++ option_letters av else []

unfoldable pub option_count : List (List ℕ) → ℕ
option_count [] = 0
option_count ([] ∷ av) = 0
option_count ((d ∷ []) ∷ av) = 0
option_count ((d ∷ c ∷ s) ∷ av) = if d == b'-' then suc (option_count av) else 0

-- The buffer of 10 chars with the letters in it, and the place behind them.
abbrev pub buffer : List ℕ → Flags
buffer seen = record { flags = seen ++ replicate (10 - length seen) 0; i = length seen }

-- The result where no char is bad, or the usage message at the first that is.
abbrev pub finish {ℓ} : {A : Type ℓ} → Option ℕ → A → Parsed A
finish none a = parsed a
finish (some c) a = usage c
