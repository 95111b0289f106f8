-- ===== src/Libft/Strings/Holds.antt =====
-- That an object holds a string, as a derivation: an induction for the loops over the chars of a string.
use nm.Common.{ℕ, ◌<◌, ◌≡◌, ◌≢◌, refl, some, List, [], ◌∷◌, ◌++◌, length, ne→==, arith}
use nm.Libft.Strings.{ft_strlen}
use nm.Libft.Strings.Laws.{c_string, Held, ends, goes_on, c_string-cons, ft_strlen-c_string}

pub data Holds : List ℕ → List ℕ → Type 0 where
  nul : {c : ℕ} (rest : List ℕ) → c ≡ 0 → Holds (c ∷ rest) []
  char : {c : ℕ} {x s : List ℕ} → c ≢ 0 → Holds x s → Holds (c ∷ x) (c ∷ s)

Holds-cons :
    {c : ℕ} {x s : List ℕ}
    → Held c x s
    → ((r : List ℕ) → c_string x ≡ some r → Holds x r)
    → Holds (c ∷ x) s
Holds-cons {x} (ends z e) rest = rw e (nul x z)
Holds-cons (goes_on nz r er e) rest = rw e (char nz (rest r er))

pub holds : (x s : List ℕ) → c_string x ≡ some s → Holds x s
unfolding c_string
holds [] s h = absurd (ground arith)
holds (c ∷ x) s h = Holds-cons (c_string-cons c x s h) (holds x)

pub Holds-c_string : {x s : List ℕ} → Holds x s → c_string x ≡ some s
unfolding c_string
Holds-c_string (nul rest z) = rw z refl
Holds-c_string (char {c} nz h) = rw (ne→== c 0 nz, Holds-c_string h) refl

pub Holds-ft_strlen : {x s : List ℕ} → Holds x s → ft_strlen x ≡ some (length s)
Holds-ft_strlen {x} h = rw (ft_strlen-c_string x, Holds-c_string h) refl

-- A string that is copied is the same string.
pub Holds-again : {x s : List ℕ} (rest : List ℕ) → Holds x s → Holds (s ++ (0 ∷ rest)) s
Holds-again rest (nul _ z) = nul rest refl
Holds-again rest (char nz h) = char nz (Holds-again rest h)

pub Holds-length : {x s : List ℕ} → Holds x s → length s < length x
Holds-length (nul _ z) = omega arith
Holds-length (char nz h) = omega (arith, Holds-length h)
