-- ===== src/Common/Ends.antt =====
-- Lists from both ends.
use Prim.Native.Nat.{ℕ}
use mathlib.Core.Path.{◌≡◌, ap, sym, ◌∙◌}
use mathlib.Core.List.{List, [], ◌∷◌, ◌++◌, reverse, reverse-append, reverse-cons, append_assoc}

-- A list by its two ends.
pub data Ends : List ℕ → Type 0 where
  none : Ends []
  one : (a : ℕ) → Ends (a ∷ [])
  two : (a : ℕ) (inner : List ℕ) (b : ℕ) → Ends (a ∷ (inner ++ (b ∷ [])))

Ends-cons : (a : ℕ) {xs : List ℕ} → Ends xs → Ends (a ∷ xs)
Ends-cons a none = one a
Ends-cons a (one b) = two a [] b
Ends-cons a (two b inner c) = two a (b ∷ inner) c

pub ends : (xs : List ℕ) → Ends xs
ends [] = none
ends (a ∷ xs) = Ends-cons a (ends xs)

reverse-ends :
    (a : ℕ) (inner : List ℕ) (b : ℕ)
    → reverse (a ∷ (inner ++ (b ∷ []))) ≡ b ∷ (reverse inner ++ (a ∷ []))
reverse-ends a inner b =
    reverse-cons a (inner ++ (b ∷ []))
    ∙ ap (λ (l : List ℕ). l ++ (a ∷ [])) (reverse-append inner (b ∷ []))

pub turn_ends :
    (pre : List ℕ) (a : ℕ) (inner : List ℕ) (b : ℕ) (post : List ℕ)
    → (pre ++ (b ∷ [])) ++ (reverse inner ++ (a ∷ post))
      ≡ pre ++ (reverse (a ∷ (inner ++ (b ∷ []))) ++ post)
turn_ends pre a inner b post =
    append_assoc pre (b ∷ []) (reverse inner ++ (a ∷ post))
    ∙ ap (λ (l : List ℕ). pre ++ (b ∷ l)) (sym (append_assoc (reverse inner) (a ∷ []) post))
    ∙ ap (λ (l : List ℕ). pre ++ (l ++ post)) (sym (reverse-ends a inner b))
