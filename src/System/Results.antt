-- ===== src/System/Results.antt =====
-- What code that reports returns, whatever the state.
use mathlib.Core.Option
use nm.Common.{◌≡◌, ap, ◌∙◌, Option, none, some, List, ◌++◌, Option-cases, inl, inr, arith}
use nm.System.{Task, Event, ◌>>=◌}

-- Every result that the code returns has the property.
abbrev Holds : {S A : Type 0} → (A → Type 0) → Option (A × List Event × S) → Type 0
Holds P none = Unit
Holds P (some (a, events, t)) = P a

abbrev pub Gives : {S A : Type 0} → (A → Type 0) → Task S A → Type 0
Gives P p = (s : _) → Holds P (p s)

pub Gives-then :
    {S A B : Type 0} (P : B → Type 0) (p : Task S A) (k : A → Task S B)
    → ((a : A) → Gives P (k a))
    → Gives P (p >>= k)
unfolding ◌>>=◌
Gives-then P p k h s = elim (Option-cases (p s)) [
  | inl e ↦ rw (◌>>=◌, e) tt
  | inr ((a, events, s'), e) ↦ elim (Option-cases (k a s')) [
    | inl f ↦ rw (◌>>=◌, e, f) tt
    | inr ((b, events', t), f) ↦ let got : P b = rw f at (h a s') in rw (◌>>=◌, e, f) got
  ]
]

-- The parts of a run of two parts.
pub record Parts {S A B : Type 0} (p : Task S A) (k : A → Task S B) (s : S) (b : B) (t : S)
    : Type 0 where
  pub result : A
  pub before : List Event
  pub behind : List Event
  pub middle : S
  pub first : p s ≡ some (result, before, middle)
  pub second : k result middle ≡ some (b, behind, t)

pub Parts-then :
    {S A B : Type 0} (p : Task S A) (k : A → Task S B) (s t : S) (b : B) (events : List Event)
    → (p >>= k) s ≡ some (b, events, t)
    → Parts p k s b t
unfolding ◌>>=◌
Parts-then p k s t b events h = elim (Option-cases (p s)) [
  | inl e ↦ let no : none ≡ some (b, events, t) = rw (◌>>=◌, e) at h in absurd (ground (arith, no))
  | inr ((a, before, s'), e) ↦ elim (Option-cases (k a s')) [
    | inl f ↦
        let no : none ≡ some (b, events, t) = rw (◌>>=◌, e, f) at h in absurd (ground (arith, no))
    | inr ((b', behind, t'), f) ↦
        let same : some (b', before ++ behind, t') ≡ some (b, events, t) = rw (◌>>=◌, e, f) at h in
        let parts = Option.some-injective _ _ same in
        record {
          result = a;
          before = before;
          behind = behind;
          middle = s';
          first = e;
          second =
              f
              ∙ ap (λ (x : _). some (x, behind, t')) (ap (λ (r : _ × List Event × _). r.0) parts)
              ∙ ap (λ (x : _). some (b, behind, x)) (ap (λ (r : _ × List Event × _). r.2) parts);
        }
  ]
]
