-- ===== src/Libft/Search/First.antt =====
-- `ft_strstr` (libft/ft_strstr.c) and the places of a string in another.
use nm.Common.{
  ℕ, zero, suc, ◌+◌, ◌<◌, ◌≤◌, ◌≡◌, ◌≢◌, refl, sym, ap, ◌∙◌, Bool, true, false, ◌&&◌, ◌||◌, Option,
  none, some, List, [], ◌∷◌, length, drop, ◌==◌, if◌then◌else◌, Bool-cases, inl, inr, ne→==, arith,
}
use nm.Common.Options.{onward}
use nm.Libft.Strings.Laws.{c_string}
use nm.Libft.Strings.Holds.{Holds, holds, nul, char, Holds-length}
use nm.Libft.Search.{skip_to, starts_with, strstr_loop, ft_strstr}

-- Whether the list starts with `t`, and the first place from which on it does.
unfoldable pub is_prefix : (t s : List ℕ) → Bool
is_prefix [] s = true
is_prefix (b ∷ t) [] = false
is_prefix (b ∷ t) (a ∷ s) = a == b && is_prefix t s

unfoldable pub first_at : (t s : List ℕ) → (i : ℕ) → Option ℕ
first_at t [] i = if is_prefix t [] then some i else none
first_at t (a ∷ s) i = if is_prefix t (a ∷ s) then some i else first_at t s (i + 1)

starts_with-is_prefix :
    {x y s t : List ℕ} → Holds x s → Holds y t → starts_with x y ≡ some (is_prefix t s)
unfolding starts_with is_prefix
starts_with-is_prefix (nul r z) (nul r' z') = ground arith
starts_with-is_prefix (nul r z) (char nz k) = ground arith
starts_with-is_prefix (char nz h) (nul r' z') = ground arith
starts_with-is_prefix (char nz h) (char nz' k) = ground (arith, starts_with-is_prefix h k)

-- The chars that `skip_to` passes over are no place of `b ∷ t`.
record Skipped (x y s : List ℕ) (b : ℕ) (t : List ℕ) (i : ℕ) : Type 0 where
  behind : List ℕ
  left : List ℕ
  at : ℕ
  runs : skip_to x y i ≡ some (behind, at)
  stands : Holds behind left
  same : first_at (b ∷ t) s i ≡ first_at (b ∷ t) left at
  shorter : length left ≤ length s

Skipped-none :
    {x y s : List ℕ} (b : ℕ) (t : List ℕ) (i : ℕ)
    → Holds x s
    → skip_to x y i ≡ some (x, i)
    → Skipped x y s b t i
Skipped-none {x} {s} b t i h e = record {
  behind = x;
  left = s;
  at = i;
  runs = e;
  stands = h;
  same = refl;
  shorter = omega arith;
}

skip_to-stop :
    (a b i : ℕ) (x y : List ℕ)
    → (a == 0 || b == 0 || a == b) ≡ true
    → skip_to (a ∷ x) (b ∷ y) i ≡ some (a ∷ x, i)
unfolding skip_to
skip_to-stop a b i x y e = rw e refl

skip_to-on :
    (a b i : ℕ) (x y : List ℕ)
    → (a == 0 || b == 0 || a == b) ≡ false
    → skip_to (a ∷ x) (b ∷ y) i ≡ skip_to x (b ∷ y) (i + 1)
unfolding skip_to
skip_to-on a b i x y e = rw e refl

first_at-ne :
    (a b i : ℕ) (s t : List ℕ)
    → (a == b) ≡ false
    → first_at (b ∷ t) (a ∷ s) i ≡ first_at (b ∷ t) s (i + 1)
unfolding first_at is_prefix
first_at-ne a b i s t e = rw e refl

skip_to-Skipped :
    {x s : List ℕ} (y : List ℕ) (b : ℕ) (t : List ℕ) (i : ℕ)
    → b ≢ 0
    → Holds x s
    → Skipped x (b ∷ y) s b t i
skip_to-Skipped y b t i nb (nul {c} r z) =
    Skipped-none b t i (nul r z) (skip_to-stop c b i r y (ground arith))
skip_to-Skipped y b t i nb (char {c} {x} {s} nz h) = elim (Bool-cases (c == b)) [
  | inl e ↦ Skipped-none b t i (char nz h) (skip_to-stop c b i x y (ground arith))
  | inr e ↦
      let k = skip_to-Skipped y b t (i + 1) nb h in
      record {
        behind = k.behind;
        left = k.left;
        at = k.at;
        runs = skip_to-on c b i x y (ground arith) ∙ k.runs;
        stands = k.stands;
        same = first_at-ne c b i s t e ∙ k.same;
        shorter = omega (arith, k.shorter);
      }
]

module _ (y : List ℕ) where
  strstr_loop-end :
      {x : List ℕ} (left i : ℕ) → Holds x [] → strstr_loop (suc left) x y i ≡ some none
  unfolding strstr_loop
  strstr_loop-end left i (nul r z) = rw z refl

  strstr_loop-skip :
      {x s x' : List ℕ} (left c i j : ℕ)
      → Holds x (c ∷ s)
      → skip_to x y i ≡ some (x', j)
      → Holds x' []
      → strstr_loop (suc left) x y i ≡ some none
  unfolding strstr_loop
  strstr_loop-skip left c i j (char nz h) e (nul r z) = rw (ne→== c 0 nz) (onward _ e ∙ rw z refl)

  strstr_loop-found :
      {x s x' r : List ℕ} (left c i j a : ℕ)
      → Holds x (c ∷ s)
      → skip_to x y i ≡ some (x', j)
      → Holds x' (a ∷ r)
      → starts_with x' y ≡ some true
      → strstr_loop (suc left) x y i ≡ some (some j)
  unfolding strstr_loop
  strstr_loop-found {x' = []} left c i j a h e k p = elim k [ ]
  strstr_loop-found {x' = a' ∷ x'} left c i j a (char nz h) e (char nz' k) p =
      rw (ne→== c 0 nz) (onward _ e ∙ rw (ne→== a 0 nz') (onward _ p))

  strstr_loop-next :
      {x s x' r : List ℕ} (left c i j a : ℕ)
      → Holds x (c ∷ s)
      → skip_to x y i ≡ some (x', j)
      → Holds x' (a ∷ r)
      → starts_with x' y ≡ some false
      → strstr_loop (suc left) x y i ≡ strstr_loop left (drop 1 x') y (j + 1)
  unfolding strstr_loop
  strstr_loop-next {x' = []} left c i j a h e k p = elim k [ ]
  strstr_loop-next {x' = a' ∷ x'} left c i j a (char nz h) e (char nz' k) p =
      rw (ne→== c 0 nz) (onward _ e ∙ rw (ne→== a 0 nz') (onward _ p))

-- What a round does behind the chars that are passed over.
round_left :
    {x s x' l : List ℕ} (y t : List ℕ) (b left c i j : ℕ)
    → Holds x (c ∷ s)
    → Holds y (b ∷ t)
    → skip_to x y i ≡ some (x', j)
    → Holds x' l
    → ((a : ℕ) (r : List ℕ)
        → l ≡ a ∷ r
        → Holds (drop 1 x') r
        → strstr_loop left (drop 1 x') y (j + 1) ≡ some (first_at (b ∷ t) r (j + 1)))
    → strstr_loop (suc left) x y i ≡ some (first_at (b ∷ t) l j)
unfolding first_at is_prefix
round_left y t b left c i j h k e (nul r z) others = strstr_loop-skip y left c i j h e (nul r z)
round_left y t b left c i j h k e (char {c = a} {x} {s} nz n) others =
    elim (Bool-cases (is_prefix (b ∷ t) (a ∷ s))) [
      | inl p ↦
          strstr_loop-found y left c i j a h e (char nz n)
            (starts_with-is_prefix (char nz n) k ∙ ap some p)
          ∙ rw p refl
      | inr p ↦
          strstr_loop-next y left c i j a h e (char nz n)
            (starts_with-is_prefix (char nz n) k ∙ ap some p)
          ∙ others a s refl n
          ∙ rw p refl
    ]

strstr_loop-first_at :
    (left : ℕ) {x : List ℕ} (s y t : List ℕ) (b i : ℕ)
    → b ≢ 0
    → Holds x s
    → Holds (b ∷ y) (b ∷ t)
    → length s < left
    → strstr_loop left x (b ∷ y) i ≡ some (first_at (b ∷ t) s i)
unfolding first_at is_prefix
strstr_loop-first_at zero s y t b i nb h k enough = absurd (omega arith)
strstr_loop-first_at (suc left) [] y t b i nb h k enough = strstr_loop-end (b ∷ y) left i h
strstr_loop-first_at (suc left) (c ∷ s) y t b i nb h k enough =
    let p = skip_to-Skipped y b t i nb h in
    round_left (b ∷ y) t b left c i p.at h k p.runs p.stands (λ a r e n.
      strstr_loop-first_at left r y t b (p.at + 1) nb n k (omega (arith, ap length e, p.shorter)))
    ∙ ap some (sym p.same)

everywhere : (s : List ℕ) → first_at [] s 0 ≡ some 0
unfolding first_at is_prefix
everywhere [] = refl
everywhere (a ∷ s) = refl

ft_strstr-of : {x y s t : List ℕ} → Holds x s → Holds y t → ft_strstr x y ≡ some (first_at t s 0)
unfolding ft_strstr
ft_strstr-of {s} h (nul r z) = rw (z, everywhere s) refl
ft_strstr-of {x} {s} h (char {c = b} {x = y} {s = t} nz k) =
    rw (ne→== b 0 nz) (strstr_loop-first_at (length x) s y t b 0 nz h (char nz k) (Holds-length h))

-- On objects that hold strings, `ft_strstr` does not fault; it gives the first place from which on the first
-- string goes on with the second, and NULL if there is none.
pub ft_strstr-first_at :
    (x y s t : List ℕ)
    → c_string x ≡ some s
    → c_string y ≡ some t
    → ft_strstr x y ≡ some (first_at t s 0)
ft_strstr-first_at x y s t e f = ft_strstr-of (holds x s e) (holds y t f)
