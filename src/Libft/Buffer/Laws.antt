-- ===== src/Libft/Buffer/Laws.antt =====
-- Writes into a buffer, and what can be read of it.
use mathlib.Core.List.{append_assoc, map-append}
use nm.Common.{
  ℕ, zero, suc, ◌≡◌, refl, sym, ap, ◌∙◌, Option, none, some, List, [], ◌∷◌, ◌++◌, map, length,
  set-middle, get_elem?, get_elem?-middle,
}
use nm.Libft.Buffer.{Buffer, malloc, store, written}

-- Bytes that are set.
abbrev pub held : List ℕ → Buffer
held = map some

pub store-middle :
    (pre post : Buffer) (old : Option ℕ) (c : ℕ)
    → store (pre ++ (old ∷ post)) (length pre) c ≡ some (pre ++ (some c ∷ post))
unfolding store
store-middle pre post old c =
    rw (get_elem?-middle pre old post, store) (ap some (set-middle pre old (some c) post))

-- The same, where the place is known as a number.
pub store-at :
    (pre post : Buffer) (old : Option ℕ) (i c : ℕ)
    → i ≡ length pre
    → store (pre ++ (old ∷ post)) i c ≡ some (pre ++ (some c ∷ post))
store-at pre post old i c e = rw e (store-middle pre post old c)

pub written-held : (xs : List ℕ) (buf : Buffer) → written (held xs ++ buf) ≡ xs ++ written buf
unfolding written
written-held [] buf = refl
written-held (x ∷ xs) buf = ap (λ (l : List ℕ). x ∷ l) (written-held xs buf)

pub length-held : (xs : List ℕ) → length (held xs) ≡ length xs
length-held [] = refl
length-held (x ∷ xs) = ap suc (length-held xs)

-- One place more of fresh memory, seen from its end.
pub malloc-suc : (n : ℕ) (buf : Buffer) → malloc (suc n) ++ buf ≡ malloc n ++ (none ∷ buf)
malloc-suc zero buf = refl
malloc-suc (suc n) buf = ap (λ (l : Buffer). none ∷ l) (malloc-suc n buf)

pub written-malloc : (n : ℕ) → written (malloc n) ≡ []
unfolding written
written-malloc zero = refl
written-malloc (suc n) = refl

-- A string in a buffer.
pub written-held_nul :
    (xs : List ℕ) (buf : Buffer) → written (held xs ++ (some 0 ∷ buf)) ≡ xs ++ (0 ∷ written buf)
unfolding written
written-held_nul xs buf = written-held xs (some 0 ∷ buf)

-- Reads and writes of bytes that are set.
pub store-held :
    (xs : List ℕ) (a : ℕ) (ys : List ℕ) (buf : Buffer) (i c : ℕ)
    → i ≡ length xs
    → store (held (xs ++ (a ∷ ys)) ++ buf) i c ≡ some (held (xs ++ (c ∷ ys)) ++ buf)
store-held xs a ys buf i c e =
    ap (λ (b : Buffer). store b i c) (spread a)
    ∙ store-at (held xs) (held ys ++ buf) (some a) i c (e ∙ sym (length-held xs))
    ∙ ap some (sym (spread c))
  where
    spread : (v : ℕ) → held (xs ++ (v ∷ ys)) ++ buf ≡ held xs ++ (some v ∷ (held ys ++ buf))
    spread v =
        ap (λ (b : Buffer). b ++ buf) (map-append some xs (v ∷ ys))
        ∙ append_assoc (held xs) (some v ∷ held ys) buf

pub get_elem?-held :
    (xs : List ℕ) (a : ℕ) (ys : List ℕ) (buf : Buffer) (i : ℕ)
    → i ≡ length xs
    → get_elem? (written (held (xs ++ (a ∷ ys)) ++ buf)) i ≡ some a
get_elem?-held xs a ys buf i e =
    rw (e, written-held (xs ++ (a ∷ ys)) buf, append_assoc)
      (get_elem?-middle xs a (ys ++ written buf))

-- The next byte behind those that are set.
pub store-next :
    (xs : List ℕ) (k i c : ℕ)
    → i ≡ length xs
    → store (held xs ++ malloc (suc k)) i c ≡ some (held (xs ++ (c ∷ [])) ++ malloc k)
store-next xs k i c e =
    store-at (held xs) (malloc k) none i c (e ∙ sym (length-held xs))
    ∙ ap some (
        sym (append_assoc (held xs) (some c ∷ []) (malloc k))
        ∙ ap (λ (b : Buffer). b ++ malloc k) (sym (map-append some xs (c ∷ []))))
