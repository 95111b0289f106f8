-- ===== src/Libft/Copies/Trim.antt =====
-- The loops of ft_strtrim (libft/ft_strtrim.c).
use mathlib.Core.Path.{subst}
use mathlib.Core.List.{append_assoc, append-nil}
use nm.Common.{
  ℕ, zero, suc, ◌+◌, ◌-◌, ◌%◌, ◌^◌, ◌≤◌, ◌<◌, ◌≡◌, ◌≢◌, refl, sym, ap, ◌∙◌, true, false, none, some,
  List, [], ◌∷◌, ◌++◌, All, length, length-append, length-replicate, get_elem?, get_elem?-middle,
  take, drop, ltb, ne→==, arith,
}
use nm.Common.Options.{◌>>=◌, onward}
use nm.Common.Slices.{length-take, take-append}
use nm.Libft.Buffer.{Buffer, malloc, store}
use nm.Libft.Buffer.Laws.{held, store-at, length-held}
use nm.Libft.Strings.Laws.{c_string}
use nm.Libft.Strings.Holds.{Holds, nul, char, holds, Holds-ft_strlen}
use nm.Libft.Copies.{ncopy_loop, fill_loop, ft_strncpy, is_blank, skip_blanks, trim_end, ft_strtrim}
use nm.Libft.Copies.Laws.{ncopy_loop-copies, fresh}

-- A string with blanks at both ends of its inner part, or a string of blanks, with no inner part.
pub data Trims : List ℕ → List ℕ → Type 0 where
  blank : {s : List ℕ} → All (λ c. is_blank c ≡ true) s → Trims s []
  between :
      (front behind : List ℕ) (a z : ℕ) (r most : List ℕ)
      → All (λ c. is_blank c ≡ true) front
      → is_blank a ≡ false
      → a ∷ r ≡ most ++ (z ∷ [])
      → is_blank z ≡ false
      → All (λ c. is_blank c ≡ true) behind
      → Trims (front ++ (a ∷ (r ++ behind))) (a ∷ r)

-- The chars of a string are those of the object.
Holds-get_elem? : {x s : List ℕ} (j : ℕ) → Holds x s → j < length s → get_elem? x j ≡ get_elem? s j
Holds-get_elem? j (nul r z) h = absurd (omega arith)
Holds-get_elem? zero (char nz k) h = refl
Holds-get_elem? (suc j) (char nz k) h = Holds-get_elem? j k (omega arith)

Holds-drop : {x : List ℕ} (s t : List ℕ) → Holds x (s ++ t) → Holds (drop (length s) x) t
Holds-drop [] t h = h
Holds-drop {x = []} (c ∷ s) t h = elim h [ ]
Holds-drop {x = a ∷ x} (c ∷ s) t (char nz h) = Holds-drop s t h

-- What is behind the blanks in front.
data Begins : List ℕ → Type 0 where
  ends : Begins []
  nonblank : (a : ℕ) (r : List ℕ) → is_blank a ≡ false → Begins (a ∷ r)

skip_blanks-begin : {x t : List ℕ} (i : ℕ) → Begins t → Holds x t → skip_blanks x i ≡ some i
unfolding skip_blanks
skip_blanks-begin i b (nul r z) = rw z refl
skip_blanks-begin i (nonblank a r n) (char nz h) = rw (ne→== a 0 nz, n) refl

skip_blanks-front :
    {x : List ℕ} (front t : List ℕ) (i : ℕ)
    → All (λ c. is_blank c ≡ true) front
    → Begins t
    → Holds x (front ++ t)
    → skip_blanks x i ≡ some (i + length front)
unfolding skip_blanks
skip_blanks-front [] t i bs b h = skip_blanks-begin i b h ∙ ground arith
skip_blanks-front {x = []} (c ∷ front) t i bs b h = elim h [ ]
skip_blanks-front {x = a ∷ x} (c ∷ front) t i bs b (char nz h) =
    rw (ne→== c 0 nz, bs.0) (skip_blanks-front front t (i + 1) bs.1 b h ∙ ground arith)

trim_end-stop :
    (x : List ℕ) (i e z : ℕ)
    → i ≤ e
    → get_elem? x e ≡ some z
    → is_blank z ≡ false
    → trim_end x i e ≡ some e
unfolding trim_end
trim_end-stop x i zero z le at n = refl
trim_end-stop x i (suc e) z le at n =
    let late : ltb (suc e) i ≡ false = ground arith in rw (late, at, n) refl

trim_end-step :
    (x : List ℕ) (i e c : ℕ)
    → i ≤ suc e
    → get_elem? x (suc e) ≡ some c
    → is_blank c ≡ true
    → trim_end x i (suc e) ≡ trim_end x i e
unfolding trim_end
trim_end-step x i e c le at n =
    let late : ltb (suc e) i ≡ false = ground arith in rw (late, at, n) refl

trim_end-passed : (x : List ℕ) (i e : ℕ) → e < i → trim_end x i e ≡ some e
unfolding trim_end
trim_end-passed x i zero lt = refl
trim_end-passed x i (suc e) lt = let early : ltb (suc e) i ≡ true = ground arith in rw early refl

-- `end` goes back over the blanks behind.
trim_end-back :
    (x : List ℕ) (i e k z : ℕ)
    → i ≤ e
    → get_elem? x e ≡ some z
    → is_blank z ≡ false
    → ((j : ℕ) → e < j → j ≤ e + k → (c : ℕ) × (get_elem? x j ≡ some c) × (is_blank c ≡ true))
    → trim_end x i (e + k) ≡ some e
trim_end-back x i e zero z le at n blanks =
    let same : e + 0 ≡ e = omega arith in ap (trim_end x i) same ∙ trim_end-stop x i e z le at n
trim_end-back x i e (suc k) z le at n blanks =
    let same : e + suc k ≡ suc (e + k) = omega arith in
    let (c, here, b) = blanks (suc (e + k)) (omega arith) (omega arith) in
    ap (trim_end x i) same
    ∙ trim_end-step x i (e + k) c (omega arith) here b
    ∙ trim_end-back x i e k z le at n (λ j lt h. blanks j lt (omega arith))

-- A char of the blanks behind.
blank_behind :
    (pre behind : List ℕ) (j : ℕ)
    → All (λ c. is_blank c ≡ true) behind
    → length pre ≤ j
    → j < length pre + length behind
    → (c : ℕ) × (get_elem? (pre ++ behind) j ≡ some c) × (is_blank c ≡ true)
blank_behind [] [] j bs le lt = absurd (omega arith)
blank_behind [] (c ∷ behind) zero bs le lt = (c, refl, bs.0)
blank_behind [] (c ∷ behind) (suc j) bs le lt =
    blank_behind [] behind j bs.1 (omega arith) (omega arith)
blank_behind (c ∷ pre) behind zero bs le lt = absurd (omega arith)
blank_behind (c ∷ pre) behind (suc j) bs le lt =
    blank_behind pre behind j bs (omega arith) (omega arith)

fill_loop-none : (dest : Buffer) (i n : ℕ) → n ≡ 0 → fill_loop dest i n ≡ some dest
unfolding fill_loop
fill_loop-none dest i n e = rw e refl

-- The copy of `len` chars, which fills its memory up to the place of the NUL.
ft_strncpy-copies :
    {x t : List ℕ} (len : ℕ)
    → Holds x t
    → len ≤ length t
    → len < 2 ^ 63
    → ft_strncpy (malloc ((len + 1) % 2 ^ 64)) x len ≡ some (held (take len t) ++ (none ∷ []))
unfolding ft_strncpy
ft_strncpy-copies {x} {t} len h few small =
    let size : (len + 1) % 2 ^ 64 ≡ len + 1 = omega arith in
    ap (λ n. ncopy_loop (malloc n) 0 x len >>= λ r. fill_loop r.0 r.1 (len - r.1)) size
    ∙ ap (λ b. ncopy_loop b 0 x len >>= λ r. fill_loop r.0 r.1 (len - r.1)) (fresh len)
    ∙ onward _
        (ncopy_loop-copies len [] (malloc len) (none ∷ []) 0 h few (length-replicate len none) refl)
    ∙ fill_loop-none _ _ _ (omega arith)

-- What ft_strtrim gives where its loops find `i` and `end`.
ft_strtrim-found :
    {x s t : List ℕ} (i end len : ℕ)
    → Holds x s
    → skip_blanks x 0 ≡ some i
    → trim_end x i ((length s + 2 ^ 64 - 1) % 2 ^ 64) ≡ some end
    → (end + 2 ^ 64 + 1 - i) % 2 ^ 64 ≡ len
    → Holds (drop i x) t
    → len ≤ length t
    → len < 2 ^ 63
    → ft_strtrim x ≡ some (held (take len t) ++ (some 0 ∷ []))
unfolding ft_strtrim
ft_strtrim-found {x} {s} {t} i end len h first last size inner few small =
    onward _ (Holds-ft_strlen h)
    ∙ onward _ first
    ∙ onward _ last
    ∙ ap (λ n. ft_strncpy (malloc ((n + 1) % 2 ^ 64)) (drop i x) n >>= λ b. store b n 0) size
    ∙ onward _ (ft_strncpy-copies len inner few small)
    ∙ store-at (held (take len t)) [] none len 0
        (omega (arith, length-held (take len t), length-take len t few))

-- The string of blanks: `end` wraps, or is in front of `i`.
ft_strtrim-blank :
    {x s : List ℕ}
    → Holds x s
    → s ≢ []
    → length s < 2 ^ 63
    → All (λ c. is_blank c ≡ true) s
    → ft_strtrim x ≡ some (some 0 ∷ [])
ft_strtrim-blank {s = []} h ne small bs = absurd (ne refl)
ft_strtrim-blank {x} {s = c ∷ s} h ne small bs =
    ft_strtrim-found {t = []} (length (c ∷ s)) (length s) 0 h
      (skip_blanks-front (c ∷ s) [] 0 bs ends whole ∙ ap some (omega arith))
      (ap (trim_end x (length (c ∷ s))) (omega arith) ∙ trim_end-passed x _ _ (omega arith))
      (omega arith) (Holds-drop (c ∷ s) [] whole) (omega arith) (omega arith)
  where
    whole : Holds x ((c ∷ s) ++ [])
    whole = subst (λ w. Holds x w) (sym (append-nil (c ∷ s))) h

ft_strtrim-between :
    {x : List ℕ} (front behind : List ℕ) (a z : ℕ) (r most : List ℕ)
    → Holds x (front ++ (a ∷ (r ++ behind)))
    → length (front ++ (a ∷ (r ++ behind))) < 2 ^ 63
    → All (λ c. is_blank c ≡ true) front
    → is_blank a ≡ false
    → a ∷ r ≡ most ++ (z ∷ [])
    → is_blank z ≡ false
    → All (λ c. is_blank c ≡ true) behind
    → ft_strtrim x ≡ some (held (a ∷ r) ++ (some 0 ∷ []))
ft_strtrim-between {x} front behind a z r most h small bf na same nz bb =
    ft_strtrim-found (length front) (length front + length r) (length (a ∷ r)) h
      (skip_blanks-front front _ 0 bf (nonblank a _ na) h ∙ ap some (omega arith))
      (ap (trim_end x (length front)) back
        ∙ trim_end-back x (length front) (length front + length r) (length behind) z (omega arith)
            at nz blanks)
      (omega (arith, size)) (Holds-drop front _ h) (omega (arith, length-append r behind))
      (omega (arith, size))
    ∙ ap (λ t. some (held t ++ (some 0 ∷ []))) (take-append (a ∷ r) behind)
  where
    size : length (front ++ (a ∷ (r ++ behind))) ≡ length front + (1 + (length r + length behind))
    size =
        length-append front (a ∷ (r ++ behind))
        ∙ ap (λ n. length front + suc n) (length-append r behind)
        ∙ omega arith

    back :
        (length (front ++ (a ∷ (r ++ behind))) + 2 ^ 64 - 1) % 2 ^ 64
        ≡ length front + length r + length behind
    back = omega (arith, size)

    most_size : length most ≡ length r
    most_size = omega (arith, ap length same, length-append most (z ∷ []))

    by_last : front ++ (a ∷ (r ++ behind)) ≡ (front ++ most) ++ (z ∷ behind)
    by_last =
        ap (λ t. front ++ (t ++ behind)) same
        ∙ ap (λ t. front ++ t) (append_assoc most (z ∷ []) behind)
        ∙ sym (append_assoc front most (z ∷ behind))

    at : get_elem? x (length front + length r) ≡ some z
    at =
        Holds-get_elem? _ h (omega (arith, size))
        ∙ ap (λ t. get_elem? t (length front + length r)) by_last
        ∙ ap (get_elem? ((front ++ most) ++ (z ∷ behind)))
            (omega (arith, most_size, length-append front most))
        ∙ get_elem?-middle (front ++ most) z behind

    by_behind : front ++ (a ∷ (r ++ behind)) ≡ (front ++ (a ∷ r)) ++ behind
    by_behind = sym (append_assoc front (a ∷ r) behind)

    blanks :
        (j : ℕ)
        → length front + length r < j
        → j ≤ length front + length r + length behind
        → (c : ℕ) × (get_elem? x j ≡ some c) × (is_blank c ≡ true)
    blanks j gt le =
        let n = length-append front (a ∷ r) in
        let (c, here, b) =
          blank_behind (front ++ (a ∷ r)) behind j bb (omega (arith, n)) (omega (arith, n)) in
        (c, Holds-get_elem? j h (omega (arith, size)) ∙ ap (λ t. get_elem? t j) by_behind ∙ here, b)

-- `ft_strtrim` gives a string that is not empty without the blanks (' ', tab and newline) at its ends, with a NUL: a string of blanks gives the empty string.
pub ft_strtrim-Trims :
    (x s inner : List ℕ)
    → c_string x ≡ some s
    → s ≢ []
    → length s < 2 ^ 63
    → Trims s inner
    → ft_strtrim x ≡ some (held inner ++ (some 0 ∷ []))
ft_strtrim-Trims x s _ e ne small (blank bs) = ft_strtrim-blank (holds x s e) ne small bs
ft_strtrim-Trims x _ _ e ne small (between front behind a z r most bf na same nz bb) =
    ft_strtrim-between front behind a z r most (holds x _ e) small bf na same nz bb
