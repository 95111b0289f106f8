-- ===== src/Libft/Copies/Laws.antt =====
-- What ft_strcpy, ft_strcat, ft_strdup and ft_strjoin write.
use mathlib.Core.List.{append_assoc, append-nil, map-append}
use nm.Common.{
  ℕ, zero, suc, ◌+◌, ◌≤◌, ◌≡◌, refl, sym, ap, ◌∙◌, Option, none, some, List, [], ◌∷◌, ◌++◌, length,
  take, length-append, length-replicate, ◌==◌, ne→==, false, arith,
}
use nm.Common.Options.{◌>>=◌, onward}
use nm.Libft.Buffer.{Buffer, malloc, store, written}
use nm.Libft.Buffer.Laws.{held, store-at, length-held, malloc-suc, written-held_nul}
use nm.Libft.Strings.{ft_strlen}
use nm.Libft.Strings.Holds.{Holds, nul, char, Holds-ft_strlen, Holds-again}
use nm.Libft.Copies.{copy_loop, ncopy_loop, ft_strcpy, ft_strcat, ft_strdup, ft_strjoin}

copy_loop-step :
    (dest dest' : Buffer) (i c : ℕ) (src : List ℕ)
    → (c == 0) ≡ false
    → store dest i c ≡ some dest'
    → copy_loop dest i (c ∷ src) ≡ copy_loop dest' (i + 1) src
unfolding copy_loop
copy_loop-step dest dest' i c src nz e = rw (nz, e) refl

copy_loop-end :
    (dest : Buffer) (i c : ℕ) (src : List ℕ) → c ≡ 0 → copy_loop dest i (c ∷ src) ≡ some (dest, i)
unfolding copy_loop
copy_loop-end dest i c src z = rw z refl

-- The loop writes the string, without its NUL, over as many places.
pub copy_loop-copies :
    {x s : List ℕ} (pre mid post : Buffer) (i : ℕ)
    → Holds x s
    → length mid ≡ length s
    → i ≡ length pre
    → copy_loop (pre ++ (mid ++ post)) i x ≡ some (pre ++ (held s ++ post), i + length s)
copy_loop-copies pre [] post i (nul {c} rest z) room e =
    copy_loop-end (pre ++ post) i c rest z ∙ ground arith
copy_loop-copies pre (m ∷ mid) post i (nul rest z) room e = absurd (omega arith)
copy_loop-copies pre [] post i (char nz h) room e = absurd (omega arith)
copy_loop-copies pre (m ∷ mid) post i (char {c} {x} {s} nz h) room e =
    copy_loop-step _ _ i c x (ne→== c 0 nz) (store-at pre (mid ++ post) m i c e)
    ∙ ap (λ (b : Buffer). copy_loop b (i + 1) x)
        (sym (append_assoc pre (some c ∷ []) (mid ++ post)))
    ∙ copy_loop-copies (pre ++ (some c ∷ [])) mid post (i + 1) h (omega arith)
        (omega (arith, length-append pre (some c ∷ [])))
    ∙ rw (append_assoc pre (some c ∷ []) (held s ++ post)) (ground arith)

ncopy_loop-step :
    (dest dest' : Buffer) (i c n : ℕ) (x : List ℕ)
    → (c == 0) ≡ false
    → store dest i c ≡ some dest'
    → ncopy_loop dest i (c ∷ x) (suc n) ≡ ncopy_loop dest' (i + 1) x n
unfolding ncopy_loop
ncopy_loop-step dest dest' i c n x nz e = rw (nz, e) refl

ncopy_loop-none : (dest : Buffer) (i : ℕ) (x : List ℕ) → ncopy_loop dest i x 0 ≡ some (dest, i)
unfolding ncopy_loop
ncopy_loop-none dest i x = refl

-- So does the loop with a bound, for as many chars.
pub ncopy_loop-copies :
    {x s : List ℕ} (n : ℕ) (pre mid post : Buffer) (i : ℕ)
    → Holds x s
    → n ≤ length s
    → length mid ≡ n
    → i ≡ length pre
    → ncopy_loop (pre ++ (mid ++ post)) i x n ≡ some (pre ++ (held (take n s) ++ post), i + n)
ncopy_loop-copies {x} zero pre [] post i h few room e =
    ncopy_loop-none (pre ++ post) i x ∙ ground arith
ncopy_loop-copies zero pre (m ∷ mid) post i h few room e = absurd (omega arith)
ncopy_loop-copies (suc n) pre [] post i h few room e = absurd (omega arith)
ncopy_loop-copies (suc n) pre (m ∷ mid) post i (nul rest z) few room e = absurd (omega arith)
ncopy_loop-copies (suc n) pre (m ∷ mid) post i (char {c} {x} {s} nz h) few room e =
    ncopy_loop-step _ _ i c n x (ne→== c 0 nz) (store-at pre (mid ++ post) m i c e)
    ∙ ap (λ (b : Buffer). ncopy_loop b (i + 1) x n)
        (sym (append_assoc pre (some c ∷ []) (mid ++ post)))
    ∙ ncopy_loop-copies n (pre ++ (some c ∷ [])) mid post (i + 1) h (omega arith) (omega arith)
        (omega (arith, length-append pre (some c ∷ [])))
    ∙ rw (append_assoc pre (some c ∷ []) (held (take n s) ++ post)) (ground arith)

-- The string and its NUL.
pub copied-ended :
    {x s : List ℕ} (pre mid post : Buffer) (o : Option ℕ) (i : ℕ)
    → Holds x s
    → length mid ≡ length s
    → i ≡ length pre
    → (copy_loop (pre ++ (mid ++ (o ∷ post))) i x >>= λ r. store r.0 r.1 0)
      ≡ some (pre ++ (held s ++ (some 0 ∷ post)))
copied-ended {s} pre mid post o i h room e =
    onward _ (copy_loop-copies pre mid (o ∷ post) i h room e)
    ∙ ap (λ (b : Buffer). store b (i + length s) 0) (sym (append_assoc pre (held s) (o ∷ post)))
    ∙ store-at (pre ++ held s) post o (i + length s) 0
        (omega (arith, length-append pre (held s), length-held s))
    ∙ ap some (append_assoc pre (held s) (some 0 ∷ post))

-- Where there is room for the string and its NUL, `ft_strcpy` copies both.
pub ft_strcpy-copies :
    {x s : List ℕ} (mid post : Buffer) (o : Option ℕ)
    → Holds x s
    → length mid ≡ length s
    → ft_strcpy (mid ++ (o ∷ post)) x ≡ some (held s ++ (some 0 ∷ post))
unfolding ft_strcpy
ft_strcpy-copies mid post o h room = copied-ended [] mid post o 0 h room refl

-- `ft_strcat` puts a string behind another, where there is room.
pub ft_strcat-joins :
    {x s : List ℕ} (t : List ℕ) (mid post : Buffer) (o : Option ℕ)
    → Holds x s
    → ft_strlen (written (held t ++ (mid ++ (o ∷ post)))) ≡ some (length t)
    → length mid ≡ length s
    → ft_strcat (held t ++ (mid ++ (o ∷ post))) x ≡ some (held (t ++ s) ++ (some 0 ∷ post))
unfolding ft_strcat
ft_strcat-joins {s} t mid post o h ends room =
    onward _ ends
    ∙ copied-ended (held t) mid post o (length t) h room (sym (length-held t))
    ∙ ap some (
        sym (append_assoc (held t) (held s) (some 0 ∷ post))
        ∙ ap (λ (b : Buffer). b ++ (some 0 ∷ post)) (sym (map-append some t s)))

-- Fresh memory for `n` chars and the NUL.
pub fresh : (n : ℕ) → malloc (n + 1) ≡ malloc n ++ (none ∷ [])
fresh n =
    let one : n + 1 ≡ suc n = omega arith in
    ap malloc one ∙ sym (append-nil (malloc (suc n))) ∙ malloc-suc n []

fresh_both : (m n : ℕ) → malloc (m + n) ≡ malloc m ++ malloc n
fresh_both zero n = ap malloc (omega arith)
fresh_both (suc m) n =
    let one : suc m + n ≡ suc (m + n) = omega arith in
    ap malloc one ∙ ap (λ (b : Buffer). none ∷ b) (fresh_both m n)

-- The copy is the string and its NUL, and fills the memory that it is given.
pub ft_strdup-copies : {x s : List ℕ} → Holds x s → ft_strdup x ≡ some (held s ++ (some 0 ∷ []))
unfolding ft_strdup
ft_strdup-copies {x} {s} h =
    onward _ (Holds-ft_strlen h)
    ∙ rw (fresh (length s))
        (copied-ended [] (malloc (length s)) [] none 0 h (length-replicate (length s) none) refl)

-- A stretch of memory by its last place.
record Last (o : Option ℕ) (buf : Buffer) : Type 0 where
  first : Buffer
  last : Option ℕ
  same : o ∷ buf ≡ first ++ (last ∷ [])
  size : length first ≡ length buf

Last-cons : (o : Option ℕ) {p : Option ℕ} {buf : Buffer} → Last p buf → Last o (p ∷ buf)
Last-cons o l = record {
  first = o ∷ l.first;
  last = l.last;
  same = ap (λ (b : Buffer). o ∷ b) l.same;
  size = ap suc l.size;
}

Last-split : (o : Option ℕ) (buf : Buffer) → Last o buf
Last-split o [] = record { first = []; last = o; same = refl; size = refl }
Last-split o (p ∷ buf) = Last-cons o (Last-split p buf)

copied_strlen :
    {x s : List ℕ} (buf : Buffer)
    → Holds x s
    → ft_strlen (written (held s ++ (some 0 ∷ buf))) ≡ some (length s)
copied_strlen {s} buf h =
    ap ft_strlen (written-held_nul s buf) ∙ Holds-ft_strlen (Holds-again (written buf) h)

-- `ft_strjoin` gives the two strings one behind the other, with a NUL.
pub ft_strjoin-joins :
    {x y s t : List ℕ}
    → Holds x s
    → Holds y t
    → ft_strjoin x y ≡ some (held (s ++ t) ++ (some 0 ∷ []))
unfolding ft_strjoin
ft_strjoin-joins {x} {y} {s} {t} h k =
    onward _ (Holds-ft_strlen h)
    ∙ onward _ (Holds-ft_strlen k)
    ∙ onward _ (
        ap (λ (b : Buffer). ft_strcpy b x) memory
        ∙ ft_strcpy-copies (malloc (length s)) (malloc (length t)) none h
            (length-replicate (length s) none))
    ∙ ap (λ (b : Buffer). ft_strcat (held s ++ b) y) l.same
    ∙ ft_strcat-joins s l.first [] l.last k
        (ap (λ (b : Buffer). ft_strlen (written (held s ++ b))) (sym l.same) ∙ copied_strlen _ h)
        (l.size ∙ length-replicate (length t) none)
  where
    l : Last (some 0) (malloc (length t))
    l = Last-split (some 0) (malloc (length t))

    memory : malloc (length s + length t + 1) ≡ malloc (length s) ++ (none ∷ malloc (length t))
    memory =
        let one : length s + length t + 1 ≡ length s + suc (length t) = omega arith in
        ap malloc one ∙ fresh_both (length s) (suc (length t))
