-- ===== src/Printf/Digits/Turn.antt =====
-- `reverse_delect_first_zeros` of convert_base.c: the chars between the ends, turned round.
use mathlib.Core.List.{append_assoc}
use nm.Common.{
  ℕ, zero, suc, ◌+◌, ◌-◌, ◌≤◌, ◌≡◌, refl, sym, ap, ◌∙◌, false, some, List, [], ◌∷◌, ◌++◌, reverse,
  length, length-append, get_elem?, ltb, lt→ltb, arith,
}
use nm.Common.Ends.{Ends, ends, turn_ends}
use nm.Common.Options.{onward}
use nm.Libft.Buffer.{Buffer, store, written}
use nm.Libft.Buffer.Laws.{held, store-held, get_elem?-held}
use nm.Printf.Digits.{reverse_loop}

le→ltb : (i j : ℕ) → j ≤ i → ltb i j ≡ false
le→ltb i j h = ground arith

reverse_loop-done : (left i j : ℕ) (tab : Buffer) → j ≤ i + 1 → reverse_loop left tab i j ≡ some tab
unfolding reverse_loop
reverse_loop-done zero i j tab h = refl
reverse_loop-done (suc left) i j tab h = rw (le→ltb (i + 1) j h) refl

reverse_loop-round :
    (left i j : ℕ) (pre inner post : List ℕ) (a b : ℕ) (buf : Buffer)
    → i ≡ length pre
    → j ≡ i + 1 + suc (length inner)
    → reverse_loop (suc left) (held (pre ++ (a ∷ (inner ++ (b ∷ post)))) ++ buf) i j
      ≡ reverse_loop left (held (pre ++ (b ∷ (inner ++ (a ∷ post)))) ++ buf) (i + 1) (j - 1)
unfolding reverse_loop
reverse_loop-round left i j pre inner post a b buf ei ej =
    let far : j - 1 ≡ length (pre ++ (a ∷ inner)) = omega (arith, length-append pre (a ∷ inner)) in
    let far' : j - 1 ≡ length (pre ++ (b ∷ inner)) = omega (arith, length-append pre (b ∷ inner)) in
    let split = λ (c d : ℕ).
      ap (λ (l : List ℕ). held l ++ buf) (sym (append_assoc pre (c ∷ inner) (d ∷ post))) in
    rw (lt→ltb (i + 1) j (omega arith)) (
      onward _ (get_elem?-held pre a (inner ++ (b ∷ post)) buf i ei)
      ∙ onward _ (
          ap (λ (t : Buffer). get_elem? (written t) (j - 1)) (split a b)
          ∙ get_elem?-held (pre ++ (a ∷ inner)) b post buf (j - 1) far)
      ∙ onward _ (store-held pre a (inner ++ (b ∷ post)) buf i b ei)
      ∙ onward _ (
          ap (λ (t : Buffer). store t (j - 1) a) (split b b)
          ∙ store-held (pre ++ (b ∷ inner)) b post buf (j - 1) a far'
          ∙ ap some (sym (split b a))))

pub reverse_loop-Ends :
    {mid : List ℕ} (left i j : ℕ) (pre post : List ℕ) (buf : Buffer)
    → Ends mid
    → i ≡ length pre
    → j ≡ i + length mid
    → length mid ≤ left
    → reverse_loop left (held (pre ++ (mid ++ post)) ++ buf) i j
      ≡ some (held (pre ++ (reverse mid ++ post)) ++ buf)
reverse_loop-Ends left i j pre post buf Ends.none ei ej fuel =
    reverse_loop-done left i j _ (omega arith)
reverse_loop-Ends left i j pre post buf (Ends.one a) ei ej fuel =
    reverse_loop-done left i j _ (omega arith)
reverse_loop-Ends zero i j pre post buf (Ends.two a inner b) ei ej fuel = absurd (omega arith)
reverse_loop-Ends (suc left) i j pre post buf (Ends.two a inner b) ei ej fuel =
    let size = length-append inner (b ∷ []) in
    let size' = length-append pre (b ∷ []) in
    ap (λ (l : List ℕ). reverse_loop (suc left) (held (pre ++ (a ∷ l)) ++ buf) i j)
      (append_assoc inner (b ∷ []) post)
    ∙ reverse_loop-round left i j pre inner post a b buf ei (omega arith)
    ∙ ap (λ (l : List ℕ). reverse_loop left (held l ++ buf) (i + 1) (j - 1))
        (sym (append_assoc pre (b ∷ []) (inner ++ (a ∷ post))))
    ∙ reverse_loop-Ends left (i + 1) (j - 1) (pre ++ (b ∷ [])) (a ∷ post) buf (ends inner)
        (omega arith) (omega arith) (omega arith)
    ∙ ap (λ (l : List ℕ). some (held l ++ buf)) (turn_ends pre a inner b post)
