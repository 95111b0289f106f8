-- ===== src/FtNm/SwapBytes/Reverse.antt =====
-- The loop of `swap_endiane` (swap_bytes.c).
use mathlib.Core.List.{append_assoc}
use nm.Common.{
  ℕ, zero, suc, ◌+◌, ◌%◌, ◌^◌, ◌≤◌, ◌<◌, ◌≡◌, refl, ap, sym, ◌∙◌, List, [], ◌∷◌, ◌++◌, reverse,
  le→leb, lt→leb, arith, length, length-append,
}
use nm.Common.Ends.{Ends, none, one, two, ends, turn_ends}
use nm.Machine.{Machine, Ptr, ok}
use nm.Machine.Access.{with_bytes, read8-middle, write8-middle}
use nm.Machine.Steps.{step}
use nm.FtNm.SwapBytes.{swap_loop, swap_endiane}

swap_loop-done : (m : Machine) (p : Ptr) (i j : ℕ) → j ≤ i → swap_loop p i j m ≡ ok tt m
unfolding swap_loop
swap_loop-done m p i zero h = refl
swap_loop-done m p i (suc j) h = rw (lt→leb i j h)

-- One round exchanges the bytes at both ends of what is left.
swap_loop-round :
    (j : ℕ) (m : Machine) (p : Ptr) (i : ℕ) (pre inner post : List ℕ) (a b : ℕ)
    → m.bytes ≡ pre ++ (a ∷ (inner ++ (b ∷ post)))
    → p + i ≡ m.g_begin + length pre
    → j ≡ i + suc (length inner)
    → p + j < 2 ^ 64
    → swap_loop p i (suc j) m
      ≡ swap_loop p (i + 1) j (with_bytes m (pre ++ (b ∷ (inner ++ (a ∷ post)))))
unfolding swap_loop
swap_loop-round j m p i pre inner post a b e at ej fits =
    let first : (p + i) % 2 ^ 64 ≡ p + i = omega arith in
    let last : (p + j) % 2 ^ 64 ≡ p + j = omega arith in
    let far : p + j ≡ m.g_begin + length (pre ++ (a ∷ inner)) =
      omega (arith, length-append pre (a ∷ inner)) in
    let far' : p + j ≡ m.g_begin + length (pre ++ (b ∷ inner)) =
      omega (arith, length-append pre (b ∷ inner)) in
    let m' : Machine = with_bytes m (pre ++ (b ∷ (inner ++ (b ∷ post)))) in
    rw (le→leb i j (omega arith), first, last)
      (step _ _ (read8-middle m (p + i) pre (inner ++ (b ∷ post)) at a e)
        ∙ step _ _ (
            read8-middle m (p + j) (pre ++ (a ∷ inner)) post far b
              (e ∙ sym (append_assoc pre (a ∷ inner) (b ∷ post))))
        ∙ step _ _ (write8-middle m (p + i) pre (inner ++ (b ∷ post)) at a b e)
        ∙ step _ _ (
            write8-middle m' (p + j) (pre ++ (b ∷ inner)) post far' b a
              (sym (append_assoc pre (b ∷ inner) (b ∷ post)))
            ∙ ap (λ (l : List ℕ). ok tt (with_bytes m l))
                (append_assoc pre (b ∷ inner) (a ∷ post))))

-- The byte in the middle is exchanged with itself.
swap_loop-middle :
    (m : Machine) (p : Ptr) (i : ℕ) (pre post : List ℕ) (a : ℕ)
    → m.bytes ≡ pre ++ (a ∷ post)
    → p + i ≡ m.g_begin + length pre
    → p + i < 2 ^ 64
    → swap_loop p i (suc i) m ≡ ok tt (with_bytes m (pre ++ (a ∷ post)))
unfolding swap_loop
swap_loop-middle m p i pre post a e at fits =
    let place : (p + i) % 2 ^ 64 ≡ p + i = omega arith in
    let read = read8-middle m (p + i) pre post at a e in
    let m' : Machine = with_bytes m (pre ++ (a ∷ post)) in
    rw (le→leb i i (omega arith), place)
      (step _ _ read
        ∙ step _ _ read
        ∙ step _ _ (write8-middle m (p + i) pre post at a a e)
        ∙ step _ _ (write8-middle m' (p + i) pre post at a a refl)
        ∙ swap_loop-done m' p (i + 1) i (omega arith))

swap_loop-Ends :
    (j : ℕ) (m : Machine) (p : Ptr) (i : ℕ) (pre post : List ℕ) {mid : List ℕ}
    → Ends mid
    → m.bytes ≡ pre ++ (mid ++ post)
    → p + i ≡ m.g_begin + length pre
    → j ≡ i + length mid
    → p + j ≤ 2 ^ 64
    → swap_loop p i j m ≡ ok tt (with_bytes m (pre ++ (reverse mid ++ post)))
swap_loop-Ends j m p i pre post none e at ej fits =
    swap_loop-done m p i j (omega arith) ∙ ap (λ (l : List ℕ). ok tt (with_bytes m l)) e
swap_loop-Ends zero m p i pre post (one a) e at ej fits = absurd (omega arith)
swap_loop-Ends (suc j) m p i pre post (one a) e at ej fits =
    let same : j ≡ i = omega arith in rw same (swap_loop-middle m p i pre post a e at (omega arith))
swap_loop-Ends zero m p i pre post (two a inner b) e at ej fits = absurd (omega arith)
swap_loop-Ends (suc j) m p i pre post (two a inner b) e at ej fits =
    let size = length-append inner (b ∷ []) in
    let size' = length-append pre (b ∷ []) in
    let e' : m.bytes ≡ pre ++ (a ∷ (inner ++ (b ∷ post))) =
      e ∙ ap (λ (l : List ℕ). pre ++ (a ∷ l)) (append_assoc inner (b ∷ []) post) in
    let m' : Machine = with_bytes m (pre ++ (b ∷ (inner ++ (a ∷ post)))) in
    swap_loop-round j m p i pre inner post a b e' at (omega arith) (omega arith)
    ∙ swap_loop-Ends j m' p (i + 1) (pre ++ (b ∷ [])) (a ∷ post) (ends inner)
        (sym (append_assoc pre (b ∷ []) (inner ++ (a ∷ post)))) (omega arith) (omega arith)
        (omega arith)
    ∙ ap (λ (l : List ℕ). ok tt (with_bytes m l)) (turn_ends pre a inner b post)

-- Where the `byte` bytes at `data` are `mid`, and the addresses do not wrap, `swap_endiane` turns
-- them round in place, changes no other byte, and does not fault.
pub swap_endiane-reverse :
    (m : Machine) (p : Ptr) (pre mid post : List ℕ)
    → m.bytes ≡ pre ++ (mid ++ post)
    → p ≡ m.g_begin + length pre
    → p + length mid ≤ 2 ^ 64
    → swap_endiane p (length mid) m ≡ ok tt (with_bytes m (pre ++ (reverse mid ++ post)))
unfolding swap_endiane
swap_endiane-reverse m p pre mid post e at fits =
    swap_loop-Ends (length mid) m p 0 pre post (ends mid) e (omega arith) (omega arith) fits
