-- ===== src/Libft/Memory/Move.antt =====
-- The bytes that `ft_memmove` and `ft_memcpy` move, on regions that overlap.
use nm.Common.{
  ℕ, zero, suc, ◌+◌, ◌-◌, ◌≤◌, ◌<◌, ◌≡◌, refl, ◌∙◌, ◌&&◌, Bool-cases, inl, inr, leb→le, Option,
  some, length, get_elem?, set, length-set, get_elem?-set_self, get_elem?-set_ne, get_elem?-lt, leb,
  ltb, if◌then◌else◌, arith,
}
use nm.Common.Options.{onward}
use nm.Libft.Buffer.{Buffer}
use nm.Libft.Memory.{put, ft_memcpy, backward_loop, ft_memmove}

-- `after` is `mem` with the `n` bytes from `src` on at `dest`, and is the same everywhere else.
pub record Moved (mem : Buffer) (dest src n : ℕ) (after : Buffer) : Type 0 where
  pub same_length : length after ≡ length mem
  pub at :
      (i : ℕ)
      → get_elem? after i ≡ (
          if leb dest i && ltb i (dest + n)
          then get_elem? mem (src + (i - dest))
          else get_elem? mem i)

abbrev pub Moves : Buffer → (dest src n : ℕ) → Option Buffer → Type 0
Moves mem dest src n result = (after : Buffer) × (result ≡ some after) × Moved mem dest src n after

pub put-lt :
    (mem : Buffer) (i : ℕ) (cell : Option ℕ)
    → i < length mem
    → put mem i cell ≡ some (set mem i cell)
unfolding put
put-lt mem i cell h = let (old, e) = get_elem?-lt mem i h in rw (put, e) refl

pub get_elem?-set :
    (mem : Buffer) (i j : ℕ) (cell : Option ℕ)
    → i < length mem
    → get_elem? (set mem i cell) j ≡ (if leb i j && leb j i then some cell else get_elem? mem j)
get_elem?-set mem i j cell h =
    ground (arith, get_elem?-set_self mem i cell h, get_elem?-set_ne mem i j cell)

-- One byte is moved, and the others after it.
Moved-first :
    {mem after : Buffer} {cell : Option ℕ} (dest src n : ℕ)
    → dest ≤ src
    → dest < length mem
    → get_elem? mem src ≡ some cell
    → Moved (set mem dest cell) (dest + 1) (src + 1) n after
    → Moved mem dest src (suc n) after
Moved-first {mem} {after} {cell} dest src n below inside e m = record {
  same_length = m.same_length ∙ length-set mem dest cell;
  at = λ i. ground (
    arith,
    m.at i,
    get_elem?-set mem dest i cell inside,
    get_elem?-set mem dest (src + 1 + (i - (dest + 1))) cell inside,
  );
}

-- The last of the bytes is moved, and then those before it.
Moved-last :
    {mem after : Buffer} {cell : Option ℕ} (dest src n : ℕ)
    → src < dest
    → dest + n < length mem
    → get_elem? mem (src + n) ≡ some cell
    → Moved (set mem (dest + n) cell) dest src n after
    → Moved mem dest src (suc n) after
Moved-last {mem} {after} {cell} dest src n below inside e m = record {
  same_length = m.same_length ∙ length-set mem (dest + n) cell;
  at = λ i. ground (
    arith,
    m.at i,
    get_elem?-set mem (dest + n) i cell inside,
    get_elem?-set mem (dest + n) (src + (i - dest)) cell inside,
  );
}

Moved-none : (mem : Buffer) (dest src : ℕ) → Moved mem dest src 0 mem
Moved-none mem dest src = record { same_length = refl; at = λ i. ground arith }

-- Where `dest` is not behind `src`, `ft_memcpy` moves the bytes even if the regions overlap.
pub ft_memcpy-Moves :
    (n : ℕ) (mem : Buffer) (dest src : ℕ)
    → dest ≤ src
    → src + n ≤ length mem
    → Moves mem dest src n (ft_memcpy mem dest src n)
unfolding ft_memcpy
ft_memcpy-Moves zero mem dest src below room = (mem, refl, Moved-none mem dest src)
ft_memcpy-Moves (suc n) mem dest src below room =
    let (cell, e) = get_elem?-lt mem src (omega arith) in
    let inside : dest < length mem = omega arith in
    let mem' = set mem dest cell in
    let (after, runs, m) =
      ft_memcpy-Moves n mem' (dest + 1) (src + 1) (omega arith)
        (omega (arith, length-set mem dest cell)) in
    (
      after,
      onward _ e ∙ onward _ (put-lt mem dest cell inside) ∙ runs,
      Moved-first dest src n below inside e m,
    )

backward_loop-Moves :
    (n : ℕ) (mem : Buffer) (dest src : ℕ)
    → src < dest
    → dest + n ≤ length mem
    → Moves mem dest src n (backward_loop mem dest src n)
unfolding backward_loop
backward_loop-Moves zero mem dest src above room = (mem, refl, Moved-none mem dest src)
backward_loop-Moves (suc n) mem dest src above room =
    let (cell, e) = get_elem?-lt mem (src + n) (omega arith) in
    let inside : dest + n < length mem = omega arith in
    let mem' = set mem (dest + n) cell in
    let (after, runs, m) =
      backward_loop-Moves n mem' dest src above (omega (arith, length-set mem (dest + n) cell)) in
    (
      after,
      onward _ e ∙ onward _ (put-lt mem (dest + n) cell inside) ∙ runs,
      Moved-last dest src n above inside e m,
    )

-- Where both regions of `n` bytes are in the memory, however they overlap, `ft_memmove` does not
-- fault; it leaves at `dest` the bytes that were at `src` before, set or not, and changes no other.
pub ft_memmove-Moves :
    (mem : Buffer) (dest src n : ℕ)
    → dest + n ≤ length mem
    → src + n ≤ length mem
    → Moves mem dest src n (ft_memmove mem dest src n)
unfolding ft_memmove
ft_memmove-Moves mem dest src n to from = elim (Bool-cases (leb dest src)) [
  | inl below ↦ rw below (ft_memcpy-Moves n mem dest src (leb→le _ _ below) from)
  | inr above ↦ rw above (backward_loop-Moves n mem dest src (ground arith) to)
]
