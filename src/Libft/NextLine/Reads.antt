-- ===== src/Libft/NextLine/Reads.antt =====
-- The loop over `read`: the stock grows by what the descriptor delivers, up to a newline or the end.
use mathlib.Core.List.{append_assoc}
use nm.Common.{
  ℕ, zero, suc, ◌≤◌, ◌<◌, ◌≡◌, refl, sym, ap, ◌∙◌, ◌⊎◌, inl, inr, Bool, true, false, Option, none,
  some, List, [], ◌∷◌, ◌++◌, length, length-append, ltb, ◌==◌, Bool-cases, arith,
}
use nm.Common.Options.{onward}
use nm.Libft.Buffer.{written}
use nm.Libft.Buffer.Laws.{written-held_nul}
use nm.Libft.Strings.{ft_strchr}
use nm.Libft.Strings.Holds.{Holds, nul, char}
use nm.Libft.Copies.Laws.{ft_strjoin-joins}
use nm.Libft.Split.Words.{rest}
use nm.Libft.NextLine.{Input, Stock, allocated, chars, free, buff_size, add_read, read_loop}
use nm.Libft.NextLine.Chars.{from_newline, Found, nowhere, found, ft_strchr-Found}

pub Holds-append :
    {x y s t : List ℕ} → Holds x s → Holds y t → Holds ((s ++ t) ++ (0 ∷ [])) (s ++ t)
Holds-append (nul r z) (nul r' z') = nul [] refl
Holds-append (nul r z) (char nz k) = char nz (Holds-append (nul r z) k)
Holds-append (char nz h) k = char nz (Holds-append h k)

-- What `read` gives of a descriptor from a state on: the text, in parts of at most 15 chars with no NUL.
-- At the end it gives 0, and goes on giving 0.
pub data Delivers (input : Input) (fd : ℕ) : input.State → List ℕ → Type 0 where
  at_end : {st : input.State} → input.read st fd buff_size ≡ (some [], st) → Delivers input fd st []
  delivers :
      {st st' : input.State} {t u : List ℕ} (c : ℕ) (cs : List ℕ)
      → input.read st fd buff_size ≡ (some (c ∷ cs), st')
      → length (c ∷ cs) ≤ buff_size
      → Holds ((c ∷ cs) ++ (0 ∷ [])) (c ∷ cs)
      → Delivers input fd st' t
      → u ≡ (c ∷ cs) ++ t
      → Delivers input fd st u

-- The text that is not given out yet is what is in stock and what will be read. The literal "" is in stock
-- only at the end.
pub record Ready (input : Input) (fd : ℕ) (stock : Stock) (st : input.State) (unread : List ℕ)
    : Type 0 where
  pub stocked : List ℕ
  pub to_read : List ℕ
  pub holds : Holds (chars stock) stocked
  pub gives : Delivers input fd st to_read
  pub same : unread ≡ stocked ++ to_read
  pub freed : (free stock ≡ some tt) ⊎ ((to_read ≡ []) × (stocked ≡ []))

-- Behind the loop the first line is in stock.
pub record HasLine (input : Input) (fd : ℕ) (left : ℕ) (stock : Stock) (st : input.State)
    (unread : List ℕ) : Type 0 where
  pub new_stock : Stock
  pub new_state : input.State
  pub runs : read_loop input left fd stock st ≡ some (new_stock, new_state)
  pub ready : Ready input fd new_stock new_state unread
  pub enough : (ready.to_read ≡ []) ⊎ ((r : List ℕ) × (from_newline ready.stocked ≡ 10 ∷ r))

abbrev has_newline : Option ℕ → Bool
has_newline none = false
has_newline (some k) = true

nothing_more : written [] ≡ []
unfolding written
nothing_more = refl

add_read-joins :
    (stock : Stock) (bytes : List ℕ) {p : List ℕ} (newline : Option ℕ)
    → Holds (chars stock) p
    → Holds (bytes ++ (0 ∷ [])) bytes
    → length bytes ≤ buff_size
    → free stock ≡ some tt
    → ft_strchr (bytes ++ (0 ∷ [])) 10 ≡ some newline
    → add_read stock bytes ≡ some (allocated ((p ++ bytes) ++ (0 ∷ [])), has_newline newline)
unfolding add_read
add_read-joins stock bytes {p} newline h k room f n =
    let fits : ltb buff_size (length bytes) ≡ false = ground arith in
    rw fits (
      onward _ (ft_strjoin-joins h k)
      ∙ onward _ f
      ∙ onward _ n
      ∙ rw (written-held_nul (p ++ bytes) []) (
          ap (λ (l : List ℕ). some (allocated ((p ++ bytes) ++ (0 ∷ l)), has_newline newline))
            nothing_more))

module _ (input : Input) (fd : ℕ) where
  -- The two parts of what a call gives.
  ret :
      {st st' : input.State} {r : Option (List ℕ)}
      → input.read st fd buff_size ≡ (r, st')
      → (input.read st fd buff_size).0 ≡ r
  ret e = ap (λ (p : Option (List ℕ) × input.State). p.0) e

  then_state :
      {st st' : input.State} {r : Option (List ℕ)}
      → input.read st fd buff_size ≡ (r, st')
      → (input.read st fd buff_size).1 ≡ st'
  then_state e = ap (λ (p : Option (List ℕ) × input.State). p.1) e

  read_loop-end :
      {st : input.State} (left : ℕ) (stock : Stock)
      → input.read st fd buff_size ≡ (some [], st)
      → read_loop input (suc left) fd stock st ≡ some (stock, st)
  unfolding read_loop
  read_loop-end left stock e =
      rw (ret e, read_loop) (ap (λ (s : input.State). some (stock, s)) (then_state e))

  read_loop-newline :
      {st st' : input.State} {stock' : Stock} (left c : ℕ) (cs : List ℕ) (stock : Stock)
      → input.read st fd buff_size ≡ (some (c ∷ cs), st')
      → add_read stock (c ∷ cs) ≡ some (stock', true)
      → read_loop input (suc left) fd stock st ≡ some (stock', st')
  unfolding read_loop
  read_loop-newline {stock'} left c cs stock e a =
      rw (ret e, read_loop)
        (rw (a, read_loop) (ap (λ (s : input.State). some (stock', s)) (then_state e)))

  read_loop-round :
      {st st' : input.State} {stock' : Stock} (left c : ℕ) (cs : List ℕ) (stock : Stock)
      → input.read st fd buff_size ≡ (some (c ∷ cs), st')
      → add_read stock (c ∷ cs) ≡ some (stock', false)
      → read_loop input (suc left) fd stock st ≡ read_loop input left fd stock' st'
  unfolding read_loop
  read_loop-round {stock'} left c cs stock e a =
      rw (ret e, read_loop) (rw (a, read_loop) (ap (read_loop input left fd stock') (then_state e)))

-- A newline is found where more text stands in front.
pub from_newline-append :
    (p c : List ℕ) {r : List ℕ}
    → from_newline c ≡ 10 ∷ r
    → (q : List ℕ) × (from_newline (p ++ c) ≡ 10 ∷ q)
unfolding rest
from_newline-append [] c {r} e = (r, e)
from_newline-append (a ∷ p) c e = elim (Bool-cases (a == 10)) [
  | inl n ↦ (p ++ c, rw n (ground arith))
  | inr n ↦ let (q, f) = from_newline-append p c e in (q, rw n f)
]

module _ (input : Input) (fd : ℕ) where
  HasLine-newline :
      {st st' : input.State} {p t u : List ℕ} (left c : ℕ) (cs : List ℕ) (stock : Stock)
      → input.read st fd buff_size ≡ (some (c ∷ cs), st')
      → add_read stock (c ∷ cs) ≡ some (allocated ((p ++ (c ∷ cs)) ++ (0 ∷ [])), true)
      → Holds (chars stock) p
      → Holds ((c ∷ cs) ++ (0 ∷ [])) (c ∷ cs)
      → Delivers input fd st' t
      → u ≡ (c ∷ cs) ++ t
      → (r : List ℕ) × (from_newline (c ∷ cs) ≡ 10 ∷ r)
      → HasLine input fd (suc left) stock st (p ++ u)
  HasLine-newline {st'} {p} {t} left c cs stock e a h k d same (r, n) = record {
    new_stock = allocated ((p ++ (c ∷ cs)) ++ (0 ∷ []));
    new_state = st';
    runs = read_loop-newline input fd left c cs stock e a;
    ready = record {
      stocked = p ++ (c ∷ cs);
      to_read = t;
      holds = Holds-append h k;
      gives = d;
      same = ap (λ (l : List ℕ). p ++ l) same ∙ sym (append_assoc p (c ∷ cs) t);
      freed = inl refl;
    };
    enough = inr (from_newline-append p (c ∷ cs) n);
  }

  HasLine-round :
      {st st' : input.State} (p t : List ℕ) {u : List ℕ} {stock' : Stock} (left c : ℕ) (cs : List ℕ)
      (stock : Stock)
      → input.read st fd buff_size ≡ (some (c ∷ cs), st')
      → add_read stock (c ∷ cs) ≡ some (stock', false)
      → u ≡ (c ∷ cs) ++ t
      → HasLine input fd left stock' st' ((p ++ (c ∷ cs)) ++ t)
      → HasLine input fd (suc left) stock st (p ++ u)
  HasLine-round p t left c cs stock e a same l = record {
    new_stock = l.new_stock;
    new_state = l.new_state;
    runs = read_loop-round input fd left c cs stock e a ∙ l.runs;
    ready = record {
      stocked = l.ready.stocked;
      to_read = l.ready.to_read;
      holds = l.ready.holds;
      gives = l.ready.gives;
      same = ap (λ (l : List ℕ). p ++ l) same ∙ sym (append_assoc p (c ∷ cs) t) ∙ l.ready.same;
      freed = l.ready.freed;
    };
    enough = l.enough;
  }

  HasLine-found :
      {st st' : input.State} {p t u : List ℕ} (left c : ℕ) (cs : List ℕ) (stock : Stock)
      → input.read st fd buff_size ≡ (some (c ∷ cs), st')
      → length (c ∷ cs) ≤ buff_size
      → Holds (chars stock) p
      → Holds ((c ∷ cs) ++ (0 ∷ [])) (c ∷ cs)
      → Delivers input fd st' t
      → u ≡ (c ∷ cs) ++ t
      → free stock ≡ some tt
      → HasLine input fd left (allocated ((p ++ (c ∷ cs)) ++ (0 ∷ []))) st' ((p ++ (c ∷ cs)) ++ t)
      → Found ((c ∷ cs) ++ (0 ∷ [])) (c ∷ cs)
      → HasLine input fd (suc left) stock st (p ++ u)
  HasLine-found {p} {t} left c cs stock e room h k d same f others (nowhere n s) =
      HasLine-round p t left c cs stock e (add_read-joins stock (c ∷ cs) none h k room f s) same
        others
  HasLine-found left c cs stock e room h k d same f others (found j r n s _) =
      HasLine-newline left c cs stock e (add_read-joins stock (c ∷ cs) (some j) h k room f s) h k d
        same (r, n)

  -- With a round for each char and one more, the loop ends with the first line in stock.
  pub read_loop-HasLine :
      (left : ℕ) {st : input.State} (stock : Stock) {p u : List ℕ}
      → Holds (chars stock) p
      → Delivers input fd st u
      → (free stock ≡ some tt) ⊎ ((u ≡ []) × (p ≡ []))
      → length u < left
      → HasLine input fd left stock st (p ++ u)
  read_loop-HasLine zero stock h d f enough = absurd (omega arith)
  read_loop-HasLine (suc left) {st} stock {p} h (at_end e) f enough = record {
    new_stock = stock;
    new_state = st;
    runs = read_loop-end input fd left stock e;
    ready = record {
      stocked = p;
      to_read = [];
      holds = h;
      gives = at_end e;
      same = refl;
      freed = f;
    };
    enough = inl refl;
  }
  read_loop-HasLine (suc left) stock {p} {u} h (delivers {t} c cs e room k d same) f enough =
      HasLine-found left c cs stock e room h k d same (freeable f)
        (read_loop-HasLine left (allocated ((p ++ (c ∷ cs)) ++ (0 ∷ []))) (Holds-append h k) d
          (inl refl) (omega (arith, ap length same, length-append (c ∷ cs) t)))
        (ft_strchr-Found k)
    where
      freeable : (free stock ≡ some tt) ⊎ ((u ≡ []) × (p ≡ [])) → free stock ≡ some tt
      freeable (inl f) = f
      freeable (inr (nothing, _)) = absurd (ground arith)
