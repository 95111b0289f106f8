-- ===== src/Libft/NextLine/Taken.antt =====
-- The line that `get_next_line` (ft_get_next_line.c) takes, and the text that is left.
use mathlib.Core.List.{append-nil}
use nm.Common.{
  ℕ, ◌+◌, ◌<◌, ◌≡◌, refl, sym, ap, ◌∙◌, ◌⊎◌, inl, inr, false, none, some, List, [], ◌∷◌, ◌++◌,
  length, length-append, drop, ◌==◌, Bool-cases, ne→==, arith,
}
use nm.Common.Int.{pos}
use nm.Common.Options.{onward}
use nm.Libft.Buffer.{written}
use nm.Libft.Buffer.Laws.{held, written-held_nul}
use nm.Libft.Strings.Holds.{Holds, nul, char, Holds-again}
use nm.Libft.Strings.{ft_strchr}
use nm.Libft.Copies.Laws.{ft_strdup-copies}
use nm.Libft.Split.Words.{word, rest}
use nm.Libft.NextLine.{
  Input, Stock, allocated, literal, chars, free, Node, locate, Answer, finished, line, take_from,
  take_line, nodes_left, get_next_line,
}
use nm.Libft.NextLine.Chars.{
  first_line, from_newline, Found, nowhere, found, ft_strchr-Found, ft_strcdup-first_line,
}
use nm.Libft.NextLine.Reads.{Ready, read_loop-HasLine, Delivers}

-- What is asked for, of the text that is not given out yet: its first line with a NUL, or 0 at its end.
abbrev pub answer_of : List ℕ → Answer
answer_of [] = finished
answer_of (c ∷ cs) = line (first_line (c ∷ cs) ++ (0 ∷ []))

-- And what is left of it.
abbrev pub behind_line : List ℕ → List ℕ
behind_line u = drop 1 (from_newline u)

-- Text that starts with a line.
first_line-append :
    (p t : List ℕ) {r : List ℕ} → from_newline p ≡ 10 ∷ r → first_line (p ++ t) ≡ first_line p
unfolding word rest
first_line-append [] t e = absurd (ground arith)
first_line-append (a ∷ p) t e = elim (Bool-cases (a == 10)) [
  | inl n ↦ rw n refl
  | inr n ↦ rw n (ap (λ (l : List ℕ). a ∷ l) (first_line-append p t (rw n at e)))
]

behind_line-append :
    (p t : List ℕ) {r : List ℕ} → from_newline p ≡ 10 ∷ r → behind_line (p ++ t) ≡ r ++ t
unfolding rest
behind_line-append [] t e = absurd (ground arith)
behind_line-append (a ∷ p) t {r} e = elim (Bool-cases (a == 10)) [
  | inl n ↦ let same : p ≡ r = ground arith in rw (n, same) refl
  | inr n ↦ rw n (behind_line-append p t (rw n at e))
]

first_line-all : (p : List ℕ) → from_newline p ≡ [] → first_line p ≡ p
unfolding word rest
first_line-all [] e = refl
first_line-all (a ∷ p) e = elim (Bool-cases (a == 10)) [
  | inl n ↦ absurd (ground arith)
  | inr n ↦ rw n (ap (λ (l : List ℕ). a ∷ l) (first_line-all p (rw n at e)))
]

written_string : (s : List ℕ) → written (held s ++ (some 0 ∷ [])) ≡ s ++ (0 ∷ [])
unfolding written
written_string s = written-held_nul s []

take_from-end :
    (stock : Stock) {x : List ℕ} → Holds x [] → take_from stock x ≡ some (stock, finished)
unfolding take_from
take_from-end stock (nul r z) = rw z refl

take_from-found :
    (stock : Stock) {x s t : List ℕ} (c k : ℕ)
    → Holds x (c ∷ s)
    → free stock ≡ some tt
    → ft_strchr x 10 ≡ some (some k)
    → Holds (drop (k + 1) x) t
    → take_from stock x ≡ some (allocated (t ++ (0 ∷ [])), line (first_line (c ∷ s) ++ (0 ∷ [])))
unfolding take_from
take_from-found stock {x = []} c k h f n behind = elim h [ ]
take_from-found stock {x = a ∷ x} {s} {t} c k (char nz h) f n behind = rw (ne→== c 0 nz) (
    onward _ n
    ∙ onward _ (ft_strcdup-first_line (char nz h))
    ∙ onward _ (ft_strdup-copies behind)
    ∙ onward _ f
    ∙ rw (written_string t, written_string (first_line (c ∷ s))) refl)

take_from-last :
    (stock : Stock) {x s : List ℕ} (c : ℕ)
    → Holds x (c ∷ s)
    → ft_strchr x 10 ≡ some none
    → take_from stock x ≡ some (literal (0 ∷ []), line ((c ∷ s) ++ (0 ∷ [])))
unfolding take_from
take_from-last stock {x = []} c h n = elim h [ ]
take_from-last stock {x = a ∷ x} {s} c (char nz h) n =
    rw (ne→== c 0 nz)
      (onward _ n ∙ onward _ (ft_strdup-copies (char nz h)) ∙ rw (written_string (c ∷ s)) refl)

-- The line is taken from the stock, where it is.
pub record Taken (input : Input) (fd : ℕ) (stock : Stock) (st : input.State) (unread : List ℕ)
    : Type 0 where
  pub left : Stock
  pub runs : take_line stock ≡ some (left, answer_of unread)
  pub ready : Ready input fd left st (behind_line unread)

module _ (input : Input) (fd : ℕ) (stock : Stock) {st : input.State} where
  Taken-end :
      {u : List ℕ}
      → Holds (chars stock) []
      → Delivers input fd st []
      → u ≡ []
      → Taken input fd stock st u
  unfolding take_line rest
  Taken-end h d e = rw e (record {
    left = stock;
    runs = take_from-end stock h;
    ready = record {
      stocked = [];
      to_read = [];
      holds = h;
      gives = d;
      same = refl;
      freed = inr (refl, refl);
    };
  })

  Taken-found :
      {s t r : List ℕ} (c k : ℕ)
      → Holds (chars stock) (c ∷ s)
      → Delivers input fd st t
      → free stock ≡ some tt
      → from_newline (c ∷ s) ≡ 10 ∷ r
      → ft_strchr (chars stock) 10 ≡ some (some k)
      → Holds (drop (k + 1) (chars stock)) r
      → Taken input fd stock st ((c ∷ s) ++ t)
  unfolding take_line
  Taken-found {s} {t} {r} c k h d f e n b = record {
    left = allocated (r ++ (0 ∷ []));
    runs =
        take_from-found stock c k h f n b
        ∙ ap (λ (l : List ℕ). some (allocated (r ++ (0 ∷ [])), line (l ++ (0 ∷ []))))
            (sym (first_line-append (c ∷ s) t e));
    ready = record {
      stocked = r;
      to_read = t;
      holds = Holds-again [] b;
      gives = d;
      same = behind_line-append (c ∷ s) t e;
      freed = inl refl;
    };
  }

  Taken-last :
      {s : List ℕ} (c : ℕ)
      → Holds (chars stock) (c ∷ s)
      → Delivers input fd st []
      → from_newline (c ∷ s) ≡ []
      → ft_strchr (chars stock) 10 ≡ some none
      → Taken input fd stock st (c ∷ s)
  unfolding take_line
  Taken-last {s} c h d e n = record {
    left = literal (0 ∷ []);
    runs =
        take_from-last stock c h n
        ∙ ap (λ (l : List ℕ). some (literal (0 ∷ []), line (l ++ (0 ∷ []))))
            (sym (first_line-all (c ∷ s) e));
    ready = record {
      stocked = [];
      to_read = [];
      holds = nul [] refl;
      gives = d;
      same = ap (drop 1) e;
      freed = inr (refl, refl);
    };
  }

  Taken-of :
      {p t u : List ℕ}
      → Holds (chars stock) p
      → Found (chars stock) p
      → Delivers input fd st t
      → u ≡ p ++ t
      → (free stock ≡ some tt) ⊎ ((t ≡ []) × (p ≡ []))
      → (t ≡ []) ⊎ ((r : List ℕ) × (from_newline p ≡ 10 ∷ r))
      → Taken input fd stock st u
  unfolding rest
  Taken-of {p = []} h l d same f (inl none_left) =
      Taken-end h (rw none_left at d) (same ∙ none_left)
  Taken-of {p = []} h l d same f (inr (r, e)) = absurd (ground arith)
  Taken-of {p = c ∷ s} h (nowhere e n) d same f (inl none_left) =
      rw (same, none_left, append-nil (c ∷ s)) (Taken-last c h (rw none_left at d) e n)
  Taken-of {p = c ∷ s} h (nowhere e n) d same f (inr (r, g)) = absurd (ground arith)
  Taken-of {p = c ∷ s} h (found k r e n b) d same (inl f) enough =
      rw same (Taken-found c k h d f e n b)
  Taken-of {p = c ∷ s} h (found k r e n b) d same (inr (_, empty)) enough = absurd (ground arith)

-- What a call leaves: the answer that the text asks for, and the nodes with the stock of `n` changed, from which
-- the rest of the text is ready.
pub record Answered (input : Input) (fd rounds : ℕ) (nodes : List Node) (st : input.State)
    (before : List Node) (n : Node) (behind : List Node) (unread : List ℕ) : Type 0 where
  pub stock : Stock
  pub state : input.State
  pub runs :
      get_next_line input rounds (pos fd) nodes st
      ≡ some (
        answer_of unread,
        nodes_left before (record n { stock = stock }) behind (answer_of unread),
        state,
      )
  pub ready : Ready input fd stock state (behind_line unread)

-- Let the node of the descriptor, found or added, be ready for a text: the text is what it has in stock and what
-- `read` still delivers. With a round for each char and one more, `get_next_line` does not fault. It gives
-- the first line of the text, or 0 if there is no text, and the node is ready for the text behind that line.
pub get_next_line-Answered :
    (input : Input) (fd rounds : ℕ) (nodes : List Node) (st : input.State) (before : List Node)
    (n : Node) (behind : List Node) (unread : List ℕ)
    → input.refuses st fd ≡ false
    → locate fd nodes ≡ some (before, n, behind)
    → Ready input fd n.stock st unread
    → length unread < rounds
    → Answered input fd rounds nodes st before n behind unread
unfolding get_next_line
get_next_line-Answered input fd rounds nodes st before n behind unread ok at r enough =
    let l =
      read_loop-HasLine input fd rounds n.stock r.holds r.gives r.freed
        (omega (arith, ap length r.same, length-append r.stocked r.to_read)) in
    let t =
      Taken-of input fd l.new_stock l.ready.holds (ft_strchr-Found l.ready.holds) l.ready.gives
        (r.same ∙ l.ready.same) l.ready.freed l.enough in
    record {
      stock = t.left;
      state = l.new_state;
      runs = rw ok (onward _ at ∙ onward _ l.runs ∙ onward _ t.runs);
      ready = t.ready;
    }
