-- ===== src/Libft/NextLine.antt =====
-- ft_get_next_line.c: one line of a descriptor at a time. What is read and not yet given out is the stock
-- of the descriptor, in a list of nodes behind a static pointer. The calls of `read` are a parameter;
-- `none` is a fault, or fewer rounds than the loop over `read` makes. `malloc` does not fail.
pub mod Chars
pub mod Reads
pub mod Taken
use mathlib.Core.Option
use nm.Common.{
  ℕ, zero, suc, ◌+◌, Bool, true, false, Option, none, some, List, [], ◌∷◌, ◌++◌, length, drop, ltb,
  ◌==◌, if◌then◌else◌,
}
use nm.Common.Int.{ℤ, pos, negsuc}
use nm.Common.Options.{◌>>=◌}
use nm.Libft.Buffer.{Buffer, malloc, store, written}
use nm.Libft.Strings.{ft_strchr}
use nm.Libft.Copies.{ft_strdup, ft_strjoin}

-- `read(fd, buff, BUFF_SIZE)`, with `none` for -1, and whether `read(fd, "", 0)` is not 0.
pub record Input : Type 1 where
  pub State : Type 0
  pub read : State → (fd count : ℕ) → Option (List ℕ) × State
  pub refuses : State → (fd : ℕ) → Bool

abbrev pub buff_size : ℕ
buff_size = 15

-- `s[i] && s[i] != c`, as the number of chars
unfoldable pub strcdup_length : List ℕ → (c : ℕ) → Option ℕ
strcdup_length [] c = none
strcdup_length (a ∷ s) c =
    if a == 0 then some 0 else if a == c then some 0 else Option.map suc (strcdup_length s c)

-- `while (*s && *s != c) copy[i++] = *s++;`
unfoldable pub strcdup_loop : Buffer → (i : ℕ) → List ℕ → (c : ℕ) → Option (Buffer × ℕ)
strcdup_loop copy i [] c = none
strcdup_loop copy i (a ∷ s) c =
    let next = (do copy' ← store copy i a; strcdup_loop copy' (i + 1) s c) in
    if a == 0 then some (copy, i) else if a == c then some (copy, i) else next

unfoldable pub ft_strcdup : List ℕ → (c : ℕ) → Option Buffer
ft_strcdup s c = do
  n ← strcdup_length s c
  (copy, i) ← strcdup_loop (malloc (n + 1)) 0 s c
  store copy i 0

-- The chars of a stock, in memory from `malloc` or in the literal "".
pub data Stock : Type 0 where
  allocated literal : List ℕ → Stock

abbrev pub chars : Stock → List ℕ
chars (allocated s) = s
chars (literal s) = s

-- Only what is from `malloc` can be freed.
abbrev pub free : Stock → Option (Unit {0})
free (allocated s) = some tt
free (literal s) = none

pub record Node : Type 0 where
  pub fd : ℕ
  pub stock : Stock

-- `add` for a new descriptor: `ft_strdup("")`
unfoldable pub new_node : ℕ → Option Node
new_node fd =
    Option.map (λ s. record { fd = fd; stock = allocated (written s) }) (ft_strdup (0 ∷ []))

-- The node of `fd`, with those before and behind it. If there is none, `add` puts one at the end.
unfoldable pub locate : ℕ → List Node → Option (List Node × Node × List Node)
locate fd [] = Option.map (λ n. ([], n, [])) (new_node fd)
locate fd (n ∷ ns) =
    if n.fd == fd then some ([], n, ns) else Option.map (λ r. (n ∷ r.0, r.1, r.2)) (locate fd ns)

-- `-1`, `0`, and `1` with the line
pub data Answer : Type 0 where
  bad finished : Answer
  line : List ℕ → Answer

-- What was read, with a NUL in `buff[ret]`, is joined to the stock; whether it holds a newline.
unfoldable pub add_read : Stock → (bytes : List ℕ) → Option (Stock × Bool)
add_read stock bytes = if ltb buff_size (length bytes) then none else do
  joined ← ft_strjoin (chars stock) (bytes ++ (0 ∷ []))
  freed ← free stock
  newline ← ft_strchr (bytes ++ (0 ∷ [])) 10
  some (allocated (written joined), elim newline [ none ↦ false | some k ↦ true ])

-- What is behind `find`: the stock that is left, and the answer.
unfoldable pub take_from : Stock → (text : List ℕ) → Option (Stock × Answer)
take_from stock [] = none
take_from stock (c ∷ cs) = if c == 0 then some (stock, finished) else do
  newline ← ft_strchr (c ∷ cs) 10
  elim newline [
    | some k ↦ do
      text ← ft_strcdup (c ∷ cs) 10
      others ← ft_strdup (drop (k + 1) (c ∷ cs))
      freed ← free stock
      some (allocated (written others), line (written text))
    | none ↦ do text ← ft_strdup (c ∷ cs); some (literal (0 ∷ []), line (written text))
  ]

unfoldable pub take_line : Stock → Option (Stock × Answer)
take_line stock = take_from stock (chars stock)

-- The static pointer is set back to the first node, but not where 0 is returned.
abbrev pub nodes_left : (before : List Node) → Node → (behind : List Node) → Answer → List Node
nodes_left before n behind finished = n ∷ behind
nodes_left before n behind bad = before ++ (n ∷ behind)
nodes_left before n behind (line text) = before ++ (n ∷ behind)

module _ (input : Input) where
  open input use {State, read, refuses}

  -- `while ((ret = read(fd, buff, BUFF_SIZE)) > 0)`
  unfoldable pub read_loop : ℕ → (fd : ℕ) → Stock → State → Option (Stock × State)
  read_loop zero fd stock st = none
  read_loop (suc left) fd stock st =
      let (ret, st') = read st fd buff_size in
      elim ret [
        | none ↦ some (stock, st')
        | some [] ↦ some (stock, st')
        | some (c ∷ cs) ↦ elim (add_read stock (c ∷ cs)) [
          | none ↦ none
          | some (stock', true) ↦ some (stock', st')
          | some (stock', false) ↦ read_loop left fd stock' st'
        ]
      ]

  unfoldable pub get_next_line :
      (rounds : ℕ) → ℤ → List Node → State → Option (Answer × List Node × State)
  get_next_line rounds (negsuc k) nodes st = some (bad, nodes, st)
  get_next_line rounds (pos fd) nodes st = if refuses st fd then some (bad, nodes, st) else do
    (before, n, behind) ← locate fd nodes
    (stock, st') ← read_loop rounds fd n.stock st
    (stock', answer) ← take_line stock
    let n' = record n { stock = stock' }
    some (answer, nodes_left before n' behind answer, st')
