-- ===== src/Libft/Output.antt =====
-- Output to a descriptor (libft/ft_put*_fd.c, ft_putendl.c, ft_putnbr.c, ft_putnexit.c): the calls of
-- write, each of one char, in order. What write returns is not read.
pub mod Number
use mathlib.Core.Option
use nm.Common.{
  ℕ, zero, suc, ◌+◌, ◌/◌, ◌%◌, Option, none, some, List, [], ◌∷◌, ◌++◌, ltb, ◌==◌, if◌then◌else◌,
}
use nm.Common.Int.{ℤ, pos, is_neg}
use nm.Common.Options.{◌>>=◌}
use nm.Printf.Itoa.{magnitude}

-- `write(fd, &c, 1)`
pub record Write : Type 0 where
  pub fd : ℤ
  pub char : ℕ

abbrev pub ft_putchar_fd : (c : ℕ) (fd : ℤ) → List Write
ft_putchar_fd c fd = record { fd = fd; char = c } ∷ []

unfoldable pub ft_putstr_fd : List ℕ → (fd : ℤ) → Option (List Write)
ft_putstr_fd [] fd = none
ft_putstr_fd (c ∷ s) fd =
    if c == 0 then some [] else do rest ← ft_putstr_fd s fd; some (ft_putchar_fd c fd ++ rest)

unfoldable pub ft_putendl_fd : List ℕ → (fd : ℤ) → Option (List Write)
ft_putendl_fd s fd = do out ← ft_putstr_fd s fd; some (out ++ ft_putchar_fd 10 fd)

-- ft_putendl is the same with descriptor 1.
unfoldable pub ft_putendl : List ℕ → Option (List Write)
ft_putendl s = do out ← ft_putstr_fd s (pos 1); some (out ++ ft_putchar_fd 10 (pos 1))

-- The output, and the status of exit.
unfoldable pub ft_putnexit : List ℕ → Option (List Write × ℕ)
ft_putnexit str = do out ← ft_putendl str; some (out, 1)

-- The negation of the least int, which overflows, is taken to wrap. `depth` bounds the calls that are open at a time.
unfoldable pub putnbr_rounds : (depth : ℕ) → (n fd : ℤ) → Option (List Write)
putnbr_rounds zero n fd = none
putnbr_rounds (suc depth) n fd =
    let sign = if is_neg n then ft_putchar_fd b'-' fd else [] in
    let nbr = magnitude 32 n in
    let high = putnbr_rounds depth (pos (nbr / 10)) fd in
    let low = putnbr_rounds depth (pos (nbr % 10)) fd in
    let both = (do a ← high; b ← low; some (sign ++ (a ++ b))) in
    if ltb 9 nbr then both else some (sign ++ ft_putchar_fd (nbr + b'0') fd)

unfoldable pub ft_putnbr_fd : (n fd : ℤ) → Option (List Write)
ft_putnbr_fd n fd = putnbr_rounds 32 n fd

-- The same with ft_putchar, which writes to descriptor 1.
unfoldable pub ft_putnbr : (n : ℤ) → Option (List Write)
ft_putnbr n = putnbr_rounds 32 n (pos 1)
