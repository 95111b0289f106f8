-- ===== src/Printf/Unsigned.antt =====
-- set_print_oux.c and for_print_oux.c: how an unsigned number is printed whose digits are in `ori`.
-- Lengths and widths are integers: the code takes the differences with `ft_strlen` in a size_t and
-- cuts them to an int, which is the same where they fit.
use nm.Common.{ℕ, Bool, true, false, not, ◌&&◌, List, get_elem?, ◌==◌, if◌then◌else◌}
use nm.Common.Int.{ℤ, pos, negsuc, ◌+ℤ◌, ◌-ℤ◌, ltb_ℤ, eqb_ℤ}
use nm.Libft.Strings.{ft_strlen}
use nm.Printf.Monad.{Print, pure, attempt, ◌>>=◌, ◌>>◌}
use nm.Printf.Put.{max_3, ft_putchar, ft_putstr, ft_putnchar}
use nm.Printf.Data.{Data, has}

-- `ft_strlen(s)` as an int, and `s[0]`
unfoldable pub size_of : List ℕ → Print ℤ
size_of s = do n ← attempt (ft_strlen s); pure (pos n)

unfoldable pub first_of : List ℕ → Print ℕ
first_of s = attempt (get_elem? s 0)

-- `pre_fix[0] == '0' && !(*(pre_fix + 1))`: the prefix of an octal number
unfoldable pub is_octal : List ℕ → Print Bool
is_octal pre_fix = do
  c ← first_of pre_fix
  if c == b'0' then (do next ← attempt (get_elem? pre_fix 1); pure (next == 0)) else pure false

unfoldable pub for_setoux : Data → List ℕ → Print Data
for_setoux d pre_fix = do
  n ← size_of d.ori
  p ← size_of pre_fix
  octal ← is_octal pre_fix
  let d' =
      if not (ltb_ℤ n d.precison)
      then record d { len = max_3 d.width (n +ℤ p) d.precison }
      else if not octal
      then record d { len = max_3 d.width n (d.precison +ℤ p) }
      else record d {
        len = max_3 d.width n d.precison;
        blank = max_3 d.width n d.precison -ℤ d.precison;
      }
  if octal && ltb_ℤ n d.precison
      then pure d'
      else pure (record d' { blank = d'.len -ℤ d'.precison -ℤ p })

-- The first two tests of `set_oxu`: `c` is `ori[0]` and `n` its length.
unfoldable pub set_precison : Data → (c : ℕ) → (n : ℤ) → Data
set_precison d c n =
    let d' = record d { no_pre = if eqb_ℤ d.precison (negsuc 0) then true else d.no_pre } in
    if not (c == b'0' && eqb_ℤ d.precison (pos 0)) && ltb_ℤ d.precison n
    then record d' { precison = n }
    else d'

unfoldable pub set_oxu : Data → List ℕ → Print Data
set_oxu d pre_fix = do
  c ← first_of d.ori
  n ← size_of d.ori
  let d' = set_precison d c n
  hash ← has d'.flags b'#'
  if not (c == b'0') && hash then for_setoux d' pre_fix else do
    if eqb_ℤ d'.width (pos 0) && not (ltb_ℤ (pos 0) d'.precison) && c == b'0'
        then pure d'
        else pure (record d' {
          len = max_3 d'.width n d'.precison;
          blank = max_3 d'.width n d'.precison -ℤ d'.precison;
        })

-- `if (ft_strchr(data->flags, '#') && !(octal && data->precison > strlen)) ft_putstr(pre_fix);`
unfoldable pub put_prefix : Data → (n : ℤ) → List ℕ → Print (Unit {0})
put_prefix d n pre_fix = do
  hash ← has d.flags b'#'
  octal ← is_octal pre_fix
  if hash && not (octal && ltb_ℤ n d.precison) then ft_putstr pre_fix else pure tt

unfoldable pub for_print_oux : Data → List ℕ → Print (Unit {0})
for_print_oux d pre_fix = do
  n ← size_of d.ori
  put_prefix d n pre_fix
  ft_putnchar b'0' (d.precison -ℤ n)
  ft_putstr d.ori
  ft_putnchar b' ' d.blank

unfoldable pub for_right_oux : Data → List ℕ → Print (Unit {0})
for_right_oux d pre_fix = do
  n ← size_of d.ori
  ft_putnchar b' ' d.blank
  put_prefix d n pre_fix
  ft_putnchar b'0' (d.precison -ℤ n)
  ft_putstr d.ori

unfoldable pub go_right_oux : Data → List ℕ → Print (Unit {0})
go_right_oux d pre_fix = do
  zeros ← has d.flags b'0'
  if zeros && d.no_pre
      then (do
        n ← size_of d.ori
        p ← size_of pre_fix
        hash ← has d.flags b'#'
        if hash
            then (do put_prefix d n pre_fix; ft_putnchar b'0' (d.len -ℤ p -ℤ n); ft_putstr d.ori)
            else do ft_putnchar b'0' (d.len -ℤ n); ft_putstr d.ori)
      else for_right_oux d pre_fix

unfoldable pub put_nopre : Data → Print (Unit {0})
put_nopre d = do
  left ← has d.flags b'-'
  if left
      then (do ft_putnchar b'0' d.precison; ft_putnchar b' ' (d.len -ℤ d.precison))
      else do ft_putnchar b' ' (d.len -ℤ d.precison); ft_putnchar b'0' d.precison

unfoldable pub put_zero_oux : Data → Print (Unit {0})
put_zero_oux d = if not d.no_pre then put_nopre d else do
  zeros ← has d.flags b'0'
  if zeros then ft_putnchar b'0' d.len else do
    left ← has d.flags b'-'
    if left
        then (do ft_putchar b'0'; ft_putnchar b' ' (d.len -ℤ pos 1))
        else do ft_putnchar b' ' (d.len -ℤ pos 1); ft_putchar b'0'

-- The end of `set_print_oxu_hash`: an octal 0 with the precision 0.
unfoldable pub put_octal_zero : Data → List ℕ → Print Data
put_octal_zero d pre_fix = do
  hash ← has d.flags b'#'
  octal ← is_octal pre_fix
  if eqb_ℤ d.precison (pos 0) && hash && octal
      then (do ft_putchar b'0'; pure (record d { len = pos 1 }))
      else pure d

unfoldable pub set_print_oxu_hash : Data → List ℕ → Print Data
set_print_oxu_hash d pre_fix = do
  d' ← set_oxu d pre_fix
  c ← first_of d'.ori
  if eqb_ℤ d'.len (pos 0) && c == b'0' then put_octal_zero d' pre_fix else do
    if c == b'0' then put_zero_oux d' else do
      left ← has d'.flags b'-'
      if left then for_print_oux d' pre_fix else go_right_oux d' pre_fix
    pure d'
