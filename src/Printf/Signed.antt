-- ===== src/Printf/Signed.antt =====
-- set_print_d.c, and `put_zero_d` of con_d.c: how a signed number is printed whose digits, with a '-' if
-- it is negative, are in `ori`.
use nm.Common.{ℕ, true, not, ◌&&◌, ◌||◌, drop, ◌==◌, if◌then◌else◌}
use nm.Common.Int.{pos, negsuc, ◌+ℤ◌, ◌-ℤ◌, ltb_ℤ, eqb_ℤ}
use nm.Printf.Monad.{Print, pure, ◌>>=◌, ◌>>◌}
use nm.Printf.Put.{max_2, max_3, ft_putchar, ft_putstr, ft_putnchar}
use nm.Printf.Data.{Data, has}
use nm.Printf.Unsigned.{size_of, first_of}

-- A sign takes one place: of the blanks, or one more.
unfoldable pub make_room : Data → Data
make_room d =
    if eqb_ℤ d.len d.precison
    then record d { len = d.len +ℤ pos 1 }
    else record d { blank = d.blank -ℤ pos 1 }

unfoldable pub set_d_len : Data → Print Data
set_d_len d = do
  c ← first_of d.ori
  n ← size_of d.ori
  if c == b'-'
      then pure (
          make_room (record d {
            len = max_2 d.width d.precison;
            blank = max_2 d.width d.precison -ℤ d.precison;
          }))
      else do
        space ← has d.flags b' '
        plus ← has d.flags b'+'
        let d' = record d {
          len = max_3 d.width n d.precison;
          blank = max_3 d.width n d.precison -ℤ d.precison;
        }
        pure (if space || plus then make_room d' else d')

unfoldable pub set_d : Data → Print Data
set_d d = do
  c ← first_of d.ori
  n ← size_of d.ori
  let d' = record d { no_pre = if eqb_ℤ d.precison (negsuc 0) then true else d.no_pre }
  if c == b'0' && eqb_ℤ d'.precison (pos 0) then pure (record d' { len = d'.width }) else do
    if not (c == b'-') && ltb_ℤ d'.precison n
        then set_d_len (record d' { precison = n })
        else if c == b'-' && ltb_ℤ d'.precison (n -ℤ pos 1)
        then set_d_len (record d' { precison = n -ℤ pos 1 })
        else set_d_len d'

unfoldable pub plus_blank : Data → Print (Unit {0})
plus_blank d = do
  c ← first_of d.ori
  if c == b'-' then ft_putchar b'-' else do
    plus ← has d.flags b'+'
    if plus
        then ft_putchar b'+'
        else do space ← has d.flags b' '; if space then ft_putchar b' ' else pure tt

-- The digits without the sign.
unfoldable pub put_digits : Data → Print (Unit {0})
put_digits d = do c ← first_of d.ori; ft_putstr (if c == b'-' then drop 1 d.ori else d.ori)

-- The zeros that the precision asks for.
unfoldable pub put_zeros : Data → Print (Unit {0})
put_zeros d = do
  c ← first_of d.ori
  n ← size_of d.ori
  ft_putnchar b'0' (if c == b'-' then d.precison -ℤ n +ℤ pos 1 else d.precison -ℤ n)

unfoldable pub go_right : Data → Print (Unit {0})
go_right d = do
  zeros ← has d.flags b'0'
  if zeros && d.no_pre
      then (do plus_blank d; ft_putnchar b'0' d.blank; put_digits d)
      else do ft_putnchar b' ' d.blank; plus_blank d; put_zeros d; put_digits d

-- The tests of '+' and ' ' in `zero_noze` and in `put_zero_d`, which differ in the char `fill`.
unfoldable pub put_filled : (fill : ℕ) → Data → Print (Unit {0})
put_filled fill d = do
  plus ← has d.flags b'+'
  space ← has d.flags b' '
  if not plus && not space
      then ft_putnchar fill d.len
      else do ft_putchar (if plus then b'+' else b' '); ft_putnchar fill (d.len -ℤ pos 1)

unfoldable pub zero_noze : Data → Print (Unit {0})
zero_noze d = put_filled b' ' d

unfoldable pub put_zero_d : Data → Print (Unit {0})
put_zero_d d = do
  zeros ← has d.flags b'0'
  if zeros && d.no_pre then put_filled b'0' d else zero_noze d

unfoldable pub set_print_d : Data → Print Data
set_print_d d = do
  d' ← set_d d
  c ← first_of d'.ori
  if not (eqb_ℤ d'.len (pos 0)) && not (c == b'0' && eqb_ℤ d'.precison (pos 0))
      then (do
        left ← has d'.flags b'-'
        if left
            then (do plus_blank d'; put_zeros d'; put_digits d'; ft_putnchar b' ' d'.blank)
            else go_right d')
      else if not (eqb_ℤ d'.len (pos 0)) && c == b'0'
      then put_zero_d d'
      else pure tt
  pure d'
