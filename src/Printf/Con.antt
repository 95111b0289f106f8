-- ===== src/Printf/Con.antt =====
-- con_x.c, con_o.c, con_u.c, con_d.c, con_s.c and con_cp.c: one function for each conversion. `format`
-- is the format from the '%' on, and `size` the place of the conversion's letter.
use nm.Common.{ℕ, ◌%◌, Bool, true, false, Option, none, some, List, [], ◌∷◌, ◌==◌, if◌then◌else◌}
use nm.Common.Int.{ℤ, pos, negsuc, ◌-ℤ◌, ltb_ℤ, eqb_ℤ, signed_bits}
use nm.Printf.Monad.{Print, pure, attempt, next_word, next_text, next_wide, ◌>>=◌, ◌>>◌}
use nm.Printf.Digits.{ft_itoa_unmax, itoa_base, itoa_hex}
use nm.Printf.Itoa.{ft_itoa, ft_itoa_short, ft_itoa_max, ft_itoa_signchar}
use nm.Printf.Put.{
  max_2, ft_putchar, ft_putstr, ft_putnstr, ft_putnchar, ft_putwchar, ft_putnwstr, ft_wstrlen,
}
use nm.Printf.Data.{
  Cast, cast_none, cast_hh, cast_h, cast_l, cast_ll, cast_j, cast_z, Data, has, set_cast, set_flags,
}
use nm.Printf.Unsigned.{size_of, first_of, set_print_oxu_hash}
use nm.Printf.Signed.{set_print_d}

-- The bits of an unsigned argument: those of `unsigned int` with 'h', 'hh' and no length.
abbrev pub unsigned_bits : Cast → ℕ
unsigned_bits cast_none = 32
unsigned_bits cast_hh = 32
unsigned_bits cast_h = 32
unsigned_bits cast_l = 64
unsigned_bits cast_ll = 64
unsigned_bits cast_j = 64
unsigned_bits cast_z = 64

-- `set_flags` and `set_cast`
unfoldable pub parse : List ℕ → ℕ → Print Data
parse format size = do d ← set_flags format size; set_cast d format size

unfoldable pub cast_nu_x : Data → List ℕ → ℕ → Print Data
cast_nu_x d format size = do
  d' ← set_cast d format size
  v ← next_word (unsigned_bits d'.cast)
  ori ← attempt (itoa_hex v b'x')
  pure (record d' { ori = ori })

unfoldable pub cast_nu_bigx : Data → List ℕ → ℕ → Print Data
cast_nu_bigx d format size = do
  d' ← set_cast d format size
  v ← next_word (unsigned_bits d'.cast)
  ori ← attempt (itoa_hex v b'X')
  pure (record d' { ori = ori })

unfoldable pub con_x : List ℕ → ℕ → Print Data
con_x format size = do
  d ← set_flags format size
  d' ← cast_nu_x d format size
  set_print_oxu_hash d' (b'0' ∷ b'x' ∷ 0 ∷ [])

unfoldable pub con_bigx : List ℕ → ℕ → Print Data
con_bigx format size = do
  d ← set_flags format size
  d' ← cast_nu_bigx d format size
  set_print_oxu_hash d' (b'0' ∷ b'X' ∷ 0 ∷ [])

unfoldable pub con_o : List ℕ → ℕ → Print Data
con_o format size = do
  d ← parse format size
  v ← next_word (unsigned_bits d.cast)
  ori ← attempt (itoa_base v 10 8)
  set_print_oxu_hash (record d { ori = ori }) (b'0' ∷ 0 ∷ [])

unfoldable pub con_b : List ℕ → ℕ → Print Data
con_b format size = do
  d ← parse format size
  v ← next_word (unsigned_bits d.cast)
  ori ← attempt (itoa_base v 10 2)
  set_print_oxu_hash (record d { ori = ori }) (b'0' ∷ 0 ∷ [])

unfoldable pub con_bigo : List ℕ → ℕ → Print Data
con_bigo format size = do
  d ← parse format size
  v ← next_word 64
  ori ← attempt (itoa_base v 10 8)
  set_print_oxu_hash (record d { ori = ori }) (b'0' ∷ 0 ∷ [])

unfoldable pub cast_nu_u : Data → List ℕ → ℕ → Print Data
cast_nu_u d format size = do
  d' ← set_cast d format size
  v ← next_word (unsigned_bits d'.cast)
  ori ← attempt (ft_itoa_unmax v)
  pure (record d' { ori = ori })

unfoldable pub con_u : List ℕ → ℕ → Print Data
con_u format size = do
  d ← set_flags format size
  d' ← cast_nu_u d format size
  set_print_oxu_hash d' (0 ∷ [])

-- An unsigned long is passed for an intmax_t.
unfoldable pub con_bigu : List ℕ → ℕ → Print Data
con_bigu format size = do
  d ← parse format size
  v ← next_word 64
  ori ← attempt (ft_itoa_max (signed_bits 64 v))
  set_print_oxu_hash (record d { ori = ori }) (0 ∷ [])

-- The digits of a signed argument; a size_t is passed for an intmax_t too.
unfoldable pub signed_digits : Cast → Print (List ℕ)
signed_digits cast_none = do v ← next_word 32; attempt (ft_itoa (signed_bits 32 v))
signed_digits cast_hh = do v ← next_word 32; attempt (ft_itoa_signchar (signed_bits 8 (v % 256)))
signed_digits cast_h = do v ← next_word 32; attempt (ft_itoa_short (signed_bits 16 (v % 65536)))
signed_digits cast_l = do v ← next_word 64; attempt (ft_itoa_max (signed_bits 64 v))
signed_digits cast_ll = do v ← next_word 64; attempt (ft_itoa_max (signed_bits 64 v))
signed_digits cast_j = do v ← next_word 64; attempt (ft_itoa_max (signed_bits 64 v))
signed_digits cast_z = do v ← next_word 64; attempt (ft_itoa_max (signed_bits 64 v))

unfoldable pub cast_nu_d : Data → List ℕ → ℕ → Print Data
cast_nu_d d format size = do
  d' ← set_cast d format size
  ori ← signed_digits d'.cast
  pure (record d' { ori = ori })

unfoldable pub con_d : List ℕ → ℕ → Print Data
con_d format size = do d ← set_flags format size; d' ← cast_nu_d d format size; set_print_d d'

unfoldable pub con_bigd : List ℕ → ℕ → Print Data
con_bigd format size = do
  d ← parse format size
  v ← next_word 64
  ori ← attempt (ft_itoa_max (signed_bits 64 v))
  set_print_d (record d { ori = ori })

-- With no precision, it is the length. What is shown is the least of it and the length.
unfoldable pub full_precison : Data → (n : ℤ) → ℤ
full_precison d n = if eqb_ℤ d.precison (negsuc 0) then n else d.precison

unfoldable pub shown_length : Data → (n : ℤ) → ℤ
shown_length d n = if ltb_ℤ n (full_precison d n) then n else full_precison d n

unfoldable pub set_print_s : Data → Print Data
set_print_s d = do
  n ← size_of d.ori
  let nbr_l = shown_length d n
  let len = max_2 d.width nbr_l
  left ← has d.flags b'-'
  if left
      then (do ft_putnstr d.ori nbr_l; ft_putnchar b' ' (len -ℤ nbr_l))
      else do ft_putnchar b' ' (len -ℤ nbr_l); ft_putnstr d.ori nbr_l
  pure (record d { len = len; precison = full_precison d n })

unfoldable pub set_print_bigs : Data → Option (List ℕ) → Print Data
set_print_bigs d we = do
  count ← attempt (ft_wstrlen we)
  let nbr_l = shown_length d (pos count)
  let len = max_2 d.width nbr_l
  left ← has d.flags b'-'
  if left
      then (do ft_putnwstr we nbr_l; ft_putnchar b' ' (len -ℤ nbr_l))
      else do ft_putnchar b' ' (len -ℤ nbr_l); ft_putnwstr we nbr_l
  pure (record d { len = len; precison = full_precison d (pos count) })

abbrev pub null_text : List ℕ
null_text = b'(' ∷ b'n' ∷ b'u' ∷ b'l' ∷ b'l' ∷ b')' ∷ 0 ∷ []

abbrev pub is_l : Cast → Bool
is_l cast_l = true
is_l cast_none = false
is_l cast_hh = false
is_l cast_h = false
is_l cast_ll = false
is_l cast_j = false
is_l cast_z = false

abbrev pub text_or_null : Option (List ℕ) → List ℕ
text_or_null none = null_text
text_or_null (some s) = s

unfoldable pub con_s : List ℕ → ℕ → Print Data
con_s format size = do
  d ← parse format size
  if is_l d.cast
      then (do we ← next_wide; set_print_bigs d we)
      else do s ← next_text; set_print_s (record d { ori = text_or_null s })

unfoldable pub con_bigs : List ℕ → ℕ → Print Data
con_bigs format size = do we ← next_wide; d ← parse format size; set_print_bigs d we

unfoldable pub put_c : Data → Print (Unit {0})
put_c d = do v ← next_word 32; if is_l d.cast then ft_putwchar v else ft_putchar (v % 256)

unfoldable pub set_print_c : Data → Print Data
set_print_c d = do
  let len = max_2 (pos 1) d.width
  left ← has d.flags b'-'
  if left then (do put_c d; ft_putnchar b' ' (len -ℤ pos 1)) else do
    zeros ← has d.flags b'0'
    ft_putnchar (if zeros then b'0' else b' ') (len -ℤ pos 1)
    put_c d
  pure (record d { len = len })

unfoldable pub con_c : List ℕ → ℕ → Print Data
con_c format size = do d ← parse format size; set_print_c d

unfoldable pub con_bigc : List ℕ → ℕ → Print Data
con_bigc format size = do d ← parse format size; set_print_c (record d { cast = cast_l })

-- `(data->flags)[i] = '#'` at the first NUL
unfoldable pub add_hash_p : List ℕ → Option (List ℕ)
add_hash_p [] = none
add_hash_p (c ∷ flags) =
    if c == 0
    then some (b'#' ∷ flags)
    else (elim (add_hash_p flags) [ none ↦ none | some rest ↦ some (c ∷ rest) ])

unfoldable pub put_null_pointer : Data → Print Data
put_null_pointer d = do
  let len = max_2 d.width (pos 3)
  left ← has d.flags b'-'
  if left
      then (do ft_putstr (b'0' ∷ b'x' ∷ b'0' ∷ 0 ∷ []); ft_putnchar b' ' (len -ℤ pos 3))
      else do ft_putnchar b' ' (len -ℤ pos 3); ft_putstr (b'0' ∷ b'x' ∷ b'0' ∷ 0 ∷ [])
  pure (record d { len = len })

unfoldable pub con_p : List ℕ → ℕ → Print Data
con_p format size = do
  d ← parse format size
  v ← next_word 64
  ori ← attempt (itoa_hex v b'x')
  flags ← attempt (add_hash_p d.flags)
  c ← first_of ori
  if c == b'0'
      then put_null_pointer (record d { ori = ori; flags = flags })
      else set_print_oxu_hash (record d { ori = ori; flags = flags }) (b'0' ∷ b'x' ∷ 0 ∷ [])

unfoldable pub con_per : List ℕ → ℕ → Print Data
con_per format size = do
  d ← parse format size
  let len = max_2 (pos 1) d.width
  left ← has d.flags b'-'
  if left then (do ft_putchar b'%'; ft_putnchar b' ' (len -ℤ pos 1)) else do
    zeros ← has d.flags b'0'
    ft_putnchar (if zeros then b'0' else b' ') (len -ℤ pos 1)
    ft_putchar b'%'
  pure (record d { ori = b'%' ∷ 0 ∷ []; len = len })
