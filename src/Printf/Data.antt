-- ===== src/Printf/Data.antt =====
-- t_data and t_cast of ft_printf.h, and set_castflag.c: the flags, the width and the precision of a
-- directive. `f` is the format from the '%' on, and `size` the place of the conversion's letter.
use nm.Common.{
  ℕ, zero, suc, ◌+◌, Bool, true, false, not, ◌&&◌, Option, none, some, List, [], ◌∷◌, get_elem?,
  set, drop, replicate, ltb, leb, ◌==◌, if◌then◌else◌,
}
use nm.Common.Int.{ℤ, pos, negsuc, ◌-ℤ◌, is_neg, signed32}
use nm.Libft.Strings.{ft_strchr}
use nm.Libft.Numbers.{ft_atoi}
use nm.Printf.Monad.{Print, pure, attempt, next_word, ◌>>=◌}
use nm.Printf.Put.{ft_strnchr, ft_strnchr_double, nb_digit}

pub data Cast : Type 0 where
  cast_none cast_hh cast_h cast_l cast_ll cast_j cast_z : Cast

-- `ori` is what can be read through the pointer, and nothing for NULL.
pub record Data : Type 0 where
  pub ori : List ℕ
  pub flags : List ℕ
  pub width : ℤ
  pub precison : ℤ
  pub no_pre : Bool
  pub len : ℤ
  pub blank : ℤ
  pub cast : Cast

unfoldable pub init : Data
init = record {
  ori = [];
  flags = replicate 10 0;
  width = pos 0;
  precison = negsuc 0;
  no_pre = false;
  len = pos 0;
  blank = pos 0;
  cast = cast_none;
}

abbrev pub is_some {ℓ} : {A : Type ℓ} → Option A → Bool
is_some none = false
is_some (some a) = true

-- The truth of `ft_strchr(s, c)` and of `ft_strnchr(s, c, size)`.
unfoldable pub has : List ℕ → ℕ → Print Bool
has s c = do at ← attempt (ft_strchr s c); pure (is_some at)

unfoldable pub has_before : List ℕ → (c size : ℕ) → Print Bool
has_before s c size = do at ← attempt (ft_strnchr s c size); pure (is_some at)

unfoldable pub set_cast : Data → List ℕ → ℕ → Print Data
set_cast d format size = do
  h ← has_before format b'h' size
  if h
      then (do
        double ← attempt (ft_strnchr_double format b'h' size)
        pure (record d { cast = if double then cast_hh else cast_h }))
      else do
        l ← has_before format b'l' size
        if l
            then (do
              double ← attempt (ft_strnchr_double format b'l' size)
              pure (record d { cast = if double then cast_ll else cast_l }))
            else do
              j ← has_before format b'j' size
              if j then pure (record d { cast = cast_j }) else do
                z ← has_before format b'z' size
                pure (record d { cast = if z then cast_z else cast_none })

-- `data->flags[j++] = c`, in an array of 10 chars
unfoldable pub put_flag : Data → (j c : ℕ) → Print (Data × ℕ)
put_flag d j c args = elim (get_elem? d.flags j) [
  | none ↦ none
  | some old ↦ pure (record d { flags = set d.flags j c }, j + 1) args
]

-- `if (!(ft_strchr(data->flags, c))) data->flags[j++] = c;`
unfoldable pub add_flag : Data → (j c : ℕ) → Print (Data × ℕ)
add_flag d j c = do there ← has d.flags c; if there then pure (d, j) else put_flag d j c

abbrev pub flag_chars : List ℕ
flag_chars = b'#' ∷ b'-' ∷ b'+' ∷ b' ' ∷ 0 ∷ []

-- The results are the new `data`, `i` and `j`. Behind a precision one char more is passed over.
unfoldable pub set_zero_flag : Data → (i j : ℕ) → List ℕ → Print (Data × ℕ × ℕ)
set_zero_flag d i j f = do
  c ← attempt (get_elem? f i)
  if c == b'.'
      then (do
        precison ← attempt (ft_atoi (drop (i + 1) f))
        n ← attempt (nb_digit (drop (i + 1) f))
        pure (record d { precison = precison }, i + n + 1 + 1, j))
      else do
        flag ← has flag_chars c
        if flag then (do (d', j') ← add_flag d j c; pure (d', i + 1, j')) else pure (d, i + 1, j)

unfoldable pub flags_star : Data → (i : ℕ) → List ℕ → Print (Data × ℕ)
flags_star d i f = do
  c ← attempt (get_elem? f i)
  if c == b'*'
      then (do
        v ← next_word 32
        pure (
          record d { width = if is_neg (signed32 v) then pos 0 -ℤ signed32 v else signed32 v },
          i + 1,
        ))
      else do
        v ← next_word 32
        pure (record d { precison = if is_neg (signed32 v) then negsuc 0 else signed32 v }, i + 2)

-- The test `f[i] == '*' || (f[i] == '.' && f[i + 1] == '*')`
unfoldable pub is_star : (c i : ℕ) → List ℕ → Print Bool
is_star c i f =
    if c == b'*'
    then pure true
    else if c == b'.'
    then (do next ← attempt (get_elem? f (i + 1)); pure (next == b'*'))
    else pure false

-- The test `!ft_strnchr(f, '.', i) && ('0' < f[i] && f[i] <= '9')`
unfoldable pub is_width : (c i : ℕ) → List ℕ → Print Bool
is_width c i f = do dot ← has_before f b'.' i; pure (not dot && ltb b'0' c && leb c b'9')

-- The loop of `set_flags`. Each round passes over a char, so that `size` rounds are enough.
unfoldable pub flags_loop : ℕ → List ℕ → (size i j : ℕ) → Data → Print Data
flags_loop zero f size i j d = pure d
flags_loop (suc left) f size i j d = if not (ltb i size && ltb j 10) then pure d else do
  c ← attempt (get_elem? f i)
  if c == b'0' then (do (d', j') ← add_flag d j c; flags_loop left f size (i + 1) j' d') else do
    width ← is_width c i f
    if width
        then (do
          w ← attempt (ft_atoi (drop i f))
          n ← attempt (nb_digit (drop i f))
          flags_loop left f size (i + n) j (record d { width = w }))
        else do
          star ← is_star c i f
          if star
              then (do (d', i') ← flags_star d i f; flags_loop left f size i' j d')
              else do (d', i', j') ← set_zero_flag d i j f; flags_loop left f size i' j' d'

unfoldable pub set_flags : List ℕ → (size : ℕ) → Print Data
set_flags f size = flags_loop size f size 1 0 init
