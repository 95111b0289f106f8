-- ===== src/FtNm/Sort.antt =====
-- sort_list_by_name.c: symbols by name, then by value. The nodes stay where they are and their
-- contents change places, so a list of t_nm is a list of records here too.
pub mod Loops
pub mod Order
pub mod Laws
use mathlib.Core.Option
use nm.Common.{
  ℕ, zero, suc, ◌+◌, ◌-◌, ◌%◌, ◌^◌, Bool, true, false, Option, none, some, List, [], ◌∷◌,
  if◌then◌else◌, length,
}
use nm.Common.Int.{ℤ, is_pos, is_neg, is_zero, signed32}
use nm.Machine.{Ptr, Proc, ◌>>=◌, pure, look, string_at, read_word}
use nm.Libft.Strings.{ft_strcmp}
use nm.FtNm.NotFat.{Symbol}

-- The difference of two unsigned words, returned as an int: its low 32 bits.
unfoldable pub compare_words : ℕ → ℕ → ℤ
compare_words a b = signed32 ((a + 2 ^ 64 - b) % 2 ^ 64)

unfoldable pub compare_add : Symbol → Symbol → Proc ℤ
compare_add cp jump = do
  a ← read_word cp.is_64 cp.add
  b ← read_word cp.is_64 jump.add
  pure (compare_words a b)

unfoldable pub compare_name : Symbol → Symbol → Proc ℤ
compare_name cp jump = look (λ m. ft_strcmp (string_at m cp.name) (string_at m jump.name))

-- `wrong` is `> 0` in the one comparison and `< 0` in the other.
unfoldable pub out_of_order : (wrong : ℤ → Bool) → Symbol → Symbol → Proc Bool
out_of_order wrong cp jump = do
  by_name ← compare_name cp jump
  if wrong by_name
      then pure true
      else if is_zero by_name
      then (do by_add ← compare_add cp jump; pure (wrong by_add))
      else pure false

-- `compare_exchange` and `compare_exchange_reverse`: the contents of both nodes afterwards.
abbrev pub exchange : Bool → Symbol → Symbol → Symbol × Symbol
exchange true cp jump = (jump, cp)
exchange false cp jump = (cp, jump)

unfoldable pub compare_exchange : Symbol → Symbol → Proc (Symbol × Symbol)
compare_exchange cp jump = do wrong ← out_of_order is_pos cp jump; pure (exchange wrong cp jump)

unfoldable pub compare_exchange_reverse : Symbol → Symbol → Proc (Symbol × Symbol)
compare_exchange_reverse cp jump = do
  wrong ← out_of_order is_neg cp jump
  pure (exchange wrong cp jump)

-- The inner loop: `jump` goes over the nodes behind `cp`.
unfoldable pub jump_loop : (reversed : Bool) → Symbol → List Symbol → Proc (Symbol × List Symbol)
jump_loop reversed cp [] = pure (cp, [])
jump_loop reversed cp (jump ∷ rest) = do
  (cp', jump') ← (if reversed then compare_exchange_reverse cp jump else compare_exchange cp jump)
  (cp'', rest') ← jump_loop reversed cp' rest
  pure (cp'', jump' ∷ rest')

-- The outer loop, `while (cp->next)`, with one round for each node.
unfoldable pub cp_loop : (reversed : Bool) → ℕ → List Symbol → Proc (List Symbol)
cp_loop reversed zero list = pure list
cp_loop reversed (suc left) [] = pure []
cp_loop reversed (suc left) (cp ∷ rest) = do
  (cp', rest') ← jump_loop reversed cp rest
  rest'' ← cp_loop reversed left rest'
  pure (cp' ∷ rest'')

-- `ft_strchr(flags, 'r')` is looked up once, since the flags do not change.
unfoldable pub sort_list_by_name : (reversed : Bool) → List Symbol → Proc (List Symbol)
sort_list_by_name reversed list = cp_loop reversed (length list) list
