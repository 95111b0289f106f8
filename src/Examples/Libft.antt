-- ===== src/Examples/Libft.antt =====
-- The functions of libft on concrete inputs.
use nm.Common.{ℕ, ◌≡◌, refl, inl, false, Option, none, some, List, [], ◌∷◌, ◌++◌, arith}
use nm.Common.Int.{pos, negsuc}
use nm.Libft.Buffer.{store, written}
use nm.Libft.Buffer.Laws.{held}
use nm.Libft.Strings.{ft_strlen}
use nm.Libft.Strings.Laws.{c_string}
use nm.Libft.Strings.Holds.{nul, char}
use nm.Libft.Memory.{ft_memmove}
use nm.Libft.Memory.Move.{Moves, ft_memmove-Moves}
use nm.Libft.Copies.{copy_loop, ft_strdup}
use nm.Libft.Copies.{ft_strtrim}
use nm.Libft.Copies.Trim.{between, ft_strtrim-Trims}
use nm.Libft.Output.{ft_putnbr_fd}
use nm.Libft.Output.Number.{each, ft_putnbr_fd-signed_numeral}
use nm.Libft.Split.{ft_strsplit, ft_split}
use nm.Libft.Split.Charset.{ft_split-words}
use nm.Libft.Split.Words.{words}
use nm.Libft.Split.Filled.{entries, ft_strsplit-words}
use nm.Libft.Search.{ft_strstr}
use nm.Libft.Search.First.{is_prefix, first_at, ft_strstr-first_at}
use nm.Libft.NextLine.{Input, allocated, Node, new_node, locate}
use nm.Libft.NextLine.Reads.{at_end, delivers, Ready}
use nm.Libft.NextLine.Taken.{Answered, get_next_line-Answered}
use nm.Libft.Numbers.{ft_atoi}
use nm.Printf.Digits.Little.{little, spell}
use nm.Printf.Digits.Unmax.{decimal_numeral}
use nm.Printf.Itoa.{ft_itoa}
use nm.Printf.Itoa.Read.{ft_atoi-ft_itoa}

-- "ab.cd." with the chars moved two places up, over themselves
ft_memmove-Moves_example :
    let memory = held (b'a' ∷ b'b' ∷ b'.' ∷ b'c' ∷ b'd' ∷ b'.' ∷ []) in
    Moves memory 2 0 4 (ft_memmove memory 2 0 4)
ft_memmove-Moves_example =
    ft_memmove-Moves (held (b'a' ∷ b'b' ∷ b'.' ∷ b'c' ∷ b'd' ∷ b'.' ∷ [])) 2 0 4 (omega arith)
      (omega arith)

-- " a b", tab
abbrev to_trim : List ℕ
to_trim = b' ' ∷ b'a' ∷ b' ' ∷ b'b' ∷ 9 ∷ []

to_trim-string : c_string (to_trim ++ (0 ∷ [])) ≡ some to_trim
unfolding c_string
to_trim-string = refl

ft_strtrim-Trims_example :
    ft_strtrim (to_trim ++ (0 ∷ [])) ≡ some (held (b'a' ∷ b' ' ∷ b'b' ∷ []) ++ (some 0 ∷ []))
ft_strtrim-Trims_example =
    ft_strtrim-Trims (to_trim ++ (0 ∷ [])) to_trim (b'a' ∷ b' ' ∷ b'b' ∷ []) to_trim-string
      (λ e. absurd (ground arith)) (omega arith)
      (between (b' ' ∷ []) (9 ∷ []) b'a' b'b' (b' ' ∷ b'b' ∷ []) (b'a' ∷ b' ' ∷ []) (refl, tt) refl
        refl refl (refl, tt))

-- -42 on the descriptor 2
ft_putnbr_fd-signed_numeral_example :
    ft_putnbr_fd (negsuc 41) (pos 2) ≡ some (each (pos 2) (b'-' ∷ b'4' ∷ b'2' ∷ []))
unfolding decimal_numeral spell little
ft_putnbr_fd-signed_numeral_example = ft_putnbr_fd-signed_numeral (negsuc 41) (pos 2) (omega arith)

abbrev split_text : List ℕ
split_text = b'/' ∷ b'a' ∷ b'b' ∷ b'/' ∷ b'/' ∷ b'c' ∷ []

split_string : c_string (split_text ++ (0 ∷ [])) ≡ some split_text
unfolding c_string
split_string = refl

ft_strsplit-words_example :
    ft_strsplit (split_text ++ (0 ∷ [])) b'/'
    ≡ some (entries ((b'a' ∷ b'b' ∷ []) ∷ (b'c' ∷ []) ∷ []) ++ (some none ∷ []))
unfolding words
ft_strsplit-words_example =
    ft_strsplit-words (split_text ++ (0 ∷ [])) split_text b'/' split_string (omega arith)

abbrev charset : List ℕ
charset = b'/' ∷ b'b' ∷ []

charset_string : c_string (charset ++ (0 ∷ [])) ≡ some charset
unfolding c_string
charset_string = refl

ft_split-words_example :
    ft_split (split_text ++ (0 ∷ [])) (charset ++ (0 ∷ []))
    ≡ some (entries ((b'a' ∷ []) ∷ (b'c' ∷ []) ∷ []) ++ (some none ∷ []))
unfolding words
ft_split-words_example =
    ft_split-words (split_text ++ (0 ∷ [])) (charset ++ (0 ∷ [])) split_text charset split_string
      charset_string (omega arith)

-- The second place of "/c" in the text
abbrev part : List ℕ
part = b'/' ∷ b'c' ∷ []

part_string : c_string (part ++ (0 ∷ [])) ≡ some part
unfolding c_string
part_string = refl

ft_strstr-first_at_example : ft_strstr (split_text ++ (0 ∷ [])) (part ++ (0 ∷ [])) ≡ some (some 4)
unfolding first_at is_prefix
ft_strstr-first_at_example =
    ft_strstr-first_at (split_text ++ (0 ∷ [])) (part ++ (0 ∷ [])) split_text part split_string
      part_string

ft_atoi-ft_itoa_example :
    (s : List ℕ) × (ft_itoa (negsuc 41) ≡ some s) × (ft_atoi s ≡ some (negsuc 41))
ft_atoi-ft_itoa_example = ft_atoi-ft_itoa (negsuc 41) (omega arith)

-- A descriptor whose parts are given out one by one.
abbrev next_part : List (List ℕ) → Option (List ℕ) × List (List ℕ)
next_part [] = (some [], [])
next_part (c ∷ cs) = (some c, cs)

abbrev parts : Input
parts = record {
  State = List (List ℕ);
  read = λ st fd count. next_part st;
  refuses = λ st fd. false;
}

-- "ab", newline, "c" in two parts
abbrev two_parts : List (List ℕ)
two_parts = (b'a' ∷ []) ∷ (b'b' ∷ 10 ∷ b'c' ∷ []) ∷ []

abbrev text : List ℕ
text = b'a' ∷ b'b' ∷ 10 ∷ b'c' ∷ []

abbrev fresh_node : Node
fresh_node = record { fd = 3; stock = allocated (0 ∷ []) }

no_nodes : locate 3 [] ≡ some ([], fresh_node, [])
unfolding locate new_node ft_strdup ft_strlen copy_loop store written
no_nodes = refl

fresh_Ready : Ready parts 3 (allocated (0 ∷ [])) two_parts text
fresh_Ready = record {
  stocked = [];
  to_read = text;
  holds = nul [] refl;
  gives =
      delivers b'a' [] refl (omega arith) (char (omega arith) (nul [] refl))
        (delivers b'b' (10 ∷ b'c' ∷ []) refl (omega arith)
          (char (omega arith) (char (omega arith) (char (omega arith) (nul [] refl)))) (at_end refl)
          refl)
        refl;
  same = refl;
  freed = inl refl;
}

get_next_line-Answered_example : Answered parts 3 8 [] two_parts [] fresh_node [] text
get_next_line-Answered_example =
    get_next_line-Answered parts 3 8 [] two_parts [] fresh_node [] text refl no_nodes fresh_Ready
      (omega arith)
