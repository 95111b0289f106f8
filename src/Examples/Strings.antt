-- ===== src/Examples/Strings.antt =====
-- ft_strcmp at concrete strings.
use nm.Common.{ℕ, ◌≡◌, refl, true, some, List, [], ◌∷◌}
use nm.Libft.Strings.{ft_strnequ}
use nm.Libft.Strings.Laws.{c_string, Compared, ft_strcmp-Compared}
use nm.Libft.Strings.Prefix.{agree, ft_strnequ-agree}

-- _b and _a, each before its NUL
abbrev b_name : List ℕ
b_name = b'_' ∷ b'b' ∷ 0 ∷ []

abbrev a_name : List ℕ
a_name = b'_' ∷ b'a' ∷ 0 ∷ 7 ∷ []

ft_strcmp-Compared_example : Compared b_name a_name (b'_' ∷ b'b' ∷ []) (b'_' ∷ b'a' ∷ [])
unfolding c_string
ft_strcmp-Compared_example =
    ft_strcmp-Compared b_name a_name (b'_' ∷ b'b' ∷ []) (b'_' ∷ b'a' ∷ []) refl refl

b_string : c_string b_name ≡ some (b'_' ∷ b'b' ∷ [])
unfolding c_string
b_string = refl

a_string : c_string a_name ≡ some (b'_' ∷ b'a' ∷ [])
unfolding c_string
a_string = refl

ft_strnequ-agree_example : ft_strnequ b_name a_name 1 ≡ some true
unfolding agree
ft_strnequ-agree_example =
    ft_strnequ-agree 1 b_name a_name (b'_' ∷ b'b' ∷ []) (b'_' ∷ b'a' ∷ []) b_string a_string
