-- ===== src/FtNm/Lines/Recorded.antt =====
-- The lines of print_nm_list.c beside those of the recorded outputs of nm (nm_test/tests/nm-tests/
-- scripts_etc/diff4), where the column of the value is blank for an undefined symbol.
use mathlib.Core.List.{append_cancel_left, append_cancel_right}
use nm.Common.{
  ℕ, ◌/◌, ◌≤◌, ◌≡◌, ◌≢◌, refl, sym, ap, Bool, true, false, ◌&&◌, ◌||◌, ◌↔◌, List, [], ◌∷◌, ◌++◌,
  map, length, length-append, replicate, length-replicate, All, arith, Bool-cases, inl, inr, some,
  ◌==◌, if◌then◌else◌,
}
use nm.Machine.{Machine}
use nm.Libft.Strings.Laws.{c_string}
use nm.Printf.Digits.Alphabet.{hex_letter}
use nm.FtOtool.Perform.Lines.{hex_pairs}
use nm.FtOtool.Dump.{success}
use nm.System.Runs.{Runs}
use nm.FtNm.Flags.Spec.{contains, buffer}
use nm.FtNm.Lines.{print_nm_list}
use nm.FtNm.Lines.Printed.{Entry, IsInFile, line, lines, is_shown, print_nm_list-lines}

-- The column of the value: blanks for the letter U.
unfoldable pub recorded_value : Entry → List ℕ
recorded_value e =
    if e.symbol.type == b'U' then replicate (length (hex_pairs e.value)) b' ' else hex_pairs e.value

unfoldable pub recorded_line : (seen : List ℕ) → Entry → List ℕ
recorded_line seen e =
    (if contains b'u' seen || contains b'j' seen
      then []
      else recorded_value e ++ (b' ' ∷ e.symbol.type ∷ b' ' ∷ []))
    ++ (e.name ++ (10 ∷ []))

unfoldable pub recorded_lines : (seen : List ℕ) → List Entry → List ℕ
recorded_lines seen [] = []
recorded_lines seen (e ∷ es) =
    (if is_shown seen e then recorded_line seen e else []) ++ recorded_lines seen es

-- No line with the letter U is printed.
abbrev pub ShowsNoU : (seen : List ℕ) → List Entry → Type 0
ShowsNoU seen es = All (λ e. (is_shown seen e && (e.symbol.type == b'U')) ≡ false) es

-- Lists that start with as many elements agree in both parts.
parts_agree : (a b c d : List ℕ) → length a ≡ length b → a ++ c ≡ b ++ d → (a ≡ b) × (c ≡ d)
parts_agree [] [] c d e h = (refl, h)
parts_agree [] (y ∷ b) c d e h = absurd (omega arith)
parts_agree (x ∷ a) [] c d e h = absurd (omega arith)
parts_agree (x ∷ a) (y ∷ b) c d e h =
    let rest = parts_agree a b c d (omega arith) (cc) in
    let head : x ≡ y = cc in (λ i. head i ∷ rest.0 i, rest.1)

length-recorded_value : (e : Entry) → length (hex_pairs e.value) ≡ length (recorded_value e)
unfolding recorded_value
length-recorded_value e = elim (Bool-cases (e.symbol.type == b'U')) [
  | inl u ↦ rw u (sym (length-replicate (length (hex_pairs e.value)) b' '))
  | inr n ↦ rw n refl
]

-- A digit is no blank.
value_ne_blank :
    (value : List ℕ)
    → length value ≢ 0
    → hex_pairs value ≢ replicate (length (hex_pairs value)) b' '
value_ne_blank [] some_bytes h = absurd (some_bytes refl)
value_ne_blank (b ∷ bs) some_bytes h =
    let blank : hex_letter (b / 16) ≡ b' ' = cc in absurd (ground arith)

module _ (seen : List ℕ) (u : contains b'u' seen ≡ false) (j : contains b'j' seen ≡ false) where
  -- What a symbol adds to the lines, and to the recorded ones.
  length-line : (e : Entry) → length (line seen e) ≡ length (recorded_line seen e)
  unfolding line recorded_line
  length-line e =
      rw (u, j)
        (omega (
          arith,
          length-recorded_value e,
          length-append (hex_pairs e.value ++ (b' ' ∷ e.symbol.type ∷ b' ' ∷ []))
              (e.name ++ (10 ∷ [])),
          length-append (recorded_value e ++ (b' ' ∷ e.symbol.type ∷ b' ' ∷ []))
              (e.name ++ (10 ∷ [])),
          length-append (hex_pairs e.value) (b' ' ∷ e.symbol.type ∷ b' ' ∷ []),
          length-append (recorded_value e) (b' ' ∷ e.symbol.type ∷ b' ' ∷ []),
        ))

  line-recorded_value :
      (e : Entry) → line seen e ≡ recorded_line seen e → hex_pairs e.value ≡ recorded_value e
  unfolding line recorded_line
  line-recorded_value e h =
      let whole = rw (u, j) at h in
      (parts_agree (hex_pairs e.value) (recorded_value e) (b' ' ∷ e.symbol.type ∷ b' ' ∷ [])
        (b' ' ∷ e.symbol.type ∷ b' ' ∷ []) (length-recorded_value e)
        (append_cancel_right _ _ (e.name ++ (10 ∷ [])) whole)).0

  line-recorded_line :
      (e : Entry) → (e.symbol.type == b'U') ≡ false → line seen e ≡ recorded_line seen e
  unfolding line recorded_line recorded_value
  line-recorded_line e n = rw n refl

  shown_alike :
      (e : Entry) (shown : Bool)
      → length e.value ≢ 0
      → (if shown then line seen e else []) ≡ (if shown then recorded_line seen e else [])
      → (shown && (e.symbol.type == b'U')) ≡ false
  unfolding recorded_value
  shown_alike e false some_bytes h = refl
  shown_alike e true some_bytes h = elim (Bool-cases (e.symbol.type == b'U')) [
    | inl is_u ↦
        let blank = rw is_u at (line-recorded_value e h) in
        absurd (value_ne_blank e.value some_bytes blank)
    | inr n ↦ n
  ]

  length-shown :
      (e : Entry) (shown : Bool)
      → length (if shown then line seen e else [])
        ≡ length (if shown then recorded_line seen e else [])
  length-shown e true = length-line e
  length-shown e false = refl

  recorded_only :
      (es : List Entry)
      → All (λ e. length e.value ≢ 0) es
      → lines seen es ≡ recorded_lines seen es
      → ShowsNoU seen es
  unfolding lines recorded_lines
  recorded_only [] some_bytes h = tt
  recorded_only (e ∷ es) some_bytes h =
      let both =
        parts_agree (if is_shown seen e then line seen e else [])
          (if is_shown seen e then recorded_line seen e else []) (lines seen es)
          (recorded_lines seen es) (length-shown e (is_shown seen e)) h in
      (shown_alike e (is_shown seen e) some_bytes.0 both.0, recorded_only es some_bytes.1 both.1)

  unshown_alike :
      (e : Entry) (shown : Bool)
      → (shown && (e.symbol.type == b'U')) ≡ false
      → (if shown then line seen e else []) ≡ (if shown then recorded_line seen e else [])
  unshown_alike e true n = line-recorded_line e n
  unshown_alike e false n = refl

  recorded_then : (es : List Entry) → ShowsNoU seen es → lines seen es ≡ recorded_lines seen es
  unfolding lines recorded_lines
  recorded_then [] h = refl
  recorded_then (e ∷ es) h =
      let first = unshown_alike e (is_shown seen e) h.0 in
      let others = recorded_then es h.1 in λ i. first i ++ others i

  some_bytes :
      (m : Machine) (es : List Entry) → All (IsInFile m) es → All (λ e. length e.value ≢ 0) es
  some_bytes m [] h = tt
  some_bytes m (e ∷ es) h = (bytes e.symbol.is_64 e.value h.0.size, some_bytes m es h.1)
    where
      bytes :
          (is_64 : Bool) (value : List ℕ)
          → length value ≡ (if is_64 then 8 else 4)
          → length value ≢ 0
      bytes true value size = omega arith
      bytes false value size = omega arith

  -- With the letters of the options in the buffer, at most nine, no NUL and neither u nor j, and
  -- values and names of at least one symbol in the file, `print_nm_list` does not fault; what it prints
  -- is the listing with blanks in place of the value of each symbol of the letter U, as the recorded
  -- outputs of nm have it, exactly where no line with the letter U is printed.
  pub print_nm_list-ShowsNoU :
      (z : contains 0 seen ≡ false)
      → length seen ≤ 9
      → (m : Machine) (e : Entry) (es : List Entry) (x name : List ℕ) (mu : Bool)
      → All (IsInFile m) (e ∷ es)
      → c_string x ≡ some name
      → (out : List ℕ) × Runs
          (print_nm_list (map (λ e. e.symbol) (e ∷ es)) x mu (buffer seen).flags)
          m
          success
          out
          m
        × ((out ≡ (if mu then name ++ (b':' ∷ 10 ∷ []) else []) ++ recorded_lines seen (e ∷ es))
            ↔ ShowsNoU seen (e ∷ es))
  print_nm_list-ShowsNoU z fits m e es x name mu h named =
      let title = if mu then name ++ (b':' ∷ 10 ∷ []) else [] in
      (
        title ++ lines seen (e ∷ es),
        print_nm_list-lines seen z fits m e es x name mu h named,
        (
          λ same.
              recorded_only (e ∷ es) (some_bytes m (e ∷ es) h) (append_cancel_left title _ _ same),
          λ none_shown. ap (λ (l : List ℕ). title ++ l) (recorded_then (e ∷ es) none_shown),
        ),
      )
