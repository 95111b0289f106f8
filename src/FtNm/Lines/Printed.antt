-- ===== src/FtNm/Lines/Printed.antt =====
-- What `print_nm_list` prints.
use mathlib.Core.List.{append-nil}
use nm.Common.{
  ℕ, suc, ◌+◌, ◌-◌, ◌^◌, ◌≤◌, ◌<◌, ◌≡◌, ◌≢◌, refl, Bool, true, false, not, ◌&&◌, ◌||◌, some, List,
  [], ◌∷◌, ◌++◌, map, reverse, length, replicate, All, arith, Bool-cases, inl, inr, if◌then◌else◌,
}
use nm.Machine.{Machine, Ptr, string_at}
use nm.Libft.Strings.Laws.{c_string}
use nm.Printf.Monad.{word, text}
use nm.Printf.Format.{ft_printf}
use nm.Printf.Format.Text.{name_format, letter_format, ft_printf-text, ft_printf-letter}
use nm.System.{◌>>◌, pure, ask, print, output, standard_output}
use nm.System.Runs.{Runs, Runs-then, Runs-pure, Runs-attempt, Runs-working, Runs-print, Runs-same}
use nm.FtOtool.Dump.{success}
use nm.FtOtool.Perform.Lines.{hex_pairs, hexdump_address-hex_pairs}
use nm.FtNm.NotFat.{Symbol}
use nm.FtNm.Flags.Spec.{contains, buffer}
use nm.FtNm.Flags.Buffer.{ft_strchr-absent, ft_strchr-present}
use nm.FtNm.Print.Shown.{shows, can_show_list-shows}
use nm.FtNm.Lines.{flag, put_address, put_symbol, list_loop, print_nm_list}

-- A symbol with its value, as bytes from the most significant one on, and its name.
pub record Entry : Type 0 where
  pub symbol : Symbol
  pub value : List ℕ
  pub name : List ℕ

-- Both stand in the memory, where the symbol points to them.
pub record IsInFile (m : Machine) (e : Entry) : Type 0 where
  pub before : List ℕ
  pub behind : List ℕ
  pub size : length e.value ≡ (if e.symbol.is_64 then 8 else 4)
  pub held : m.bytes ≡ before ++ (reverse e.value ++ behind)
  pub place : e.symbol.add ≡ m.g_begin + length before
  pub fits : e.symbol.add + length e.value ≤ 2 ^ 64
  pub bytes : All (λ b. b < 256) e.value
  pub letter : e.symbol.type < 256
  pub named : c_string (string_at m e.symbol.name) ≡ some e.name

-- A line: the value in base 16, of an undefined symbol too, the letter and the name; with the options
-- u or j the name alone.
unfoldable pub line : (seen : List ℕ) → Entry → List ℕ
line seen e =
    (if contains b'u' seen || contains b'j' seen
      then []
      else hex_pairs e.value ++ (b' ' ∷ e.symbol.type ∷ b' ' ∷ []))
    ++ (e.name ++ (10 ∷ []))

-- The option g counts only together with u or U.
unfoldable pub is_shown : (seen : List ℕ) → Entry → Bool
is_shown seen e =
    shows (contains b'u' seen) (contains b'U' seen)
      (contains b'g' seen && (contains b'u' seen || contains b'U' seen)) e.symbol.type

-- The lines of the entries that are to be shown, in order.
unfoldable pub lines : (seen : List ℕ) → List Entry → List ℕ
lines seen [] = []
lines seen (e ∷ es) = (if is_shown seen e then line seen e else []) ++ lines seen es

module _ (seen : List ℕ) (z : contains 0 seen ≡ false) (fits : length seen ≤ 9) where
  Runs-flag :
      {S : Type 0} (c : ℕ) (s : S)
      → c ≢ 0
      → Runs (flag (buffer seen).flags c) s (contains c seen) [] s
  Runs-flag c s nz = elim (Bool-cases (contains c seen)) [
    | inl here ↦
        let (i, e) = ft_strchr-present c seen (replicate (10 - length seen) 0) z here in
        rw here (Runs-then _ _ (Runs-attempt _ _ s e) (Runs-pure true s))
    | inr gone ↦
        let room : 10 - length seen ≡ suc (9 - length seen) = omega arith in
        let e = ft_strchr-absent c seen (9 - length seen) nz z gone in
        rw (gone, room) (Runs-then _ _ (Runs-attempt _ _ s e) (Runs-pure false s))
  ]

  module _ (m : Machine) where
    Runs-put_address :
        (e : Entry) → IsInFile m e → Runs (put_address e.symbol) m tt (hex_pairs e.value) m
    unfolding put_address output
    Runs-put_address e h =
        let (calls, runs, chars) =
          hexdump_address-hex_pairs m e.symbol.add e.symbol.is_64 e.value h.before h.behind h.size
            h.held h.place h.fits h.bytes in
        Runs-then _ _ (Runs-working _ calls m m runs) (
          Runs-then _ _ (Runs-attempt _ (hex_pairs e.value) m chars) (record {
            events = standard_output (hex_pairs e.value) ∷ [];
            returns = refl;
            prints = append-nil (hex_pairs e.value);
          }))

    -- Whether the name stands alone; what stands in front of it; and the name.
    Runs-alone :
        (u : Bool)
        → Runs
            (if u then pure true else flag (buffer seen).flags b'j')
            m
            (u || contains b'j' seen)
            []
            m
    Runs-alone true = Runs-pure true m
    Runs-alone false = Runs-flag b'j' m (omega arith)

    Runs-front :
        (e : Entry) (alone : Bool)
        → IsInFile m e
        → Runs
            (if not alone
              then put_address e.symbol >> print (ft_printf letter_format (word e.symbol.type ∷ []))
              else pure tt)
            m
            tt
            (if alone then [] else hex_pairs e.value ++ (b' ' ∷ e.symbol.type ∷ b' ' ∷ []))
            m
    Runs-front e true h = Runs-pure tt m
    Runs-front e false h =
        Runs-then _ _ (Runs-put_address e h)
          (Runs-print _ _ _ _ m (ft_printf-letter e.symbol.type h.letter))

    Runs-look : (p : Ptr) → Runs (ask (λ n. (string_at n p, n))) m (string_at m p) [] m
    unfolding output
    Runs-look p = record { events = []; returns = refl; prints = refl }

    Runs-put_symbol :
        (e : Entry)
        → IsInFile m e
        → Runs (put_symbol (buffer seen).flags e.symbol) m tt (line seen e) m
    unfolding put_symbol line
    Runs-put_symbol e h = Runs-then _ _ (Runs-flag b'u' m (omega arith)) (
        Runs-then _ _ (Runs-alone (contains b'u' seen)) (
          Runs-then _ _ (Runs-front e (contains b'u' seen || contains b'j' seen) h) (
            Runs-then _ _ (Runs-look e.symbol.name) (
              Runs-print _ _ _ _ m (ft_printf-text (string_at m e.symbol.name) e.name h.named).0))))

    Runs-shown :
        (e : Entry) (b : Bool)
        → IsInFile m e
        → Runs
            (if b then put_symbol (buffer seen).flags e.symbol else pure tt)
            m
            tt
            (if b then line seen e else [])
            m
    Runs-shown e true h = Runs-put_symbol e h
    Runs-shown e false h = Runs-pure tt m

    Runs-list_loop :
        (es : List Entry)
        → All (IsInFile m) es
        → Runs (list_loop (buffer seen).flags (map (λ e. e.symbol) es)) m tt (lines seen es) m
    unfolding list_loop lines is_shown
    Runs-list_loop [] h = Runs-pure tt m
    Runs-list_loop (e ∷ es) h =
        Runs-then _ _ (Runs-attempt _ _ m (can_show_list-shows e.symbol.type seen z fits))
          (Runs-then _ _ (Runs-shown e (is_shown seen e) h.0) (Runs-list_loop es h.1))

    Runs-title :
        (x name : List ℕ) (mu : Bool)
        → c_string x ≡ some name
        → Runs
            (if mu then print (ft_printf name_format (text (some x) ∷ [])) else pure tt)
            m
            tt
            (if mu then name ++ (b':' ∷ 10 ∷ []) else [])
            m
    Runs-title x name true e = Runs-print _ _ _ _ m (ft_printf-text x name e).1
    Runs-title x name false e = Runs-pure tt m

    -- With the letters of the options in the buffer, at most nine and no NUL, and values and names of
    -- at least one symbol in the file, `print_nm_list` does not fault; it prints the name of the file
    -- where there are several, and then the lines of the symbols that are to be shown, in order. A
    -- line holds the value also of an undefined symbol, as zeros, where the recorded outputs of nm
    -- are blank, and the option g counts only together with u or U.
    pub print_nm_list-lines :
        (e : Entry) (es : List Entry) (x name : List ℕ) (mu : Bool)
        → All (IsInFile m) (e ∷ es)
        → c_string x ≡ some name
        → Runs
            (print_nm_list (map (λ e. e.symbol) (e ∷ es)) x mu (buffer seen).flags)
            m
            success
            ((if mu then name ++ (b':' ∷ 10 ∷ []) else []) ++ lines seen (e ∷ es))
            m
    unfolding print_nm_list
    print_nm_list-lines e es x name mu h named = Runs-then _ _ (Runs-title x name mu named) (
        Runs-same (append-nil (lines seen (e ∷ es)))
          (Runs-then _ _ (Runs-list_loop (e ∷ es) h) (Runs-pure success m)))
