-- ===== src/FtNm/Main/Exit.antt =====
-- The program as a whole, on one file.
use mathlib.Core.List.{append-nil, Perm}
use mathlib.Core.Path.{subst}
use nm.Common.{
  ℕ, ◌+◌, arith, Option, none, ◌-◌, ◌≡◌, refl, ap, ◌∙◌, Bool, true, false, some, List, [], ◌∷◌,
  ◌++◌, drop, map, All,
}
use nm.Machine.{Machine, Ptr, ok, ◌⊕◌, read32}
use nm.Libft.Strings.Laws.{c_string}
use nm.System.{Os, descriptor, Stat, Task}
use nm.System.Runs.{Runs, Runs-then, Runs-pure, Runs-same, Runs-else, Runs-call, Runs-within}
use nm.FtOtool.Dump.{success}
use nm.FtNm.NotFat.{Symbol}
use nm.FtNm.NotFat.Object.{IsObject}
use nm.FtNm.Safe.{is_safe}
use nm.FtNm.Magic.{is_fat_file, is_64_file, should_swap_file, not_valid_file}
use nm.FtNm.Flags.{parsed, set_flags_nm}
use nm.FtNm.Flags.Spec.{contains, buffer, collect, first_bad, option_letters, option_count, finish}
use nm.FtNm.Flags.Buffer.{IsSeen-le}
use nm.FtNm.Flags.Laws.{set_flags_nm-finish, collect-IsSeen}
use nm.FtNm.Sort.Loops.{IsSorted}
use nm.FtNm.Sort.Laws.{symbol_gt}
use nm.FtNm.Sort.Order.{IsReadable}
use nm.FtNm.Lines.Printed.{IsInFile, lines}
use nm.FtNm.Nm.{nm_file}
use nm.FtNm.Nm.Object.{entry, nm_file-Listed}
use nm.FtNm.Main.{
  mapping, get_fd, handle_listed, handle_mapped, handle_sized, handle_opened, handle_each_arg,
  one_arg, main,
}

module _ (os : Os) where
  -- From `s` on the system opens, maps and unmaps the file of the name `x`; `t` is its state then.
  pub record Opens (s : os.State) (x : List ℕ) (p : Ptr) (bytes : List ℕ) (size : ℕ) (t : os.State)
      : Type 0 where
    pub fd : ℕ
    pub stat : Stat
    pub opened_state : os.State
    pub known_state : os.State
    pub sized_state : os.State
    pub mapped_state : os.State
    pub opened : os.open_file s x ≡ (descriptor fd, opened_state)
    pub known : os.fstat opened_state fd ≡ (some stat, known_state)
    pub no_directory : stat.is_dir ≡ false
    pub sized : os.fstat known_state fd ≡ (some (record stat { st_size = size }), sized_state)
    pub mapped : os.mmap sized_state size fd ≡ (some (p, bytes), mapped_state)
    pub unmapped : os.munmap mapped_state p size ≡ (true, t)

  module _ (s t : os.State) (x : List ℕ) (p : Ptr) (bytes : List ℕ) (size : ℕ)
      (o : Opens s x p bytes size t) where
    Runs-get_fd : Runs (get_fd os x) s (some o.fd) [] o.known_state
    unfolding get_fd
    Runs-get_fd = Runs-then _ _ (Runs-call _ s o.opened_state (descriptor o.fd) o.opened) (
        Runs-then _ _ (Runs-call _ o.opened_state o.known_state (some o.stat) o.known) (
          Runs-then _ _ (Runs-else _ _ o.stat.is_dir o.no_directory (Runs-pure tt o.known_state))
            (Runs-pure (some o.fd) o.known_state)))

    -- A file that is listed: the status is EXIT_SUCCESS and the output that of `nm`.
    pub Runs-handle_each_arg :
        (multi first : Bool) (flags out : List ℕ) (n : Machine)
        → Runs (nm_file p x multi first flags) (mapping p bytes size) success out n
        → Runs (handle_each_arg os x multi first flags) s 0 (out ++ []) t
    unfolding handle_each_arg handle_opened handle_sized handle_mapped handle_listed
    Runs-handle_each_arg multi first flags out n r = Runs-then _ _ Runs-get_fd (
        Runs-then _ _
          (Runs-call _ o.known_state o.sized_state (some (record o.stat { st_size = size }))
            o.sized)
          (Runs-then _ _ (Runs-call _ o.sized_state o.mapped_state (some (p, bytes)) o.mapped) (
            Runs-then _ _ (Runs-within _ n _ o.mapped_state success out r)
              (Runs-then _ _ (Runs-call _ o.mapped_state t true o.unmapped) (Runs-pure 0 t)))))

one_file :
    (os : Os) (av : List (List ℕ)) (seen file : List ℕ) (count : ℕ)
    → set_flags_nm av ≡ parsed (buffer seen, 1 + count)
    → drop count av ≡ file ∷ []
    → one_arg os (file ∷ []) (buffer seen).flags ≡ main os av
unfolding main
one_file os av seen file count e d =
    let same : 1 + count - 1 ≡ count = omega arith in rw (main, e, same, d) refl

-- `out` is the table in order, and the program prints its lines and exits with EXIT_SUCCESS.
pub record Succeeds (os : Os) (av : List (List ℕ)) (s t : os.State) (m : Machine) (seen : List ℕ)
    (table out : List Symbol) : Type 0 where
  pub perm : Perm out table
  pub sorted : IsSorted (symbol_gt m (contains b'r' seen)) out
  pub runs : Runs (main os av) s 0 (lines seen (map (entry m) out)) t

-- Let the command line be options, none of them bad and none of them p, and the name of one file; let
-- the system open the file and map it, and the mapping hold an object in the byte order of the
-- machine, with at least one symbol, whose table can be read with its values and names, the values of
-- each name less than 2 ^ 31 apart. Then ft_nm does not fault and exits with EXIT_SUCCESS, and its
-- output is the lines of the symbols to be shown, sorted by name and value, the other way round with
-- the option r. A line holds the value also of an
-- undefined symbol, as zeros, where the recorded outputs of nm are blank, and the option g counts
-- only together with u or U.
pub main-Succeeds :
    (os : Os) (av : List (List ℕ)) (file : List ℕ) (s t : os.State) (p : Ptr) (bytes : List ℕ)
    (size magic : ℕ) (low : List ℕ → ℕ) (x : Symbol) (table : List Symbol)
    → first_bad (option_letters av) ≡ none
    → contains b'p' (collect [] (option_letters av)) ≡ false
    → drop (option_count av) av ≡ file ∷ []
    → c_string (file ++ (0 ∷ [])) ≡ some file
    → Opens os s (file ++ (0 ∷ [])) p bytes size t
    → is_safe (p ⊕ 32) (mapping p bytes size) ≡ true
    → read32 p (mapping p bytes size) ≡ ok magic (mapping p bytes size)
    → not_valid_file magic ≡ false
    → is_fat_file magic ≡ false
    → should_swap_file magic ≡ false
    → IsObject (mapping p bytes size) p (is_64_file magic) (x ∷ table)
    → All
        (λ s.
          IsReadable (mapping p bytes size) (is_64_file magic) low s
          × IsInFile (mapping p bytes size) (entry (mapping p bytes size) s))
        (x ∷ table)
    → (out : List Symbol) × Succeeds os av s t
        (mapping p bytes size)
        (collect [] (option_letters av))
        (x ∷ table)
        out
unfolding one_arg
main-Succeeds os av file s t p bytes size magic low x table good unsorted one named opens safe
      number valid thin native object readable =
    let seen = collect [] (option_letters av) in
    let seen_IsSeen = collect-IsSeen (option_letters av) good in
    let m = mapping p bytes size in
    let (out, listed) =
      nm_file-Listed seen seen_IsSeen.no_nul (let few = IsSeen-le seen_IsSeen in omega (arith, few))
        m p magic low (file ++ (0 ∷ [])) file false true x table unsorted safe number valid thin
        native object readable named in
    let options : set_flags_nm av ≡ parsed (buffer seen, 1 + option_count av) =
      set_flags_nm-finish av
      ∙ ap (λ (b : Option ℕ). finish b (buffer seen, 1 + option_count av)) good in
    (
      out,
      record {
        perm = listed.perm;
        sorted = listed.sorted;
        runs =
            subst (λ (q : Task os.State ℕ). Runs q s 0 (lines seen (map (entry m) out)) t)
              (one_file os av seen file (option_count av) options one)
              (Runs-same (append-nil (lines seen (map (entry m) out))) (
                Runs-handle_each_arg os s t (file ++ (0 ∷ [])) p bytes size opens false true
                  (buffer seen).flags _ m listed.runs));
      },
    )
