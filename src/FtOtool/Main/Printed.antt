-- ===== src/FtOtool/Main/Printed.antt =====
-- The program as a whole, on files that are objects.
use mathlib.Core.List.{append-nil}
use nm.Common.{ℕ, ◌+◌, ◌≡◌, refl, sym, Bool, true, false, some, List, [], ◌∷◌, ◌++◌, length}
use nm.Common.Int.{pos}
use nm.Machine.{Machine, Ptr, ok, ◌⊕◌, read32}
use nm.Libft.Strings.Laws.{c_string}
use nm.Printf.Format.Text.{ft_printf-text}
use nm.System.{Os, descriptor, standard_output, output}
use nm.System.Runs.{
  Runs, Runs-then, Runs-pure, Runs-working, Runs-print, Runs-ask, Runs-attempt, Runs-same,
  Runs-else, Runs-call, Runs-within,
}
use nm.FtNm.Safe.{is_safe}
use nm.FtNm.Magic.{is_fat_file, is_64_file, should_swap_file, not_valid_file}
use nm.FtNm.Main.{mapping}
use nm.FtNm.Main.Exit.{Opens}
use nm.FtOtool.Dump.{Call, Status, success}
use nm.FtOtool.Dump.Rows.{layout}
use nm.FtOtool.Perform.{perform_all}
use nm.FtOtool.Section.{handle_otool}
use nm.FtOtool.Section.Search.{header_address}
use nm.FtOtool.Section.Object.{IsObject, IsText, dump, handle_not_fat-IsText}
use nm.FtOtool.Main.{otool, get_fd, handle_mapped, handle_each_arg, args_loop, handle_args, main}

-- The file of which `bytes` are mapped at `g` is an object in the byte order of the machine; `section` is its section
-- __text, from the address `a` on.
pub record IsBinary (g : Ptr) (bytes : List ℕ) (size : ℕ) (is_64 : Bool) (a : ℕ) (section : List ℕ)
    : Type 0 where
  pub magic : ℕ
  pub lc : Ptr
  pub n : ℕ
  pub pre : List ℕ
  pub mid : List ℕ
  pub post : List ℕ
  pub same : mapping g bytes size ≡ layout g size is_64 pre mid section post a
  pub safe : is_safe (g ⊕ 32) (mapping g bytes size) ≡ true
  pub number : read32 g (mapping g bytes size) ≡ ok magic (mapping g bytes size)
  pub valid : not_valid_file magic ≡ false
  pub thin : is_fat_file magic ≡ false
  pub wide : is_64_file magic ≡ is_64
  pub native : should_swap_file magic ≡ false
  pub object : IsObject (layout g size is_64 pre mid section post a) g is_64 lc n
  pub text : IsText g size is_64 pre mid section post a g (header_address lc is_64 n)

-- The calls that print, carried out.
Runs-performed :
    (status : Status) (out : List ℕ) (m : Machine)
    → Runs {S = Machine} (λ m. some (status, standard_output out ∷ [], m)) m status out m
unfolding output
Runs-performed status out m = record {
  events = standard_output out ∷ [];
  returns = refl;
  prints = append-nil out;
}

module _ (g : Ptr) (bytes : List ℕ) (size : ℕ) (is_64 : Bool) (a : ℕ) (section : List ℕ)
    (b : IsBinary g bytes size is_64 a section) where
  handled :
      (n : Machine) × (calls : List Call) × (handle_otool
          (is_fat_file b.magic)
          (is_64_file b.magic)
          (should_swap_file b.magic)
          g
          (mapping g bytes size)
        ≡ ok (success, calls) n)
      × (perform_all calls ≡ some (dump is_64 a section))
  unfolding handle_otool
  handled =
      let (a', calls, dumped, printed) =
        handle_not_fat-IsText g size is_64 b.pre b.mid section b.post a g b.lc b.n b.object
          b.text in
      (
        layout g size is_64 b.pre b.mid section b.post a',
        calls,
        rw (b.thin, b.wide, b.native, b.same) dumped,
        printed,
      )

  -- What ft_otool prints of a file: its name and the dump.
  Runs-otool :
      (x name : List ℕ)
      → c_string x ≡ some name
      → (n : Machine) × Runs
          (otool g x)
          (mapping g bytes size)
          success
          ((name ++ (b':' ∷ 10 ∷ [])) ++ dump is_64 a section)
          n
  unfolding otool
  Runs-otool x name e =
      let (n, calls, runs, printed) = handled in
      (
        n,
        Runs-then _ _ (Runs-ask (is_safe (g ⊕ 32)) (mapping g bytes size) true b.safe) (
            Runs-then _ _ (Runs-working _ b.magic _ _ b.number) (
              Runs-else _ _ (not_valid_file b.magic) b.valid (
                Runs-then _ _
                  (Runs-print _ (pos (length name + 1 + 1)) (name ++ (b':' ∷ 10 ∷ [])) [] _
                    (ft_printf-text x name e).1)
                  (Runs-then _ _ (Runs-working _ (success, calls) _ n runs)
                    (Runs-then _ _ (Runs-attempt _ _ n printed) (Runs-performed success _ n)))))),
      )

-- Files that the system opens and maps one after the other, each an object; `out` is their names and dumps.
pub data Dumps (os : Os) : os.State → List (List ℕ) → List ℕ → os.State → Type 0 where
  none_left : {s : os.State} → Dumps os s [] [] s
  file :
      {s u t : os.State} {more : List (List ℕ)} {rest out : List ℕ} (name : List ℕ) (g : Ptr)
      (bytes : List ℕ) (size : ℕ) (is_64 : Bool) (a : ℕ) (section : List ℕ)
      → c_string (name ++ (0 ∷ [])) ≡ some name
      → Opens os s (name ++ (0 ∷ [])) g bytes size u
      → IsBinary g bytes size is_64 a section
      → Dumps os u more rest t
      → out ≡ ((name ++ (b':' ∷ 10 ∷ [])) ++ dump is_64 a section) ++ rest
      → Dumps os s (name ∷ more) out t

module _ (os : Os) where
  module _ (s t : os.State) (x : List ℕ) (g : Ptr) (bytes : List ℕ) (size : ℕ)
      (o : Opens os s x g bytes size t) where
    Runs-get_fd : Runs (get_fd os x) s (some o.fd) [] o.known_state
    unfolding get_fd
    Runs-get_fd = Runs-then _ _ (Runs-call _ s o.opened_state (descriptor o.fd) o.opened) (
        Runs-then _ _ (Runs-call _ o.opened_state o.known_state (some o.stat) o.known)
          (Runs-else _ _ o.stat.is_dir o.no_directory (Runs-pure (some o.fd) o.known_state)))

    Runs-handle_each_arg :
        (out : List ℕ) (n : Machine)
        → Runs (otool g x) (mapping g bytes size) success out n
        → Runs (handle_each_arg os x) s 0 out t
    unfolding handle_each_arg handle_mapped
    Runs-handle_each_arg out n r = Runs-same (append-nil out) (
        Runs-then _ _ Runs-get_fd (
          Runs-then _ _
            (Runs-call _ o.known_state o.sized_state (some (record o.stat { st_size = size }))
              o.sized)
            (Runs-then _ _ (Runs-call _ o.sized_state o.mapped_state (some (g, bytes)) o.mapped) (
              Runs-then _ _ (Runs-within _ n _ o.mapped_state success out r)
                (Runs-then _ _ (Runs-call _ o.mapped_state t true o.unmapped) (Runs-pure 0 t))))))

  Runs-args_loop :
      {s t : os.State} {files : List (List ℕ)} {out : List ℕ}
      → Dumps os s files out t
      → Runs (args_loop os files 0) s 0 out t
  unfolding args_loop
  Runs-args_loop (none_left {s}) = Runs-pure 0 s
  Runs-args_loop (file {s} {u} name g bytes size is_64 a section e o b rest same) =
      let (n, r) = Runs-otool g bytes size is_64 a section b (name ++ (0 ∷ [])) name e in
      Runs-same (sym same) (
        Runs-then _ _ (Runs-handle_each_arg s u (name ++ (0 ∷ [])) g bytes size o _ n r)
          (Runs-args_loop rest))

-- Let the command line of ft_otool name at least one file; let the system open and map each of them in turn, and let
-- each be an object in the byte order of the machine with a section __text in the file, in a mapping below
-- 2 ^ 63 and of less than 2 ^ 32 bytes, with addresses of the section that do not wrap. Then ft_otool does not fault
-- and exits with EXIT_SUCCESS; it prints of each file its name, the heading, and the section in rows of 16
-- bytes, each behind the address of its first byte, in base 16.
pub main-Dumps :
    (os : Os) (name : List ℕ) (more : List (List ℕ)) (s t : os.State) (out : List ℕ)
    → Dumps os s (name ∷ more) out t
    → Runs (main os (name ∷ more)) s 0 out t
unfolding main handle_args
main-Dumps os name more s t out d = Runs-args_loop os d
