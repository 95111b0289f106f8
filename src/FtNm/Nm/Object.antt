-- ===== src/FtNm/Nm/Object.antt =====
-- What ft_nm prints of an object.
use mathlib.Core.List.{Perm}
use mathlib.Core.Path.{subst}
use nm.Common.{
  ℕ, suc, ◌-◌, ◌≤◌, ◌≡◌, ◌≢◌, refl, sym, ap, ◌∙◌, Bool, true, false, Option, none, some, List, [],
  ◌∷◌, ◌++◌, map, reverse, length, take, drop, replicate, All, arith, if◌then◌else◌, Bool-cases,
  inl, inr, not, ◌&&◌,
}
use nm.Machine.{Machine, Ptr, ok, ◌⊕◌, read32}
use nm.Libft.Strings.{ft_strchr}
use nm.Libft.Strings.Laws.{c_string}
use nm.System.Runs.{Runs, Runs-then, Runs-pure, Runs-working, Runs-print, Runs-ask, Runs-else}
use nm.Common.Int.{pos}
use nm.Printf.Monad.{◌>>=◌}
use nm.Printf.Put.{ft_putchar}
use nm.Printf.Format.{ft_printf, format_loop}
use nm.FtOtool.Dump.{success}
use nm.FtNm.Safe.{is_safe}
use nm.FtNm.Magic.{is_fat_file, is_64_file, should_swap_file, not_valid_file}
use nm.FtNm.Flags.Spec.{contains, buffer}
use nm.FtNm.Flags.Buffer.{ft_strchr-absent, ft_strchr-present}
use nm.FtNm.NotFat.{Symbol}
use nm.FtNm.NotFat.Object.{IsObject, handle_not_fat-IsObject}
use nm.FtNm.Fat.{handle_nm}
use nm.FtNm.Sort.{sort_list_by_name}
use nm.FtNm.Sort.Order.{IsReadable, key}
use nm.FtNm.Sort.Loops.{IsSorted}
use nm.FtNm.Sort.Laws.{symbol_gt, SortsTo, sort_list_by_name-keeps}
use nm.FtNm.Print.{is_some, sort_nm_list}
use nm.FtNm.Report.{print_new_line}
use nm.FtNm.Lines.Printed.{Entry, IsInFile, lines, print_nm_list-lines}
use nm.FtNm.Lines.{print_nm_list}
use nm.FtNm.Nm.{nm_file}

-- The entry of a symbol, with its value and its name read from the memory.
unfoldable pub entry : Machine → Symbol → Entry
entry m x = record {
  symbol = x;
  value = reverse (take (if x.is_64 then 8 else 4) (drop (x.add - m.g_begin) m.bytes));
  name = (key m x).name;
}

sort_nm_list-reversed :
    (m : Machine) (x : Symbol) (xs : List Symbol) (flags : List ℕ) (at : Option ℕ)
    → ft_strchr flags b'p' ≡ some none
    → ft_strchr flags b'r' ≡ some at
    → sort_nm_list (x ∷ xs) flags m ≡ sort_list_by_name (is_some at) (x ∷ xs) m
unfolding sort_nm_list
sort_nm_list-reversed m x xs flags at e f = rw (sort_nm_list, e, f) refl

-- The sort of a list that is not empty, with the option r or without it.
module _ (seen : List ℕ) (z : contains 0 seen ≡ false) (fits : length seen ≤ 9) where
  strchr-absent :
      (c : ℕ) → c ≢ 0 → contains c seen ≡ false → ft_strchr (buffer seen).flags c ≡ some none
  strchr-absent c nz gone =
      let room : 10 - length seen ≡ suc (9 - length seen) = omega arith in
      rw room (ft_strchr-absent c seen (9 - length seen) nz z gone)

  sort_nm_list-SortsTo :
      (m : Machine) (x : Symbol) (xs out : List Symbol)
      → contains b'p' seen ≡ false
      → SortsTo m (contains b'r' seen) (x ∷ xs) out
      → sort_nm_list (x ∷ xs) (buffer seen).flags m ≡ ok out m
  sort_nm_list-SortsTo m x xs out p s = elim (Bool-cases (contains b'r' seen)) [
    | inl here ↦
        let (i, e) = ft_strchr-present b'r' seen (replicate (10 - length seen) 0) z here in
        sort_nm_list-reversed m x xs _ _ (strchr-absent b'p' (omega arith) p) e
        ∙ ap (λ (r : Bool). sort_list_by_name r (x ∷ xs) m) (sym here)
        ∙ s.returns
    | inr gone ↦
        sort_nm_list-reversed m x xs _ _ (strchr-absent b'p' (omega arith) p)
          (strchr-absent b'r' (omega arith) gone)
        ∙ ap (λ (r : Bool). sort_list_by_name r (x ∷ xs) m) (sym gone)
        ∙ s.returns
  ]

symbols-entry : (m : Machine) (xs : List Symbol) → map (λ e. e.symbol) (map (entry m) xs) ≡ xs
unfolding entry
symbols-entry m [] = refl
symbols-entry m (x ∷ xs) = ap (λ (l : List Symbol). x ∷ l) (symbols-entry m xs)

All-entry :
    (m : Machine) (is_64 : Bool) (low : List ℕ → ℕ) (xs : List Symbol)
    → All (λ x. IsReadable m is_64 low x × IsInFile m (entry m x)) xs
    → All (IsInFile m) (map (entry m) xs)
All-entry m is_64 low [] h = tt
All-entry m is_64 low (x ∷ xs) h = (h.0.1, All-entry m is_64 low xs h.1)

printed : ft_printf (10 ∷ 0 ∷ []) [] ≡ some (pos 1, 10 ∷ [], [])
unfolding ft_printf format_loop ft_putchar ◌>>=◌
printed = refl

Runs-print_new_line :
    (m : Machine) (multi first : Bool)
    → Runs (print_new_line multi first) m tt (if not first && multi then 10 ∷ [] else []) m
unfolding print_new_line
Runs-print_new_line m true true = Runs-pure tt m
Runs-print_new_line m true false = Runs-print _ (pos 1) (10 ∷ []) [] m printed
Runs-print_new_line m false true = Runs-pure tt m
Runs-print_new_line m false false = Runs-pure tt m

object_listed :
    (m : Machine) (p : Ptr) (magic : ℕ) (table : List Symbol)
    → is_fat_file magic ≡ false
    → should_swap_file magic ≡ false
    → IsObject m p (is_64_file magic) table
    → handle_nm (is_fat_file magic) (is_64_file magic) (should_swap_file magic) p m ≡ ok table m
unfolding handle_nm
object_listed m p magic table thin native object =
    rw (thin, native) (handle_not_fat-IsObject m p (is_64_file magic) table object)

-- `out` is the table in order, and ft_nm prints its lines.
pub record Listed (m : Machine) (p : Ptr) (x : List ℕ) (multi first : Bool) (seen name : List ℕ)
    (table out : List Symbol) : Type 0 where
  pub perm : Perm out table
  pub sorted : IsSorted (symbol_gt m (contains b'r' seen)) out
  pub runs :
      Runs
        (nm_file p x multi first (buffer seen).flags)
        m
        success
        ((if not first && multi then 10 ∷ [] else [])
          ++ ((if multi then name ++ (b':' ∷ 10 ∷ []) else []) ++ lines seen (map (entry m) out)))
        m

module _ (seen : List ℕ) (z : contains 0 seen ≡ false) (fits : length seen ≤ 9) where
  -- The part of `nm` behind its tests.
  Runs-listed :
      (m : Machine) (is_64 multi first : Bool) (low : List ℕ → ℕ) (x name : List ℕ)
      (out : List Symbol) (n : ℕ)
      → length out ≡ suc n
      → All (λ s. IsReadable m is_64 low s × IsInFile m (entry m s)) out
      → c_string x ≡ some name
      → Runs
          (print_nm_list out x multi (buffer seen).flags)
          m
          success
          ((if multi then name ++ (b':' ∷ 10 ∷ []) else []) ++ lines seen (map (entry m) out))
          m
  Runs-listed m is_64 multi first low x name [] n size h named = absurd (omega (arith, size))
  Runs-listed m is_64 multi first low x name (s ∷ out) n size h named =
      subst
        (λ (l : List Symbol).
          Runs (print_nm_list l x multi (buffer seen).flags) m success
            ((if multi then name ++ (b':' ∷ 10 ∷ []) else [])
              ++ lines seen (map (entry m) (s ∷ out)))
            m)
        (symbols-entry m (s ∷ out))
        (print_nm_list-lines seen z fits m (entry m s) (map (entry m) out) x name multi
          (All-entry m is_64 low (s ∷ out) h) named)

  -- The mapping holds at p an object in the byte order of the machine, with at least one symbol, whose
  -- table can be read with the values and the names, the values of each name less than 2 ^ 31 apart.
  -- Without the option p, ft_nm does not fault and succeeds; it prints an empty line and the name of
  -- the file, where there are several, and then the lines of the symbols to be shown, sorted by name
  -- and value, the other way round with the option r. A line holds the value also of an
  -- undefined symbol, as zeros, where the recorded outputs of nm are blank, and the option g counts
  -- only together with u or U.
  pub nm_file-Listed :
      (m : Machine) (p : Ptr) (magic : ℕ) (low : List ℕ → ℕ) (x name : List ℕ) (multi first : Bool)
      (s : Symbol) (table : List Symbol)
      → contains b'p' seen ≡ false
      → is_safe (p ⊕ 32) m ≡ true
      → read32 p m ≡ ok magic m
      → not_valid_file magic ≡ false
      → is_fat_file magic ≡ false
      → should_swap_file magic ≡ false
      → IsObject m p (is_64_file magic) (s ∷ table)
      → All (λ s. IsReadable m (is_64_file magic) low s × IsInFile m (entry m s)) (s ∷ table)
      → c_string x ≡ some name
      → (out : List Symbol) × Listed m p x multi first seen name (s ∷ table) out
  unfolding nm_file
  nm_file-Listed m p magic low x name multi first s table unsorted safe number valid thin native
        object readable named =
      let (out, sorts, keeps, size) =
        sort_list_by_name-keeps m (contains b'r' seen) (is_64_file magic) low
          (λ s. IsInFile m (entry m s)) (s ∷ table) readable in
      (
        out,
        record {
          perm = sorts.perm;
          sorted = sorts.sorted;
          runs = Runs-then _ _ (Runs-ask (is_safe (p ⊕ 32)) m true safe) (
              Runs-then _ _ (Runs-working _ magic m m number) (
                Runs-else _ _ (not_valid_file magic) valid (
                  Runs-then _ _
                    (Runs-working _ (s ∷ table) m m
                      (object_listed m p magic (s ∷ table) thin native object))
                    (Runs-then _ _
                      (Runs-working _ out m m
                        (sort_nm_list-SortsTo seen z fits m s table out unsorted sorts))
                      (Runs-then _ _ (Runs-print_new_line m multi first) (
                        Runs-listed m (is_64_file magic) multi first low x name out (length table)
                          size keeps named))))));
        },
      )
