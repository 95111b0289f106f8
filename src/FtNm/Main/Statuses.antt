-- ===== src/FtNm/Main/Statuses.antt =====
-- The exit status of the program on several files.
use mathlib.Core.Option
use mathlib.Core.Path.{subst}
use nm.Common.{
  ℕ, zero, suc, ◌≤◌, ◌≡◌, ◌↔◌, refl, sym, ap, ◌∙◌, Bool, true, false, Option, none, some, List, [],
  ◌∷◌, ◌++◌, All, bit_or, if◌then◌else◌, arith,
}
use nm.Machine.{Ptr}
use nm.System.{Os, Stat, Event, pure}
use nm.System.Results.{Gives, Gives-then, Parts-then}
use nm.FtOtool.Dump.{Status, success, failure}
use nm.FtNm.Report.{return_error}
use nm.FtNm.Main.{
  handle_listed, handle_mapped, handle_sized, handle_opened, handle_each_arg, args_loop, multi_args,
  fstat_message, mmap_message, munmap_message,
}

-- EXIT_SUCCESS and EXIT_FAILURE together.
or_small : (a b : ℕ) → a ≤ 1 → b ≤ 1 → (bit_or a b ≤ 1) × ((bit_or a b ≡ 0) ↔ ((a ≡ 0) × (b ≡ 0)))
or_small zero zero h k = (omega arith, (λ z. (refl, refl), λ z. refl))
or_small zero (suc zero) h k = (omega arith, (λ z. absurd (omega arith), λ z. absurd (omega arith)))
or_small (suc zero) zero h k = (omega arith, (λ z. absurd (omega arith), λ z. absurd (omega arith)))
or_small (suc zero) (suc zero) h k =
    (omega arith, (λ z. absurd (omega arith), λ z. absurd (omega arith)))
or_small (suc (suc a)) b h k = absurd (omega arith)
or_small zero (suc (suc b)) h k = absurd (omega arith)
or_small (suc zero) (suc (suc b)) h k = absurd (omega arith)

module _ (os : Os) (flags : List ℕ) where
  Gives-return_error : (message : List ℕ) → Gives {S = os.State} (λ n. n ≤ 1) (return_error message)
  unfolding return_error
  Gives-return_error message = Gives-then _ _ _ (λ u s. omega arith)

  Gives-unmapped :
      (b : Bool)
      → Gives {S = os.State} (λ n. n ≤ 1) (if b then pure 0 else return_error munmap_message)
  Gives-unmapped true = λ s. omega arith
  Gives-unmapped false = Gives-return_error munmap_message

  Gives-handle_listed :
      (p size : ℕ) (status : Status) → Gives (λ n. n ≤ 1) (handle_listed os p size status)
  unfolding handle_listed
  Gives-handle_listed p size failure = λ s. omega arith
  Gives-handle_listed p size success = Gives-then _ _ _ Gives-unmapped

  Gives-handle_mapped :
      (av : List ℕ) (multi first : Bool) (size : ℕ) (mapped : Option (Ptr × List ℕ))
      → Gives (λ n. n ≤ 1) (handle_mapped os av multi first flags size mapped)
  unfolding handle_mapped
  Gives-handle_mapped av multi first size none = Gives-return_error mmap_message
  Gives-handle_mapped av multi first size (some (p, bytes)) =
      Gives-then _ _ _ (Gives-handle_listed p size)

  Gives-handle_sized :
      (av : List ℕ) (multi first : Bool) (fd : ℕ) (buf : Option Stat)
      → Gives (λ n. n ≤ 1) (handle_sized os av multi first flags fd buf)
  unfolding handle_sized
  Gives-handle_sized av multi first fd none = Gives-return_error fstat_message
  Gives-handle_sized av multi first fd (some stat) =
      Gives-then _ _ _ (Gives-handle_mapped av multi first stat.st_size)

  Gives-handle_opened :
      (av : List ℕ) (multi first : Bool) (opened : Option ℕ)
      → Gives (λ n. n ≤ 1) (handle_opened os av multi first flags opened)
  unfolding handle_opened
  Gives-handle_opened av multi first none = λ s. omega arith
  Gives-handle_opened av multi first (some fd) =
      Gives-then _ _ _ (Gives-handle_sized av multi first fd)

  -- The status of one file is EXIT_SUCCESS or EXIT_FAILURE.
  Gives-handle_each_arg :
      (av : List ℕ) (multi first : Bool)
      → Gives (λ n. n ≤ 1) (handle_each_arg os av multi first flags)
  unfolding handle_each_arg
  Gives-handle_each_arg av multi first = Gives-then _ _ _ (Gives-handle_opened av multi first)

  -- The files handled one after the other, with their statuses, from one state of the system to
  -- another.
  pub data Handled : (first : Bool) → List (List ℕ) → os.State → List ℕ → os.State → Type 0 where
    done : (first : Bool) (s : os.State) → Handled first [] s [] s
    next :
        (first : Bool) (file : List ℕ) (more : List (List ℕ)) (s s' t : os.State) (status : ℕ)
        (statuses : List ℕ) (events : List Event)
        → handle_each_arg os (file ++ (0 ∷ [])) true first flags s ≡ some (status, events, s')
        → Handled false more s' statuses t
        → Handled first (file ∷ more) s (status ∷ statuses) t

  Handled-args_loop :
      (av : List (List ℕ)) (first : Bool) (res status : ℕ) (events : List Event) (s t : os.State)
      → res ≤ 1
      → args_loop os av first flags res s ≡ some (status, events, t)
      → (statuses : List ℕ) × Handled first av s statuses t
        × ((status ≡ 0) ↔ ((res ≡ 0) × All (λ n. n ≡ 0) statuses))
  unfolding args_loop
  Handled-args_loop [] first res status events s t small h =
      let same = Option.some-injective _ _ h in
      let result : res ≡ status = ap (λ (r : ℕ × List Event × os.State). r.0) same in
      (
        [],
        subst (λ (u : os.State). Handled first [] s [] u)
            (ap (λ (r : ℕ × List Event × os.State). r.2) same) (done first s),
        (λ z. (result ∙ z, tt), λ z. sym result ∙ z.0),
      )
  Handled-args_loop (file ∷ more) first res status events s t small h =
      let parts = Parts-then _ _ s t status events h in
      let one : parts.result ≤ 1 =
        rw parts.first at (Gives-handle_each_arg (file ++ (0 ∷ [])) true first s) in
      let either = or_small res parts.result small one in
      let (statuses, handled, iff) =
        Handled-args_loop more false (bit_or res parts.result) status parts.behind parts.middle t
          either.0 parts.second in
      (
        parts.result ∷ statuses,
        next first file more s parts.middle t parts.result statuses parts.before parts.first
            handled,
        (
          λ z. let both = iff.0 z in let zeros = either.1.0 both.0 in (zeros.0, (zeros.1, both.1)),
          λ z. iff.1 (either.1.1 (z.0, z.1.0), z.1.1),
        ),
      )

  -- Whatever the system does: where `multi_args` returns, each of the files has been handled, one after
  -- the other, and the status is EXIT_SUCCESS exactly if that of every file is.
  pub multi_args-Handled :
      (av : List (List ℕ)) (status : ℕ) (events : List Event) (s t : os.State)
      → multi_args os av flags s ≡ some (status, events, t)
      → (statuses : List ℕ) × Handled true av s statuses t
        × ((status ≡ 0) ↔ All (λ n. n ≡ 0) statuses)
  unfolding multi_args
  multi_args-Handled av status events s t h =
      let (statuses, handled, iff) =
        Handled-args_loop av true 0 status events s t (omega arith) h in
      (statuses, handled, (λ z. (iff.0 z).1, λ z. iff.1 (refl, z)))
