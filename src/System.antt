-- ===== src/System.antt =====
-- What the programs need of the operating system, as a parameter, and code that reports: it runs over
-- a state, writes to the standard output and the standard error, and may fault.
pub mod Runs
pub mod Results
use nm.Common.{Bool, ℕ, Option, none, some, List, [], ◌∷◌, ◌++◌, take}
use nm.Common.Int.{ℤ}
use nm.Machine.{Machine, Ptr, Proc, Run, ok, fault}
use nm.Libft.Strings.{ft_strlen}
use nm.Printf.Monad.{Arg}

-- What `open` gives: a descriptor, or -1 with EACCES or another `errno`.
pub data Opened : Type 0 where
  descriptor : ℕ → Opened
  access_denied open_failed : Opened

-- `st_size` and `S_ISDIR(st_mode)` of a struct stat
pub record Stat : Type 0 where
  pub st_size : ℕ
  pub is_dir : Bool

-- The calls, over the state of the system. `none` is -1 or MAP_FAILED. A mapping is its address and
-- its bytes.
pub record Os : Type 1 where
  pub State : Type 0
  pub open_file : State → (name : List ℕ) → Opened × State
  pub fstat : State → (fd : ℕ) → Option Stat × State
  pub close : State → (fd : ℕ) → State
  pub mmap : State → (size fd : ℕ) → Option (Ptr × List ℕ) × State
  pub munmap : State → Ptr → (size : ℕ) → Bool × State

-- `write` to the descriptors 1 and 2
pub data Event : Type 0 where
  standard_output standard_error : List ℕ → Event

abbrev pub Task : Type 0 → Type 0 → Type 0
Task S A = S → Option (A × List Event × S)

abbrev pub pure : {S A : Type 0} → A → Task S A
pure a s = some (a, [], s)

infixl 5 ◌>>=◌ ◌>>◌
unfoldable pub ◌>>=◌ : {S A B : Type 0} → Task S A → (A → Task S B) → Task S B
◌>>=◌ p k s = elim (p s) [
  | none ↦ none
  | some (a, out, s') ↦ elim (k a s') [
    | none ↦ none
    | some (b, out', s'') ↦ some (b, out ++ out', s'')
  ]
]

abbrev pub ◌>>◌ : {S A B : Type 0} → Task S A → Task S B → Task S B
p >> k = p >>= λ _. k

-- A call of the system, code that works on the mapping, and code that may fault.
abbrev pub ask : {S A : Type 0} → (S → A × S) → Task S A
ask call s = let (a, s') = call s in some (a, [], s')

abbrev pub working : {A : Type 0} → Proc A → Task Machine A
working p m = elim (p m) [ ok a m' ↦ some (a, [], m') | fault ↦ none ]

abbrev pub attempt : {S A : Type 0} → Option A → Task S A
attempt o s = elim o [ none ↦ none | some a ↦ some (a, [], s) ]

-- A call of ft_printf
abbrev pub print : {S : Type 0} → Option (ℤ × List ℕ × List Arg) → Task S (Unit {0})
print r s = elim r [ none ↦ none | some (n, out, args) ↦ some (tt, standard_output out ∷ [], s) ]

-- `write(2, s, ft_strlen(s))`
unfoldable pub write_error : {S : Type 0} → List ℕ → Task S (Unit {0})
write_error text s = elim (ft_strlen text) [
  | none ↦ none
  | some n ↦ some (tt, standard_error (take n text) ∷ [], s)
]

-- Code on a mapping of its own, which the rest does not see.
abbrev pub within : {S A : Type 0} → Machine → Task Machine A → Task S A
within m p s = elim (p m) [ none ↦ none | some (a, out, m') ↦ some (a, out, s) ]

-- What is on the standard output in the end.
unfoldable pub output : List Event → List ℕ
output [] = []
output (standard_output out ∷ events) = out ++ output events
output (standard_error out ∷ events) = output events
