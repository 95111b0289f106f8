-- ===== src/System/Runs.antt =====
-- Runs of code that reports, by what they print on the standard output.
use mathlib.Core.List.{append_assoc, append-nil}
use nm.Common.{
  Bool, true, false, if◌then◌else◌, arith, ℕ, ◌≡◌, refl, sym, ap, ◌∙◌, Option, some, List, [], ◌∷◌,
  ◌++◌,
}
use nm.Common.Int.{ℤ}
use nm.Machine.{Machine, Proc, ok}
use nm.Printf.Monad.{Arg}
use nm.System.{
  Task, Event, standard_output, standard_error, ◌>>=◌, pure, working, attempt, ask, within, print,
  output,
}

-- From `s` the code does not fault; it returns `a` and prints `out`, and `t` is the state then.
pub record Runs {S A : Type 0} (p : Task S A) (s : S) (a : A) (out : List ℕ) (t : S) : Type 0 where
  pub events : List Event
  pub returns : p s ≡ some (a, events, t)
  pub prints : output events ≡ out

output-append : (es fs : List Event) → output (es ++ fs) ≡ output es ++ output fs
unfolding output
output-append [] fs = refl
output-append (standard_output out ∷ es) fs =
    ap (λ (l : List ℕ). out ++ l) (output-append es fs)
    ∙ sym (append_assoc out (output es) (output fs))
output-append (standard_error out ∷ es) fs = output-append es fs

pub Runs-then :
    {S A B : Type 0} (p : Task S A) (k : A → Task S B) {s t u : S} {a : A} {b : B}
    {out out' : List ℕ}
    → Runs p s a out t
    → Runs (k a) t b out' u
    → Runs (p >>= k) s b (out ++ out') u
unfolding ◌>>=◌
Runs-then p k {out = out} r q = record {
  events = r.events ++ q.events;
  returns = rw (◌>>=◌, r.returns, q.returns) refl;
  prints =
      output-append r.events q.events
      ∙ ap (λ (l : List ℕ). l ++ output q.events) r.prints
      ∙ ap (λ (l : List ℕ). out ++ l) q.prints;
}

pub Runs-pure : {S A : Type 0} (a : A) (s : S) → Runs (pure a) s a [] s
unfolding output
Runs-pure a s = record { events = []; returns = refl; prints = refl }

pub Runs-attempt :
    {S A : Type 0} (o : Option A) (a : A) (s : S) → o ≡ some a → Runs (attempt o) s a [] s
unfolding output
Runs-attempt o a s e = record { events = []; returns = rw e refl; prints = refl }

pub Runs-working :
    {A : Type 0} (p : Proc A) (a : A) (m n : Machine) → p m ≡ ok a n → Runs (working p) m a [] n
unfolding output
Runs-working p a m n e = record { events = []; returns = rw (working, e) refl; prints = refl }

pub Runs-print :
    {S : Type 0} (r : Option (ℤ × List ℕ × List Arg)) (n : ℤ) (out : List ℕ) (args : List Arg)
    (s : S)
    → r ≡ some (n, out, args)
    → Runs (print r) s tt out s
unfolding output
Runs-print r n out args s e = record {
  events = standard_output out ∷ [];
  returns = rw e refl;
  prints = append-nil out;
}

-- The same output in another form.
pub Runs-same :
    {S A : Type 0} {p : Task S A} {s t : S} {a : A} {out out' : List ℕ}
    → out ≡ out'
    → Runs p s a out t
    → Runs p s a out' t
Runs-same e r = record { events = r.events; returns = r.returns; prints = r.prints ∙ e }

-- A test of the state, and a test that fails.
pub Runs-ask :
    {S A : Type 0} (test : S → A) (s : S) (a : A)
    → test s ≡ a
    → Runs (ask (λ t. (test t, t))) s a [] s
unfolding output
Runs-ask test s a e = record {
  events = [];
  returns = ap (λ (b : _). some (b, [], s)) e;
  prints = refl;
}

pub Runs-else :
    {S A : Type 0} (p q : Task S A) {s t : S} {a : A} {out : List ℕ} (b : Bool)
    → b ≡ false
    → Runs q s a out t
    → Runs (if b then p else q) s a out t
Runs-else p q true e r = absurd (ground arith)
Runs-else p q false e r = r

-- A call of the system, and code on a mapping of its own.
pub Runs-call :
    {S A : Type 0} (call : S → A × S) (s t : S) (a : A) → call s ≡ (a, t) → Runs (ask call) s a [] t
unfolding output
Runs-call call s t a e = record {
  events = [];
  returns = ap (λ (r : _ × _). some (r.0, [], r.1)) e;
  prints = refl;
}

pub Runs-within :
    {S A : Type 0} (m n : Machine) (p : Task Machine A) (s : S) (a : A) (out : List ℕ)
    → Runs p m a out n
    → Runs (within m p) s a out s
Runs-within m n p s a out r = record {
  events = r.events;
  returns = rw (within, r.returns) refl;
  prints = r.prints;
}
