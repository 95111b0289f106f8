-- ===== src/Printf/Monad/Steps.antt =====
-- Runs of code that prints, one part after the other.
use nm.Common.{ℕ, ◌≡◌, refl, some, List, ◌++◌}
use nm.Printf.Monad.{Arg, Print, ◌>>=◌}

pub follow :
    {A B : Type 0} (p : Print A) (k : A → Print B) {args args' args'' : List Arg} {a : A} {b : B}
    {out out' : List ℕ}
    → p args ≡ some (a, out, args')
    → k a args' ≡ some (b, out', args'')
    → (p >>= k) args ≡ some (b, out ++ out', args'')
unfolding ◌>>=◌
follow p k e f = rw (◌>>=◌, e, f) refl
