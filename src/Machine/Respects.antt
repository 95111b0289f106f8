-- ===== src/Machine/Respects.antt =====
-- What a procedure does to the memory, whenever it returns: a relation between before and after,
-- proved along the do blocks.
use mathlib.Core.Path.{subst}
use nm.Common.{◌≡◌, refl, sym, Bool, true, false, Option, none, some, if◌then◌else◌}
use nm.Machine.{Machine, Run, ok, fault, Proc, pure, ◌>>=◌, look, asks, when}

-- The parts of a run that returns.
pub record Returned {A B : Type 0} (p : Proc A) (k : A → Proc B) (m : Machine) (b : B)
    (m'' : Machine) : Type 0 where
  pub value : A
  pub middle : Machine
  pub first : p m ≡ ok value middle
  pub rest : k value middle ≡ ok b m''

pub ok-machine : {A : Type 0} {a b : A} {m m' : Machine} → ok a m ≡ ok b m' → m ≡ m'
ok-machine e = cc

pub fault_ne_ok : {A : Type 0} {a : A} {m : Machine} → ok a m ≡ fault → ⊥
fault_ne_ok e = cc

look-machine :
    {A : Type 0} (f : Machine → Option A) (m m' : Machine) (b : A) (o : Option A)
    → f m ≡ o
    → look f m ≡ ok b m'
    → m ≡ m'
look-machine f m m' b none e h = absurd (fault_ne_ok (sym (rw (e, look) at h)))
look-machine f m m' b (some a) e h = ok-machine (rw (e, look) at h)

Returned-run :
    {A B : Type 0} (p : Proc A) (k : A → Proc B) (m : Machine) (b : B) (m'' : Machine) (r : Run A)
    → p m ≡ r
    → (p >>= k) m ≡ ok b m''
    → Returned p k m b m''
unfolding ◌>>=◌
Returned-run p k m b m'' (ok a m') e h = record {
  value = a;
  middle = m';
  first = e;
  rest = rw (e, ◌>>=◌) at h;
}
Returned-run p k m b m'' fault e h = absurd (fault_ne_ok (sym (rw (e, ◌>>=◌) at h)))

pub >>=-Returned :
    {A B : Type 0} (p : Proc A) (k : A → Proc B) (m : Machine) (b : B) (m'' : Machine)
    → (p >>= k) m ≡ ok b m''
    → Returned p k m b m''
>>=-Returned p k m b m'' h = Returned-run p k m b m'' (p m) refl h

-- A relation that composes.
pub record Frame : Type 1 where
  pub Keeps : Machine → Machine → Type 0
  pub same : (m : Machine) → Keeps m m
  pub joins : (l m n : Machine) → Keeps l m → Keeps m n → Keeps l n

pub record Respects (F : Frame) {A : Type 0} (p : Proc A) : Type 0 where
  pub relates : (m m' : Machine) (a : A) → p m ≡ ok a m' → F.Keeps m m'

module _ (F : Frame) where
  open F use {Keeps, same, joins}

  pub pure-Respects : {A : Type 0} (a : A) → Respects F (pure a)
  pure-Respects a = record { relates = λ m m' b e. subst (Keeps m) (ok-machine e) (same m) }

  pub >>=-Respects :
      {A B : Type 0} (p : Proc A) (k : A → Proc B)
      → Respects F p
      → ((a : A) → Respects F (k a))
      → Respects F (p >>= k)
  >>=-Respects p k hp hk = record {
    relates = λ m m'' b e.
        let r = >>=-Returned p k m b m'' e in
        joins m r.middle m'' (hp.relates m r.middle r.value r.first)
          ((hk r.value).relates r.middle m'' b r.rest);
  }

  pub look-Respects : {A : Type 0} (f : Machine → Option A) → Respects F (look f)
  look-Respects f = record {
    relates = λ m m' b e. subst (Keeps m) (look-machine f m m' b (f m) refl e) (same m);
  }

  pub asks-Respects : {A : Type 0} (f : Machine → A) → Respects F (asks f)
  asks-Respects f = record { relates = λ m m' b e. subst (Keeps m) (ok-machine e) (same m) }

  pub if-Respects :
      {A : Type 0} (b : Bool) (p q : Proc A)
      → Respects F p
      → Respects F q
      → Respects F (if b then p else q)
  if-Respects true p q hp hq = hp
  if-Respects false p q hp hq = hq

  pub when-Respects :
      (s : Bool) (p : Proc (Unit {0})) → (s ≡ true → Respects F p) → Respects F (when s p)
  when-Respects true p h = h refl
  when-Respects false p h = pure-Respects tt
