-- ===== src/Machine/Steps.antt =====
-- One step of a procedure: what is bound has run.
use nm.Common.{◌≡◌, refl, sym, ◌∙◌, ◌⊎◌, inl, inr, Bool, true, false, if◌then◌else◌}
use nm.Machine.{Machine, Run, ok, fault, Proc, ◌>>=◌}

module _ {A B : Type 0} (p : Proc A) (k : A → Proc B) {m : Machine} where
  pub step : {m' : Machine} {a : A} → p m ≡ ok a m' → (p >>= k) m ≡ k a m'
  unfolding ◌>>=◌
  step e = rw (e, ◌>>=◌)

  pub step-fault : p m ≡ fault → (p >>= k) m ≡ fault
  unfolding ◌>>=◌
  step-fault e = rw (e, ◌>>=◌)

  -- What is left of a run, when its first part has run.
  pub after :
      {m' m'' : Machine} {a : A} {b : B}
      → (p >>= k) m ≡ ok b m''
      → p m ≡ ok a m'
      → k a m' ≡ ok b m''
  after h e = sym (step e) ∙ h

-- The branch that a run took.
pub chosen :
    {A : Type 0} (b : Bool) (p q : Proc A) {m : Machine} {r : Run A}
    → (if b then p else q) m ≡ r
    → ((b ≡ true) × (p m ≡ r)) ⊎ ((b ≡ false) × (q m ≡ r))
chosen true p q h = inl (refl, h)
chosen false p q h = inr (refl, h)

pub returned : {A : Type 0} {a b : A} {m m' : Machine} → ok a m ≡ ok b m' → a ≡ b
returned e = cc
