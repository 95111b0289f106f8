-- ===== src/FtNm/Sort/Loops.antt =====
-- The two loops of `sort_list_by_name`, for any order that its comparisons compute.
use mathlib.Core.List.{Perm}
use mathlib.Core.List.Perm
use nm.Common.{
  ℕ, zero, suc, ◌≡◌, refl, ◌∙◌, ap, Bool, true, false, List, [], ◌∷◌, if◌then◌else◌, arith, length,
  Bool-cases, inl, inr, All,
}
use nm.Machine.{Machine, ok, Proc}
use nm.Machine.Steps.{step}
use nm.FtNm.NotFat.{Symbol}
use nm.FtNm.Sort.{compare_exchange, compare_exchange_reverse, exchange, jump_loop, cp_loop}

-- No element is greater than one behind it.
abbrev pub IsSorted : (Symbol → Symbol → Bool) → List Symbol → Type 0
IsSorted gt [] = Unit
IsSorted gt (x ∷ xs) = All (λ y. gt x y ≡ false) xs × IsSorted gt xs

pub record IsOrder (gt : Symbol → Symbol → Bool) : Type 0 where
  pub irrefl : (a : Symbol) → gt a a ≡ false
  pub asym : (a b : Symbol) → gt a b ≡ true → gt b a ≡ false
  pub trans : (a b c : Symbol) → gt a b ≡ false → gt b c ≡ false → gt a c ≡ false

abbrev pub exchange_step : Bool → Symbol → Symbol → Proc (Symbol × Symbol)
exchange_step reversed cp jump =
    if reversed then compare_exchange_reverse cp jump else compare_exchange cp jump

module _ (m : Machine) (reversed : Bool) (gt : Symbol → Symbol → Bool) (order : IsOrder gt)
    (P : Symbol → Type 0)
    (runs : (a b : Symbol)
      → P a
      → P b
      → exchange_step reversed a b m ≡ ok (exchange (gt a b) a b) m) where
  -- The first of the list after the inner loop is the least, and the list a permutation.
  record Jumped (cp : Symbol) (rest : List Symbol) : Type 0 where
    least : Symbol
    others : List Symbol
    returns : jump_loop reversed cp rest m ≡ ok (least, others) m
    perm : Perm (least ∷ others) (cp ∷ rest)
    below : gt least cp ≡ false
    below_all : All (λ s. gt least s ≡ false) others
    keeps : P least × All P others
    above :
        (c : Symbol)
        → gt c cp ≡ false
        → All (λ s. gt c s ≡ false) rest
        → (gt c least ≡ false) × All (λ s. gt c s ≡ false) others
    size : length others ≡ length rest

  jump_loop-cons :
      (cp jump : Symbol) (rest : List Symbol)
      → P cp
      → P jump
      → (b : Bool) → gt cp jump ≡ b
      → Jumped (exchange b cp jump).0 rest
      → Jumped cp (jump ∷ rest)
  unfolding jump_loop
  jump_loop-cons cp jump rest pc pj true e j = record {
    least = j.least;
    others = cp ∷ j.others;
    returns =
        step _ _ (runs cp jump pc pj ∙ ap (λ (b : Bool). ok (exchange b cp jump) m) e)
        ∙ step _ _ j.returns;
    perm = Perm.trans (Perm.swap cp j.least j.others) (Perm.cons cp j.perm);
    below = order.trans j.least jump cp j.below (order.asym cp jump e);
    below_all = (order.trans j.least jump cp j.below (order.asym cp jump e), j.below_all);
    keeps = (j.keeps.0, (pc, j.keeps.1));
    above = λ c h hs. let r = j.above c hs.0 hs.1 in (r.0, (h, r.1));
    size = ap suc j.size;
  }
  jump_loop-cons cp jump rest pc pj false e j = record {
    least = j.least;
    others = jump ∷ j.others;
    returns =
        step _ _ (runs cp jump pc pj ∙ ap (λ (b : Bool). ok (exchange b cp jump) m) e)
        ∙ step _ _ j.returns;
    perm =
        Perm.trans (Perm.swap jump j.least j.others)
          (Perm.trans (Perm.cons jump j.perm) (Perm.swap cp jump rest));
    below = j.below;
    below_all = (order.trans j.least cp jump j.below e, j.below_all);
    keeps = (j.keeps.0, (pj, j.keeps.1));
    above = λ c h hs. let r = j.above c h hs.1 in (r.0, (hs.0, r.1));
    size = ap suc j.size;
  }

  jump_loop-Jumped : (cp : Symbol) (rest : List Symbol) → P cp → All P rest → Jumped cp rest
  unfolding jump_loop
  jump_loop-Jumped cp [] pc ps = record {
    least = cp;
    others = [];
    returns = refl;
    perm = Perm.refl _;
    below = order.irrefl cp;
    below_all = tt;
    keeps = (pc, tt);
    above = λ c h hs. (h, tt);
    size = refl;
  }
  jump_loop-Jumped cp (jump ∷ rest) pc ps = elim (Bool-cases (gt cp jump)) [
    | inl e ↦ jump_loop-cons cp jump rest pc ps.0 true e (jump_loop-Jumped jump rest ps.0 ps.1)
    | inr e ↦ jump_loop-cons cp jump rest pc ps.0 false e (jump_loop-Jumped cp rest pc ps.1)
  ]

  -- The whole sort: it returns, in order, a permutation of its list.
  pub record Sorted (left : ℕ) (list : List Symbol) : Type 0 where
    pub out : List Symbol
    pub returns : cp_loop reversed left list m ≡ ok out m
    pub perm : Perm out list
    pub sorted : IsSorted gt out
    pub keeps : All P out
    pub same_size : length out ≡ length list
    pub above : (c : Symbol) → All (λ s. gt c s ≡ false) list → All (λ s. gt c s ≡ false) out

  Sorted-cons :
      (left : ℕ) (x : Symbol) (xs : List Symbol) (j : Jumped x xs)
      → Sorted left j.others
      → Sorted (suc left) (x ∷ xs)
  unfolding cp_loop
  Sorted-cons left x xs j r = record {
    out = j.least ∷ r.out;
    returns = step _ _ j.returns ∙ step _ _ r.returns;
    perm = Perm.trans (Perm.cons j.least r.perm) j.perm;
    sorted = (r.above j.least j.below_all, r.sorted);
    keeps = (j.keeps.0, r.keeps);
    same_size = ap suc (r.same_size ∙ j.size);
    above = λ c h. let k = j.above c h.0 h.1 in (k.0, r.above c k.1);
  }

  pub cp_loop-Sorted :
      (left : ℕ) (list : List Symbol) → length list ≡ left → All P list → Sorted left list
  unfolding cp_loop
  cp_loop-Sorted zero [] e ps = record {
    out = [];
    returns = refl;
    perm = Perm.nil;
    sorted = tt;
    keeps = tt;
    same_size = refl;
    above = λ c h. tt;
  }
  cp_loop-Sorted zero (x ∷ xs) e ps = absurd (ground arith)
  cp_loop-Sorted (suc left) [] e ps = absurd (ground arith)
  cp_loop-Sorted (suc left) (x ∷ xs) e ps =
      let j = jump_loop-Jumped x xs ps.0 ps.1 in
      Sorted-cons left x xs j (cp_loop-Sorted left j.others (j.size ∙ omega arith) j.keeps.1)
