-- ===== src/FtNm/Flags/Laws.antt =====
-- What `set_flags_nm` of set_flag.c makes of a command line, for every command line.
use mathlib.Core.Path.{subst}
use nm.Common.{
  length-replicate, get_elem?-middle, ℕ, suc, ◌+◌, ◌-◌, ◌≤◌, ◌≡◌, refl, sym, ap, ◌∙◌, none, some,
  List, [], ◌∷◌, ◌++◌, ◌==◌, arith, length, length-append, get_elem?, replicate, Option-cases,
  Bool-cases, inl, inr,
}
use nm.FtNm.Flags.{Flags, Parsed, parsed, is_flag, add_flags, flags_loop, set_flags_nm}
use nm.FtNm.Flags.Spec.{contains, collect, first_bad, option_letters, option_count, buffer, finish}
use nm.FtNm.Flags.Buffer.{
  one_if, letters_in, IsSeen, with_letter, IsSeen-le, add_flag-buffer, IsSeen-with_letter,
}

add_flags-buffer :
    (seen s : List ℕ)
    → IsSeen seen
    → add_flags (buffer seen) s ≡ finish (first_bad s) (buffer (collect seen s))
unfolding add_flags first_bad collect
add_flags-buffer seen [] v = refl
add_flags-buffer seen (c ∷ s) v = elim (Bool-cases (is_flag c)) [
  | inl flag ↦
      rw (flag, add_flag-buffer c seen flag v)
        (add_flags-buffer (with_letter c seen) s (IsSeen-with_letter c seen flag v))
  | inr bad ↦ rw bad
]

IsSeen-collect : (seen s : List ℕ) → first_bad s ≡ none → IsSeen seen → IsSeen (collect seen s)
unfolding first_bad collect
IsSeen-collect seen [] h v = v
IsSeen-collect seen (c ∷ s) h v = elim (Bool-cases (is_flag c)) [
  | inl flag ↦
      IsSeen-collect (with_letter c seen) s (ground arith) (IsSeen-with_letter c seen flag v)
  | inr bad ↦ absurd (ground arith)
]

collect-append : (seen s t : List ℕ) → collect seen (s ++ t) ≡ collect (collect seen s) t
unfolding collect
collect-append seen [] t = refl
collect-append seen (c ∷ s) t = collect-append (with_letter c seen) s t

first_bad-append-none : (s t : List ℕ) → first_bad s ≡ none → first_bad (s ++ t) ≡ first_bad t
unfolding first_bad
first_bad-append-none [] t h = refl
first_bad-append-none (c ∷ s) t h = ground (arith, first_bad-append-none s t)

first_bad-append-some : (s t : List ℕ) (b : ℕ) → first_bad s ≡ some b → first_bad (s ++ t) ≡ some b
unfolding first_bad
first_bad-append-some [] t b h = absurd (ground arith)
first_bad-append-some (c ∷ s) t b h = ground (arith, first_bad-append-some s t b)

flags_loop-end :
    (seen : List ℕ) (ct : ℕ)
    → ◌≡◌ {A = Parsed (Flags × ℕ)}
        (parsed (buffer seen, ct))
        (finish (first_bad []) (buffer (collect seen []), ct + 0))
unfolding first_bad collect
flags_loop-end seen ct = ap (λ (n : ℕ). parsed (buffer seen, n)) (omega arith)

add_count : (a b : ℕ) → a + 1 + b ≡ a + suc b
add_count a b = omega arith

IsSeen-nil : IsSeen []
unfolding letters_in one_if contains
IsSeen-nil = record { counted = refl; no_nul = refl }

pub collect-IsSeen : (s : List ℕ) → first_bad s ≡ none → IsSeen (collect [] s)
collect-IsSeen s h = IsSeen-collect [] s h IsSeen-nil

flags_loop-finish :
    (av : List (List ℕ)) (seen : List ℕ) (ct : ℕ)
    → IsSeen seen
    → flags_loop (buffer seen) ct av
      ≡ finish
          (first_bad (option_letters av))
          (buffer (collect seen (option_letters av)), ct + option_count av)
unfolding flags_loop option_letters option_count
flags_loop-finish [] seen ct v = flags_loop-end seen ct
flags_loop-finish ([] ∷ av) seen ct v = flags_loop-end seen ct
flags_loop-finish ((d ∷ []) ∷ av) seen ct v = flags_loop-end seen ct
flags_loop-finish ((d ∷ c ∷ s) ∷ av) seen ct v = elim (Bool-cases (d == b'-')) [
  | inr other ↦ rw other (flags_loop-end seen ct)
  | inl dash ↦
      rw (dash, add_flags-buffer seen (c ∷ s) v)
        (elim (Option-cases (first_bad (c ∷ s))) [
          | inr (b, bad) ↦ rw (bad, first_bad-append-some (c ∷ s) (option_letters av) b bad)
          | inl good ↦
              rw
                (
                  good,
                  first_bad-append-none (c ∷ s) (option_letters av) good,
                  collect-append seen (c ∷ s) (option_letters av),
                  flags_loop-finish av (collect seen (c ∷ s)) (ct + 1)
                      (IsSeen-collect seen (c ∷ s) good v),
                )
                (rw (add_count ct (option_count av)))
        ])
]

-- For every command line: `set_flags_nm` never looks or writes outside of its buffer of 10 chars. If
-- the option arguments hold a char that is no option, the result is the usage message at the first
-- such char; if not, the buffer holds the letters, each once and in the order of their first
-- occurrence, with NULs behind them, and the count is one more than that of the option arguments.
pub set_flags_nm-finish :
    (av : List (List ℕ))
    → set_flags_nm av
      ≡ finish
          (first_bad (option_letters av))
          (buffer (collect [] (option_letters av)), 1 + option_count av)
unfolding set_flags_nm
set_flags_nm-finish av = flags_loop-finish av [] 1 IsSeen-nil

abbrev pub IsBuffer : Flags → Type 0
IsBuffer f = (f.i ≤ 6) × (length f.flags ≡ 10) × (get_elem? f.flags f.i ≡ some 0)

buffer-IsBuffer : {seen : List ℕ} → IsSeen seen → IsBuffer (buffer seen)
buffer-IsBuffer {seen} v =
    let zeros : List ℕ = replicate (9 - length seen) 0 in
    let fits : length seen ≤ 6 = IsSeen-le v in
    let room : 10 - length seen ≡ suc (9 - length seen) = omega arith in
    (
      fits,
      length-append seen (replicate (10 - length seen) 0)
          ∙ rw (length-replicate {A = ℕ} (10 - length seen) 0) (omega arith),
      rw room (get_elem?-middle seen 0 zeros),
    )

parsed-injective : {p q : Flags × ℕ} → parsed p ≡ parsed q → p ≡ q
parsed-injective e = cc

-- What the buffer holds after a successful `set_flags_nm`: at most six letters, and a NUL behind them.
pub set_flags_nm-bounds :
    (av : List (List ℕ)) (f : Flags) (ct : ℕ) → set_flags_nm av ≡ parsed (f, ct) → IsBuffer f
set_flags_nm-bounds av f ct h = elim (Option-cases (first_bad (option_letters av))) [
  | inr (b, bad) ↦ absurd (ground (arith, set_flags_nm-finish av, bad))
  | inl good ↦
      let v = IsSeen-collect [] (option_letters av) good IsSeen-nil in
      let e : parsed (f, ct)
          ≡ parsed (buffer (collect [] (option_letters av)), 1 + option_count av) =
        sym h ∙ set_flags_nm-finish av ∙ rw good refl in
      let same : f ≡ buffer (collect [] (option_letters av)) =
        ap (λ (p : Flags × ℕ). p.0) (parsed-injective e) in
      subst IsBuffer (sym same) (buffer-IsBuffer v)
]
