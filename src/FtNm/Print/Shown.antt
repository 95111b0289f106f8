-- ===== src/FtNm/Print/Shown.antt =====
-- `can_show_list` by what the options ask for.
use nm.Common.{
  ℕ, suc, ◌-◌, ◌≤◌, ◌≡◌, ◌≢◌, refl, Bool, true, false, not, ◌&&◌, ◌||◌, Option, some, List, ◌==◌,
  if◌then◌else◌, arith, length, replicate, Bool-cases, inl, inr,
}
use nm.FtNm.Flags.Spec.{contains, buffer}
use nm.FtNm.Flags.Buffer.{ft_strchr-absent, ft_strchr-present}
use nm.FtNm.Print.{with_flag, is_extern, can_show_list}

-- A kind of symbol: undefined, external, or the '-' of a debugging entry.
abbrev pub is_undefined : ℕ → Bool
is_undefined type = type == b'u' || type == b'U'

-- What is to be shown where each option takes symbols away on its own: debugging entries always, with
-- u those that are not undefined, with U the undefined ones, with g those that are not external.
unfoldable pub shows : (u defined g : Bool) → (type : ℕ) → Bool
unfolding is_extern
shows u defined g type =
    not (type == b'-')
    && (not u || is_undefined type)
    && (not defined || not (is_undefined type))
    && (not g || is_extern type)

with_flag-buffer :
    {A : Type 0} (seen : List ℕ) (c : ℕ) (k : Bool → Option A)
    → c ≢ 0
    → contains 0 seen ≡ false
    → length seen ≤ 9
    → with_flag (buffer seen).flags c k ≡ k (contains c seen)
with_flag-buffer seen c k nz z fits = elim (Bool-cases (contains c seen)) [
  | inl here ↦
      let (i, e) = ft_strchr-present c seen (replicate (10 - length seen) 0) z here in
      rw (e, with_flag, here) refl
  | inr gone ↦
      let room : 10 - length seen ≡ suc (9 - length seen) = omega arith in
      let e = ft_strchr-absent c seen (9 - length seen) nz z gone in
      rw (room, e, with_flag, gone) refl
]

shown_by :
    (u defined g : Bool) (type : ℕ)
    → (if type == b'-'
        then some false
        else if u && defined
        then some false
        else if u
        then some (if g then type == b'U' else type == b'u' || type == b'U')
        else if defined
        then some (
            if g
            then is_extern type && not (type == b'U')
            else not (type == b'u') && not (type == b'U'))
        else some true)
      ≡ some (shows u defined (g && (u || defined)) type)
unfolding shows is_extern
shown_by true true g type = ground arith
shown_by true false true type = ground arith
shown_by true false false type = ground arith
shown_by false true true type = ground arith
shown_by false true false type = ground arith
shown_by false false g type = ground arith

-- With the letters of the options in the buffer, of which there are at most nine and no NUL,
-- `can_show_list` does not read outside of it, and shows what the options u, U and g leave when each
-- takes symbols away on its own (debugging entries are never shown, u leaves the undefined symbols,
-- U the others, g the external ones), but that g without u or U takes none away.
pub can_show_list-shows :
    (type : ℕ) (seen : List ℕ)
    → contains 0 seen ≡ false
    → length seen ≤ 9
    → can_show_list type (buffer seen).flags
      ≡ some (
          shows
            (contains b'u' seen)
            (contains b'U' seen)
            (contains b'g' seen && (contains b'u' seen || contains b'U' seen))
            type)
unfolding can_show_list
can_show_list-shows type seen z fits =
    rw
      (
        with_flag-buffer seen b'u' _ (omega arith) z fits,
        with_flag-buffer seen b'U' _ (omega arith) z fits,
        with_flag-buffer seen b'g' _ (omega arith) z fits,
        with_flag-buffer seen b'g' _ (omega arith) z fits,
      )
      (shown_by (contains b'u' seen) (contains b'U' seen) (contains b'g' seen) type)
