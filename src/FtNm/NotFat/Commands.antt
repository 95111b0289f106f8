-- ===== src/FtNm/NotFat/Commands.antt =====
-- The walk of `get_nm_list` over the load commands of an object in the byte order of the machine.
use nm.Common.{ℕ, zero, suc, ◌+◌, ◌-◌, ◌<◌, ◌≡◌, refl, ap, ◌∙◌, Bool, true, false, ◌==◌, arith}
use nm.Macho.{cmdsize_offset, lc_symtab, sizeof_load_command}
use nm.Machine.{Machine, Ptr, ok, ◌⊕◌, read32}
use nm.Machine.Steps.{step}
use nm.FtNm.Safe.{is_safe}
use nm.FtNm.Get.{Lc}
use nm.FtNm.NotFat.{list_symtab, command_loop, get_nm_list}

-- The load command at `lc`, of kind `cmd` and of `size` bytes.
pub record IsCommand (m : Machine) (lc : Ptr) (cmd size : ℕ) : Type 0 where
  pub in_file : is_safe (lc ⊕ sizeof_load_command) m ≡ true
  pub kind : read32 lc m ≡ ok cmd m
  pub sized : read32 (lc ⊕ cmdsize_offset) m ≡ ok size m

-- Load commands from `lc` to `last`, one behind the other, none of which is LC_SYMTAB.
pub data Skipped (m : Machine) : Ptr → Ptr → ℕ → Type 0 where
  here : {lc : Ptr} → Skipped m lc lc 0
  next :
      {lc last : Ptr} {n : ℕ} (cmd size : ℕ)
      → IsCommand m lc cmd size
      → (cmd == lc_symtab) ≡ false
      → Skipped m (lc ⊕ size) last n
      → Skipped m lc last (suc n)

command_loop-Skipped :
    {m : Machine} {lc last : Ptr} {n : ℕ} (p : Ptr) (x : Bool) (left k : ℕ)
    → Skipped m lc last n
    → k ≡ n + left
    → command_loop p false x k lc m ≡ command_loop p false x left last m
unfolding command_loop
command_loop-Skipped {m} {lc} p x left k here e =
    ap (λ (k : ℕ). command_loop p false x k lc m) (omega arith)
command_loop-Skipped p x left zero (next cmd size c other rest) e = absurd (omega arith)
command_loop-Skipped {m} {lc} p x left (suc k) (next cmd size c other rest) e =
    step _ _ refl
    ∙ rw c.in_file (
        step _ _ refl
        ∙ step _ _ c.kind
        ∙ rw other (step _ _ c.sized ∙ command_loop-Skipped p x left k rest (omega arith)))

-- Where the load commands of an object in the byte order of the machine are well formed up to the
-- first LC_SYMTAB, and this one is among the first `number_cmds`, `get_nm_list` is `list_symtab` of
-- that command.
pub get_nm_list-Skipped :
    (m : Machine) (info : Lc) (p lc : Ptr) (x : Bool) (n size : ℕ)
    → Skipped m (p ⊕ info.offset_cmds) lc n
    → IsCommand m lc lc_symtab size
    → n < info.number_cmds
    → get_nm_list info p false x m ≡ list_symtab lc p false x m
unfolding get_nm_list command_loop
get_nm_list-Skipped m info p lc x n size skipped c lt =
    command_loop-Skipped p x (suc (info.number_cmds - n - 1)) info.number_cmds skipped (omega arith)
    ∙ step _ _ refl
    ∙ rw c.in_file (step _ _ refl ∙ step _ _ c.kind)
