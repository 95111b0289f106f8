-- ===== src/Libft/Buffer.antt =====
-- Memory from `malloc`, or an array of chars: bytes that may not have been set yet. A write outside is a
-- fault, and so is a read of a byte that was not set, for which `written` ends.
pub mod Laws
use nm.Common.{ℕ, zero, suc, ◌+◌, Option, none, some, List, [], ◌∷◌, get_elem?, set, replicate}

abbrev pub Buffer : Type 0
Buffer = List (Option ℕ)

abbrev pub malloc : ℕ → Buffer
malloc n = replicate n none

-- `buf[i] = c`
unfoldable pub store : Buffer → ℕ → ℕ → Option Buffer
store buf i c = elim (get_elem? buf i) [ none ↦ none | some old ↦ some (set buf i (some c)) ]

-- The bytes from the start on that can be read.
unfoldable pub written : Buffer → List ℕ
written [] = []
written (none ∷ buf) = []
written (some c ∷ buf) = c ∷ written buf
