-- ===== src/Machine.antt =====
-- The memory that the program works on: the file that `mmap` mapped, with the globals `g_begin` and
-- `g_map_size` (include/ft_nm/nm_otool.h), and the monad of code that reads and writes it.
-- A pointer is a 64-bit address. `bytes` are the bytes that are mapped from `g_begin` on; they may
-- go on past `g_map_size`, to the end of the last page. A read or a write outside of them is a
-- fault. Integers are little-endian, as on the machines that the program is built for.
pub mod Access
pub mod Steps
pub mod Respects
pub mod Words
use mathlib.Core.Option
use nm.Common.{
  ℕ, zero, suc, ◌+◌, ◌-◌, ◌*◌, ◌/◌, ◌%◌, ◌^◌, ◌≤◌, ◌<◌, Bool, true, false, Option, none, some, List,
  [], ◌∷◌, ◌++◌, ltb, if◌then◌else◌, length, get_elem?, set, drop,
}

pub record Machine : Type 0 where
  pub g_begin : ℕ
  pub g_map_size : ℕ
  pub bytes : List ℕ

abbrev pub Ptr : Type 0
Ptr = ℕ

pub data Run {ℓ} (A : Type ℓ) : Type ℓ where
  ok : A → Machine → Run A
  fault : Run A

abbrev pub Proc : Type 0 → Type 0
Proc A = Machine → Run A

abbrev pub pure : {A : Type 0} → A → Proc A
pure a m = ok a m

infixl 5 ◌>>=◌ ◌>>◌
unfoldable pub ◌>>=◌ : {A B : Type 0} → Proc A → (A → Proc B) → Proc B
◌>>=◌ p k m = elim (p m) [ ok a m' ↦ k a m' | fault ↦ fault ]

abbrev pub ◌>>◌ : {A B : Type 0} → Proc A → Proc B → Proc B
p >> k = p >>= λ _. k

-- Code that only looks at the memory, and may fault.
abbrev pub look : {A : Type 0} → (Machine → Option A) → Proc A
look f m = elim (f m) [ none ↦ fault | some a ↦ ok a m ]

-- Pointer arithmetic, and the two's complement of the address space.
infixl 65 ◌⊕◌
abbrev pub ◌⊕◌ : Ptr → ℕ → Ptr
p ⊕ k = (p + k) % 2 ^ 64

unfoldable pub byte_at : Machine → Ptr → Option ℕ
byte_at m p = if ltb p m.g_begin then none else get_elem? m.bytes (p - m.g_begin)

-- The bytes from a pointer on: what a `char *` into the mapping can be read through.
unfoldable pub string_at : Machine → Ptr → List ℕ
string_at m p = if ltb p m.g_begin then [] else drop (p - m.g_begin) m.bytes

unfoldable pub read8 : Ptr → Proc ℕ
read8 p = look (λ m. byte_at m p)

unfoldable pub write8 : Ptr → ℕ → Proc (Unit {0})
write8 p v m = elim (byte_at m p) [
  | none ↦ fault
  | some _ ↦ ok tt (record m { bytes = set m.bytes (p - m.g_begin) v })
]

-- An unsigned integer of `n` bytes, the lowest byte first.
unfoldable pub read_le : ℕ → Ptr → Proc ℕ
read_le zero p = pure 0
read_le (suc n) p = do b ← read8 p; rest ← read_le n (p ⊕ 1); pure (b + 256 * rest)

abbrev pub read16 : Ptr → Proc ℕ
read16 = read_le 2

abbrev pub read32 : Ptr → Proc ℕ
read32 = read_le 4

abbrev pub read64 : Ptr → Proc ℕ
read64 = read_le 8

unfoldable pub write_le : ℕ → Ptr → ℕ → Proc (Unit {0})
write_le zero p v = pure tt
write_le (suc n) p v = do write8 p (v % 256); write_le n (p ⊕ 1) (v / 256)

-- A test of the memory that changes nothing.
abbrev pub asks : {A : Type 0} → (Machine → A) → Proc A
asks f m = ok (f m) m

-- `if (c) p;`
abbrev pub when : Bool → Proc (Unit {0}) → Proc (Unit {0})
when true p = p
when false p = pure tt

-- Fields of a structure at `p`.
abbrev pub read_word : Bool → Ptr → Proc ℕ
read_word is_64 p = if is_64 then read64 p else read32 p
