-- ===== src/FtOtool/Dump.antt =====
-- dump.c: what is printed of a section, as the sequence of the calls that print it.
pub mod Bytes
pub mod Rows
use nm.Common.{
  ℕ, zero, suc, ◌+◌, ◌*◌, ◌^◌, ◌%◌, Bool, not, List, [], ◌∷◌, ◌++◌, ltb, ◌==◌, if◌then◌else◌,
}
use nm.Machine.{Ptr, Proc, ◌>>=◌, ◌>>◌, pure, ◌⊕◌, asks, read8, read_word, write_le}
use nm.FtNm.Safe.{is_safe}

pub data Status : Type 0 where
  success failure : Status

-- ft_printf("%.2x", b), ft_printf("%.2x ", b), ft_printf("%s", "\t"), ft_printf("\n"), and ft_putstr of
-- the heading
pub data Call : Type 0 where
  put_byte : ℕ → Call
  put_byte_space : ℕ → Call
  put_tab put_newline put_heading : Call

-- The loop of `hexdump_address`, with `count` as it is before it is counted down.
unfoldable pub address_loop : Ptr → ℕ → Proc (List Call)
address_loop add zero = pure []
address_loop add (suc count) = do
  test ← read8 (add ⊕ count)
  rest ← address_loop add count
  pure (put_byte test ∷ rest)

unfoldable pub hexdump_address : Ptr → Bool → Proc (List Call)
hexdump_address add is_64 = address_loop add (if is_64 then 8 else 4)

-- The loop of `hexdump_data` at `j`, with the rounds that are left; `j + i` is one of 64 bits.
unfoldable pub data_loop : Ptr → (i size : ℕ) → (j : ℕ) → ℕ → Proc (List Call)
data_loop add i size j zero = pure []
data_loop add i size j (suc left) = if (j + i) % 2 ^ 64 == size then pure [] else do
  test ← read8 (add ⊕ j)
  rest ← data_loop add i size (j + 1) left
  pure (put_byte_space test ∷ rest)

unfoldable pub hexdump_data : Ptr → (i size : ℕ) → Proc (List Call)
hexdump_data add i size = data_loop add i size 0 16

-- `*(uint64_t *)add += 16`, or with 32 bits
unfoldable pub add_16 : Ptr → Bool → Proc (Unit {0})
add_16 add is_64 = do
  value ← read_word is_64 add
  write_le (if is_64 then 8 else 4) add (value + 16)

-- The loop of `dump_section` at `i`. A round goes 16 bytes on, and stops when it has left the file,
-- whose size has 32 bits: 2 ^ 28 + 1 rounds are enough.
unfoldable pub dump_loop :
    (add : Ptr) (is_64 : Bool) (size : ℕ) (from : Ptr) → (i : ℕ) → ℕ → Proc (Status × List Call)
dump_loop add is_64 size from i zero = pure (success, [])
dump_loop add is_64 size from i (suc left) = if not (ltb i size) then pure (success, []) else do
  safe ← asks (is_safe (from ⊕ i))
  if not safe then pure (failure, []) else do
    address ← hexdump_address add is_64
    line ← hexdump_data (from ⊕ i) i size
    add_16 add is_64
    (status, rest) ← dump_loop add is_64 size from ((i + 16) % 2 ^ 64) left
    pure (status, address ++ (put_tab ∷ line) ++ (put_newline ∷ rest))

-- `add` is the field `addr` of the section, which is changed; `size` and `offset` are those of `nb`.
unfoldable pub dump_section :
    (add : Ptr) (is_64 : Bool) (size offset : ℕ) → Ptr → Proc (Status × List Call)
dump_section add is_64 size offset p = dump_loop add is_64 size (p ⊕ offset) 0 (2 ^ 28 + 1)
