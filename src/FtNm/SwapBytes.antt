-- ===== src/FtNm/SwapBytes.antt =====
-- swap_bytes.c: the byte order of integers, and of the bytes in the mapping.
pub mod Words
pub mod Reverse
use nm.Common.{ℕ, zero, suc, ◌+◌, ◌*◌, ◌/◌, ◌%◌, ◌^◌, bit_and, bit_or, leb, if◌then◌else◌}
use nm.Machine.{Ptr, Proc, ◌>>=◌, ◌>>◌, pure, ◌⊕◌, read8, write8}

-- Shifts of an unsigned integer of `w` bits.
abbrev pub shift_left : ℕ → ℕ → ℕ → ℕ
shift_left w x k = (x * 2 ^ k) % 2 ^ w

abbrev pub shift_right : ℕ → ℕ → ℕ
shift_right x k = x / 2 ^ k

unfoldable pub swap_uint32 : ℕ → ℕ
swap_uint32 n =
    let pairs =
      bit_or (bit_and (shift_left 32 n 8) 0xff00ff00) (bit_and (shift_right n 8) 0x00ff00ff) in
    bit_or (shift_left 32 pairs 16) (shift_right pairs 16)

unfoldable pub swap_uint64 : ℕ → ℕ
swap_uint64 n =
    let pairs =
      bit_or (bit_and (shift_left 64 n 8) 0xff00ff00ff00ff00)
        (bit_and (shift_right n 8) 0x00ff00ff00ff00ff) in
    let quads =
      bit_or (bit_and (shift_left 64 pairs 16) 0xffff0000ffff0000)
        (bit_and (shift_right pairs 16) 0x0000ffff0000ffff) in
    bit_or (shift_left 64 quads 32) (shift_right quads 32)

-- `while (++i <= --j)`: a round at the new `i`, and the old `j`, which is the new one's successor.
unfoldable pub swap_loop : Ptr → ℕ → ℕ → Proc (Unit {0})
swap_loop p i zero = pure tt
swap_loop p i (suc j) =
    if leb i j
    then (do
      temp ← read8 (p ⊕ i)
      other ← read8 (p ⊕ j)
      write8 (p ⊕ i) other
      write8 (p ⊕ j) temp
      swap_loop p (i + 1) j)
    else pure tt

unfoldable pub swap_endiane : Ptr → ℕ → Proc (Unit {0})
swap_endiane p byte = swap_loop p 0 byte

unfoldable pub swap_32 : Ptr → Proc (Unit {0})
swap_32 p = swap_endiane p 4

unfoldable pub swap_64 : Ptr → Proc (Unit {0})
swap_64 p = swap_endiane p 8
