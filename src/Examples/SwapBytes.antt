-- ===== src/Examples/SwapBytes.antt =====
-- swap_bytes.c at concrete inputs.
use nm.Common.{ℕ, ◌≡◌, refl, List, [], ◌∷◌, arith}
use nm.Machine.{Machine, ok, ◌>>=◌, byte_at, read32, read8, write8}
use nm.Machine.Access.{with_bytes}
use nm.FtNm.SwapBytes.{swap_uint32, swap_endiane, swap_loop, swap_32}
use nm.FtNm.SwapBytes.Words.{quad, swap_uint32-quad}
use nm.FtNm.SwapElements.Fields.{Field, field_bytes, turned, swap_32-swap_uint32}
use nm.FtNm.SwapBytes.Reverse.{swap_endiane-reverse}

abbrev pub small : Machine
small = record { g_begin = 0x1000; g_map_size = 6; bytes = 9 ∷ 1 ∷ 2 ∷ 3 ∷ 4 ∷ 8 ∷ [] }

swap_magic : swap_uint32 0xcefaedfe ≡ 0xfeedface
unfolding swap_uint32
swap_magic = refl

swap_in_place : swap_32 0x1001 small ≡ ok tt (with_bytes small (9 ∷ 4 ∷ 3 ∷ 2 ∷ 1 ∷ 8 ∷ []))
unfolding swap_32 swap_endiane swap_loop read8 write8 byte_at ◌>>=◌
swap_in_place = refl

swap_uint32-quad_example : swap_uint32 (quad 1 2 3 4) ≡ quad 4 3 2 1
swap_uint32-quad_example =
    swap_uint32-quad 1 2 3 4 (omega arith) (omega arith) (omega arith) (omega arith)

abbrev middle : List ℕ
middle = 1 ∷ 2 ∷ 3 ∷ 4 ∷ []

swap_endiane-reverse_example :
    swap_endiane 0x1001 4 small ≡ ok tt (with_bytes small (9 ∷ 4 ∷ 3 ∷ 2 ∷ 1 ∷ 8 ∷ []))
swap_endiane-reverse_example =
    swap_endiane-reverse small 0x1001 (9 ∷ []) middle (8 ∷ []) refl (omega arith) (omega arith)

abbrev field : Field
field = record { a = 1; b = 2; c = 3; d = 4 }

swap_32-swap_uint32_example :
    (v : ℕ) × (m' : Machine) × (read32 0x1001 small ≡ ok v small)
    × (swap_32 0x1001 small ≡ ok tt m')
    × (read32 0x1001 m' ≡ ok (swap_uint32 v) m')
    × (m'.bytes ≡ 9 ∷ 4 ∷ 3 ∷ 2 ∷ 1 ∷ 8 ∷ [])
unfolding field_bytes turned
swap_32-swap_uint32_example =
    swap_32-swap_uint32 small 0x1001 (9 ∷ []) (8 ∷ []) field (omega arith) (omega arith)
      (omega arith) (omega arith) refl (omega arith) (omega arith)
