-- ===== src/FtNm/SwapBytes/Words.antt =====
-- `swap_uint32` and `swap_uint64` (swap_bytes.c) by the bytes of an integer.
use Prim.Native.Nat.{bit_and, bit_or}
use nm.Common.{
  ℕ, zero, suc, ◌+◌, ◌*◌, ◌/◌, ◌%◌, ◌^◌, ◌<◌, ◌≡◌, refl, Bool, true, ◌&&◌, ◌==◌, arith, sym, ap,
  ◌∙◌,
}
use nm.Common.Bits.{bit_and-split, bit_or-split}
use nm.FtNm.SwapBytes.{shift_left, shift_right, swap_uint32, swap_uint64}

-- The number with the bytes `a b c d`, the highest first.
abbrev pub quad : ℕ → ℕ → ℕ → ℕ → ℕ
quad a b c d = ((a * 2 ^ 8 + b) * 2 ^ 8 + c) * 2 ^ 8 + d

abbrev pub oct : ℕ → ℕ → ℕ
oct high low = high * 2 ^ 32 + low

checks_below : ℕ → (ℕ → Bool) → Bool
checks_below zero p = true
checks_below (suc n) p = p n && checks_below n p

checks_below_at : (n : ℕ) (p : ℕ → Bool) (x : ℕ) → x < n → checks_below n p ≡ true → p x ≡ true
unfolding checks_below
checks_below_at zero p x lt h = absurd (omega arith)
checks_below_at (suc n) p x lt h = ground (arith, checks_below_at n p x)

-- What a byte of a mask does to a byte.
byte_laws : ℕ → Bool
byte_laws x = (bit_and x 255 == x) && (bit_and x 0 == 0) && (bit_or x 0 == x) && (bit_or 0 x == x)

byte_table : checks_below 256 byte_laws ≡ true
unfolding checks_below byte_laws
byte_table = refl

byte_law :
    (x : ℕ)
    → x < 256
    → (bit_and x 255 ≡ x) × (bit_and x 0 ≡ 0) × (bit_or x 0 ≡ x) × (bit_or 0 x ≡ x)
unfolding byte_laws
byte_law x h = let holds = checks_below_at 256 byte_laws x h byte_table in ground arith

module _ (a b c d e f g h : ℕ) (hb : b < 256) (hc : c < 256) (hd : d < 256) (hf : f < 256)
    (hg : g < 256) (hh : h < 256) where
  bit_and-quad :
      bit_and (quad a b c d) (quad e f g h)
      ≡ quad (bit_and a e) (bit_and b f) (bit_and c g) (bit_and d h)
  bit_and-quad = rw (
    bit_and-split 8 ((a * 2 ^ 8 + b) * 2 ^ 8 + c) ((e * 2 ^ 8 + f) * 2 ^ 8 + g) d h hd hh,
    bit_and-split 8 (a * 2 ^ 8 + b) (e * 2 ^ 8 + f) c g hc hg,
    bit_and-split 8 a e b f hb hf,
  )

  bit_or-quad :
      bit_or (quad a b c d) (quad e f g h)
      ≡ quad (bit_or a e) (bit_or b f) (bit_or c g) (bit_or d h)
  bit_or-quad = rw (
    bit_or-split 8 ((a * 2 ^ 8 + b) * 2 ^ 8 + c) ((e * 2 ^ 8 + f) * 2 ^ 8 + g) d h hd hh,
    bit_or-split 8 (a * 2 ^ 8 + b) (e * 2 ^ 8 + f) c g hc hg,
    bit_or-split 8 a e b f hb hf,
  )

module _ (a b c d : ℕ) (ha : a < 256) (hb : b < 256) (hc : c < 256) (hd : d < 256) where
  mask_odd : bit_and (quad a b c d) 0xff00ff00 ≡ quad a 0 c 0
  mask_odd =
      bit_and-quad a b c d 255 0 255 0 hb hc hd (omega arith) (omega arith) (omega arith)
      ∙ rw ((byte_law a ha).0, (byte_law b hb).1, (byte_law c hc).0, (byte_law d hd).1)

  mask_even : bit_and (quad a b c d) 0x00ff00ff ≡ quad 0 b 0 d
  mask_even =
      bit_and-quad a b c d 0 255 0 255 hb hc hd (omega arith) (omega arith) (omega arith)
      ∙ rw ((byte_law a ha).1, (byte_law b hb).0, (byte_law c hc).1, (byte_law d hd).0)

  join_pairs : bit_or (quad a 0 c 0) (quad 0 b 0 d) ≡ quad a b c d
  join_pairs =
      bit_or-quad a 0 c 0 0 b 0 d (omega arith) hc (omega arith) hb (omega arith) hd
      ∙ rw ((byte_law a ha).2, (byte_law b hb).3, (byte_law c hc).2, (byte_law d hd).3)

  join_halves : bit_or (quad a b 0 0) (quad 0 0 c d) ≡ quad a b c d
  join_halves =
      bit_or-quad a b 0 0 0 0 c d hb (omega arith) (omega arith) (omega arith) hc hd
      ∙ rw ((byte_law a ha).2, (byte_law b hb).2, (byte_law c hc).3, (byte_law d hd).3)

module _ (a b c d : ℕ) (ha : a < 256) (hb : b < 256) (hc : c < 256) (hd : d < 256) where
  shifts :
      (shift_left 32 (quad a b c d) 8 ≡ quad b c d 0)
      × (shift_right (quad a b c d) 8 ≡ quad 0 a b c)
      × (shift_left 32 (quad a b c d) 16 ≡ quad c d 0 0)
      × (shift_right (quad a b c d) 16 ≡ quad 0 0 a b)
  shifts = omega arith

module _ (a b c d : ℕ) (ha : a < 256) (hb : b < 256) (hc : c < 256) (hd : d < 256) where
  -- `swap_uint32` reverses the four bytes of its argument.
  pub swap_uint32-quad : swap_uint32 (quad a b c d) ≡ quad d c b a
  unfolding swap_uint32
  swap_uint32-quad =
      rw
        (
          (shifts a b c d ha hb hc hd).0,
          (shifts a b c d ha hb hc hd).1,
          mask_odd b c d 0 hb hc hd (omega arith),
          mask_even 0 a b c (omega arith) ha hb hc,
          join_pairs b a d c hb ha hd hc,
          (shifts b a d c hb ha hd hc).2,
          (shifts b a d c hb ha hd hc).3,
        )
        (join_halves d c b a hd hc hb ha)

-- Every 32-bit number has such bytes.
pub quad-bytes :
    (n : ℕ) → n < 2 ^ 32 → n ≡ quad (n / 2 ^ 24) (n / 2 ^ 16 % 256) (n / 2 ^ 8 % 256) (n % 256)
quad-bytes n h = omega arith

pub swap_uint32-lt : (n : ℕ) → n < 2 ^ 32 → swap_uint32 n < 2 ^ 32
swap_uint32-lt n h =
    rw
      (
        quad-bytes n h,
        swap_uint32-quad (n / 2 ^ 24) (n / 2 ^ 16 % 256) (n / 2 ^ 8 % 256) (n % 256) (omega arith)
            (omega arith) (omega arith) (omega arith),
      )
      (omega arith)

-- `swap_uint32` undoes itself on every `uint32_t`.
pub swap_uint32-swap_uint32 : (n : ℕ) → n < 2 ^ 32 → swap_uint32 (swap_uint32 n) ≡ n
swap_uint32-swap_uint32 n h =
    let e = quad-bytes n h in
    let there =
      swap_uint32-quad (n / 2 ^ 24) (n / 2 ^ 16 % 256) (n / 2 ^ 8 % 256) (n % 256) (omega arith)
        (omega arith) (omega arith) (omega arith) in
    let back =
      swap_uint32-quad (n % 256) (n / 2 ^ 8 % 256) (n / 2 ^ 16 % 256) (n / 2 ^ 24) (omega arith)
        (omega arith) (omega arith) (omega arith) in
    ap (λ (k : ℕ). swap_uint32 (swap_uint32 k)) e ∙ ap swap_uint32 there ∙ back ∙ sym e

module _ (a b c d : ℕ) (ha : a < 256) (hb : b < 256) (hc : c < 256) (hd : d < 256) where
  mask_high : bit_and (quad a b c d) 0xffff0000 ≡ quad a b 0 0
  mask_high =
      bit_and-quad a b c d 255 255 0 0 hb hc hd (omega arith) (omega arith) (omega arith)
      ∙ rw ((byte_law a ha).0, (byte_law b hb).0, (byte_law c hc).1, (byte_law d hd).1)

  mask_low : bit_and (quad a b c d) 0x0000ffff ≡ quad 0 0 c d
  mask_low =
      bit_and-quad a b c d 0 0 255 255 hb hc hd (omega arith) (omega arith) (omega arith)
      ∙ rw ((byte_law a ha).1, (byte_law b hb).1, (byte_law c hc).0, (byte_law d hd).0)

  or_zeros : (bit_or (quad a b c d) 0 ≡ quad a b c d) × (bit_or 0 (quad a b c d) ≡ quad a b c d)
  or_zeros = (
    bit_or-quad a b c d 0 0 0 0 hb hc hd (omega arith) (omega arith) (omega arith)
        ∙ rw ((byte_law a ha).2, (byte_law b hb).2, (byte_law c hc).2, (byte_law d hd).2),
    bit_or-quad 0 0 0 0 a b c d (omega arith) (omega arith) (omega arith) hb hc hd
        ∙ rw ((byte_law a ha).3, (byte_law b hb).3, (byte_law c hc).3, (byte_law d hd).3),
  )

module _ (a b c d e f g h : ℕ) (ha : a < 256) (hb : b < 256) (hc : c < 256) (hd : d < 256)
    (he : e < 256) (hf : f < 256) (hg : g < 256) (hh : h < 256) where
  shifts_64 :
      (shift_left 64 (oct (quad a b c d) (quad e f g h)) 8 ≡ oct (quad b c d e) (quad f g h 0))
      × (shift_right (oct (quad a b c d) (quad e f g h)) 8 ≡ oct (quad 0 a b c) (quad d e f g))
      × (shift_left 64 (oct (quad a b c d) (quad e f g h)) 16 ≡ oct (quad c d e f) (quad g h 0 0))
      × (shift_right (oct (quad a b c d) (quad e f g h)) 16 ≡ oct (quad 0 0 a b) (quad c d e f))
      × (shift_left 64 (oct (quad a b c d) (quad e f g h)) 32 ≡ oct (quad e f g h) 0)
      × (shift_right (oct (quad a b c d) (quad e f g h)) 32 ≡ oct 0 (quad a b c d))
  shifts_64 = omega arith

module _ (a b c d e f g h : ℕ) (ha : a < 256) (hb : b < 256) (hc : c < 256) (hd : d < 256)
    (he : e < 256) (hf : f < 256) (hg : g < 256) (hh : h < 256) where
  swap_pairs :
      bit_or
        (bit_and (shift_left 64 (oct (quad a b c d) (quad e f g h)) 8) 0xff00ff00ff00ff00)
        (bit_and (shift_right (oct (quad a b c d) (quad e f g h)) 8) 0x00ff00ff00ff00ff)
      ≡ oct (quad b a d c) (quad f e h g)
  swap_pairs =
      let s = shifts_64 a b c d e f g h ha hb hc hd he hf hg hh in
      rw
        (
          s.0,
          s.1,
          bit_and-split 32 (quad b c d e) 0xff00ff00 (quad f g h 0) 0xff00ff00 (omega arith)
              (omega arith),
          bit_and-split 32 (quad 0 a b c) 0x00ff00ff (quad d e f g) 0x00ff00ff (omega arith)
              (omega arith),
          mask_odd b c d e hb hc hd he,
          mask_odd f g h 0 hf hg hh (omega arith),
          mask_even 0 a b c (omega arith) ha hb hc,
          mask_even d e f g hd he hf hg,
          bit_or-split 32 (quad b 0 d 0) (quad 0 a 0 c) (quad f 0 h 0) (quad 0 e 0 g) (omega arith)
              (omega arith),
          join_pairs b a d c hb ha hd hc,
        )
        (ap (λ (k : ℕ). oct (quad b a d c) k) (join_pairs f e h g hf he hh hg))

  swap_quads :
      bit_or
        (bit_and (shift_left 64 (oct (quad a b c d) (quad e f g h)) 16) 0xffff0000ffff0000)
        (bit_and (shift_right (oct (quad a b c d) (quad e f g h)) 16) 0x0000ffff0000ffff)
      ≡ oct (quad c d a b) (quad g h e f)
  swap_quads =
      let s = shifts_64 a b c d e f g h ha hb hc hd he hf hg hh in
      rw
        (
          s.2,
          s.3,
          bit_and-split 32 (quad c d e f) 0xffff0000 (quad g h 0 0) 0xffff0000 (omega arith)
              (omega arith),
          bit_and-split 32 (quad 0 0 a b) 0x0000ffff (quad c d e f) 0x0000ffff (omega arith)
              (omega arith),
          mask_high c d e f hc hd he hf,
          mask_high g h 0 0 hg hh (omega arith) (omega arith),
          mask_low 0 0 a b (omega arith) (omega arith) ha hb,
          mask_low c d e f hc hd he hf,
          bit_or-split 32 (quad c d 0 0) (quad 0 0 a b) (quad g h 0 0) (quad 0 0 e f) (omega arith)
              (omega arith),
          join_halves c d a b hc hd ha hb,
        )
        (ap (λ (k : ℕ). oct (quad c d a b) k) (join_halves g h e f hg hh he hf))

module _ (a b c d e f g h : ℕ) (ha : a < 256) (hb : b < 256) (hc : c < 256) (hd : d < 256)
    (he : e < 256) (hf : f < 256) (hg : g < 256) (hh : h < 256) where
  swap_octs :
      bit_or
        (shift_left 64 (oct (quad a b c d) (quad e f g h)) 32)
        (shift_right (oct (quad a b c d) (quad e f g h)) 32)
      ≡ oct (quad e f g h) (quad a b c d)
  swap_octs =
      let s = shifts_64 a b c d e f g h ha hb hc hd he hf hg hh in
      rw
        (
          s.4,
          s.5,
          bit_or-split 32 (quad e f g h) 0 0 (quad a b c d) (omega arith) (omega arith),
          (or_zeros e f g h he hf hg hh).0,
        )
        (ap (λ (k : ℕ). oct (quad e f g h) k) (or_zeros a b c d ha hb hc hd).1)

-- `swap_uint64` reverses the eight bytes of its argument.
pub swap_uint64-oct :
    (a b c d e f g h : ℕ)
    → a < 256
    → b < 256
    → c < 256
    → d < 256
    → e < 256
    → f < 256
    → g < 256
    → h < 256
    → swap_uint64 (oct (quad a b c d) (quad e f g h)) ≡ oct (quad h g f e) (quad d c b a)
unfolding swap_uint64
swap_uint64-oct a b c d e f g h ha hb hc hd he hf hg hh =
    rw
      (
        swap_pairs a b c d e f g h ha hb hc hd he hf hg hh,
        swap_quads b a d c f e h g hb ha hd hc hf he hh hg,
      )
      (swap_octs d c b a h g f e hd hc hb ha hh hg hf he)
