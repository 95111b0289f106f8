-- ===== src/FtOtool/Perform/Lines.antt =====
-- The text of the bytes that dump.c prints.
use nm.Common.{
  ℕ, ◌≡◌, refl, ap, ◌<◌, ◌^◌, ◌+◌, ◌≤◌, Bool, some, List, [], ◌∷◌, ◌++◌, map, reverse, All, length,
  if◌then◌else◌,
}
use nm.Machine.{Machine, Ptr, ok}
use nm.Printf.Format.Bytes.{hex_pair, ft_printf-hex_pair}
use nm.FtOtool.Dump.{Call, put_byte, put_byte_space, hexdump_address, hexdump_data}
use nm.FtOtool.Dump.Bytes.{IsLine, hexdump_data-IsLine, hexdump_address-reverse}
use nm.FtOtool.Perform.{printed, perform, perform_all}

-- Two digits for each byte, and with a blank behind each.
abbrev pub hex_pairs : List ℕ → List ℕ
hex_pairs [] = []
hex_pairs (b ∷ bs) = hex_pair b ++ hex_pairs bs

abbrev pub hex_columns : List ℕ → List ℕ
hex_columns [] = []
hex_columns (b ∷ bs) = (hex_pair b ++ (b' ' ∷ [])) ++ hex_columns bs

pub perform_all-cons :
    (c : Call) (calls : List Call) (out rest : List ℕ)
    → perform c ≡ some out
    → perform_all calls ≡ some rest
    → perform_all (c ∷ calls) ≡ some (out ++ rest)
unfolding perform_all
perform_all-cons c calls out rest e f = rw (perform_all, e, f) refl

pub perform_all-put_byte :
    (bs : List ℕ) → All (λ b. b < 256) bs → perform_all (map put_byte bs) ≡ some (hex_pairs bs)
unfolding perform perform_all
perform_all-put_byte [] h = refl
perform_all-put_byte (b ∷ bs) h =
    perform_all-cons (put_byte b) (map put_byte bs) (hex_pair b) (hex_pairs bs)
      (ap printed (ft_printf-hex_pair b h.0).0) (perform_all-put_byte bs h.1)

pub perform_all-put_byte_space :
    (bs : List ℕ)
    → All (λ b. b < 256) bs
    → perform_all (map put_byte_space bs) ≡ some (hex_columns bs)
unfolding perform perform_all
perform_all-put_byte_space [] h = refl
perform_all-put_byte_space (b ∷ bs) h =
    perform_all-cons (put_byte_space b) (map put_byte_space bs) (hex_pair b ++ (b' ' ∷ []))
      (hex_columns bs) (ap printed (ft_printf-hex_pair b h.0).1) (perform_all-put_byte_space bs h.1)

-- Where the bytes from `add` on are known and the addresses do not wrap, what `hexdump_data` prints of
-- them, 16 or as many as the section has left at `i`, is two digits and a blank for each, in order;
-- nothing is changed.
pub hexdump_data-hex_columns :
    (m : Machine) (add i size : ℕ) (pre bs post : List ℕ)
    → size < 2 ^ 64
    → m.bytes ≡ pre ++ (bs ++ post)
    → add ≡ m.g_begin + length pre
    → add + length bs < 2 ^ 64
    → IsLine i size 16 bs
    → All (λ b. b < 256) bs
    → (calls : List Call) × (hexdump_data add i size m ≡ ok calls m)
      × (perform_all calls ≡ some (hex_columns bs))
hexdump_data-hex_columns m add i size pre bs post fits e at h l bytes = (
  map put_byte_space bs,
  hexdump_data-IsLine m add i size pre bs post fits e at h l,
  perform_all-put_byte_space bs bytes,
)

-- Where a word of 8 bytes, or of 4, is known and its addresses do not wrap, what `hexdump_address`
-- prints is its digits in base 16, the most significant first; nothing is changed.
pub hexdump_address-hex_pairs :
    (m : Machine) (add : Ptr) (is_64 : Bool) (bs pre post : List ℕ)
    → length bs ≡ (if is_64 then 8 else 4)
    → m.bytes ≡ pre ++ (reverse bs ++ post)
    → add ≡ m.g_begin + length pre
    → add + length bs ≤ 2 ^ 64
    → All (λ b. b < 256) bs
    → (calls : List Call) × (hexdump_address add is_64 m ≡ ok calls m)
      × (perform_all calls ≡ some (hex_pairs bs))
hexdump_address-hex_pairs m add is_64 bs pre post size e at h bytes = (
  map put_byte bs,
  hexdump_address-reverse m add is_64 bs pre post size e at h,
  perform_all-put_byte bs bytes,
)
