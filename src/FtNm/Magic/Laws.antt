-- ===== src/FtNm/Magic/Laws.antt =====
-- The magic numbers of both byte orders.
use mathlib.Core.Path.{subst}
use nm.Common.{ℕ, ◌≢◌, Bool-cases, ◌≡◌, refl, sym, inl, inr, false, not, ◌==◌, arith, ==→eq}
use nm.Macho.{
  mh_magic, mh_cigam, mh_magic_64, mh_cigam_64, fat_magic, fat_cigam, fat_magic_64, fat_cigam_64,
}
use nm.FtNm.SwapBytes.{swap_uint32}
use nm.FtNm.Magic.{
  is_fat_file, is_64_arch, is_64_file, should_swap_arch, should_swap_file, not_valid_file,
}

-- The other byte order of a magic number is the same kind of file, to be swapped just if it is not.
pub record IsOpposite (magic other : ℕ) : Type 0 where
  pub valid : not_valid_file other ≡ false
  pub fat : is_fat_file other ≡ is_fat_file magic
  pub width : is_64_file other ≡ is_64_file magic
  pub swapped : should_swap_file other ≡ not (should_swap_file magic)

unless : (P : ℕ → Type 0) (n k : ℕ) → P k → (n ≢ k → P n) → P n
unless P n k same other = elim (Bool-cases (n == k)) [
  | inl e ↦ subst P (sym (==→eq n k e)) same
  | inr ne ↦ other (λ e. absurd (ground arith))
]

abbrev Opposite : ℕ → Type 0
Opposite n = IsOpposite n (swap_uint32 n)

each_magic :
    Opposite fat_magic
    × Opposite fat_magic_64
    × Opposite fat_cigam
    × Opposite fat_cigam_64
    × Opposite mh_magic
    × Opposite mh_magic_64
    × Opposite mh_cigam
    × Opposite mh_cigam_64
unfolding swap_uint32 not_valid_file is_fat_file is_64_file should_swap_file is_64_arch
    should_swap_arch
each_magic = (
  record { valid = refl; fat = refl; width = refl; swapped = refl },
  record { valid = refl; fat = refl; width = refl; swapped = refl },
  record { valid = refl; fat = refl; width = refl; swapped = refl },
  record { valid = refl; fat = refl; width = refl; swapped = refl },
  record { valid = refl; fat = refl; width = refl; swapped = refl },
  record { valid = refl; fat = refl; width = refl; swapped = refl },
  record { valid = refl; fat = refl; width = refl; swapped = refl },
  record { valid = refl; fat = refl; width = refl; swapped = refl },
)

-- For every magic number that `not_valid_file` accepts, the number with its bytes turned round is
-- accepted too; it stands for the same kind of file, fat or not and of the same width, and
-- `should_swap_file` holds for exactly one of the two.
pub swap_uint32-IsOpposite :
    (magic : ℕ) → not_valid_file magic ≡ false → IsOpposite magic (swap_uint32 magic)
unfolding not_valid_file
swap_uint32-IsOpposite magic valid = unless Opposite magic fat_magic each_magic.0 λ a.
    unless Opposite magic fat_magic_64 each_magic.1 λ b.
      unless Opposite magic fat_cigam each_magic.2 λ c.
        unless Opposite magic fat_cigam_64 each_magic.3 λ d.
          unless Opposite magic mh_magic each_magic.4 λ e.
            unless Opposite magic mh_magic_64 each_magic.5 λ f.
              unless Opposite magic mh_cigam each_magic.6
                λ g. unless Opposite magic mh_cigam_64 each_magic.7 λ h. absurd (ground arith)
