-- ===== src/FtNm/Fat/Choice.antt =====
-- Which slice of a fat file is listed: the one for x86_64, wherever it stands.
use mathlib.Core.Path.{subst}
use nm.Common.{ℕ, zero, suc, ◌+◌, ◌<◌, ◌≡◌, refl, ◌∙◌, Bool, true, false, List, [], ◌∷◌, arith}
use nm.Macho.{sizeof_fat_header}
use nm.Machine.{Machine, Ptr, ok, ◌⊕◌, read32}
use nm.Machine.Steps.{step}
use nm.FtNm.Magic.{
  HostArch, not_host, my_cpu_x86_64, my_cpu_i386, is_hostarch, not_valid_header, is_64_file,
  should_swap_file,
}
use nm.FtNm.Safe.{is_safe}
use nm.FtNm.Get.{get_offsize_arch}
use nm.FtNm.NotFat.{Symbol}
use nm.FtNm.NotFat.Object.{IsObject, handle_not_fat-IsObject}
use nm.FtNm.Fat.{
  Fat, is_x86_64, skips_arch, handle_each_arch, arch_address, found_64_loop, get_nfat_arch,
  init_t_fat, slice_loop, handle_fat,
}

module _ (m : Machine) (p : Ptr) (is_64 should_swap : Bool) where
  -- Slice `i` is for another architecture than x86_64.
  pub record IsOther (i : ℕ) : Type 0 where
    pub arch : HostArch
    pub in_file : is_safe (arch_address is_64 p i) m ≡ true
    pub hosted : is_hostarch (arch_address is_64 p i) should_swap m ≡ ok arch m
    pub other : is_x86_64 arch ≡ false

  -- Slice `i` is for x86_64, and an object in the byte order of the machine with the symbols `table`.
  pub record IsNative (i : ℕ) (table : List Symbol) : Type 0 where
    pub offset : ℕ
    pub magic : ℕ
    pub in_file : is_safe (arch_address is_64 p i) m ≡ true
    pub hosted : is_hostarch (arch_address is_64 p i) should_swap m ≡ ok my_cpu_x86_64 m
    pub offset_at : get_offsize_arch (arch_address is_64 p i) should_swap is_64 m ≡ ok offset m
    pub magic_at : read32 (p ⊕ offset) m ≡ ok magic m
    pub valid : not_valid_header magic ≡ false
    pub native : should_swap_file magic ≡ false
    pub object : IsObject m (p ⊕ offset) (is_64_file magic) table

  abbrev found : Fat
  found = record { should_swap = should_swap; is_64 = is_64; found_64 = true }

  skips_arch-other : (arch : HostArch) → is_x86_64 arch ≡ false → skips_arch true arch ≡ true
  unfolding skips_arch
  skips_arch-other not_host e = refl
  skips_arch-other my_cpu_x86_64 e = absurd (cc)
  skips_arch-other my_cpu_i386 e = refl

  handle_each_arch-IsOther :
      (i : ℕ) → IsOther i → handle_each_arch (arch_address is_64 p i) p found m ≡ ok ([], found) m
  unfolding handle_each_arch
  handle_each_arch-IsOther i o =
      step _ _ refl ∙ rw o.in_file (step _ _ o.hosted ∙ rw (skips_arch-other o.arch o.other) refl)

  handle_each_arch-IsNative :
      (i : ℕ) (table : List Symbol)
      → IsNative i table
      → handle_each_arch (arch_address is_64 p i) p found m ≡ ok (table, found) m
  unfolding handle_each_arch skips_arch
  handle_each_arch-IsNative i table o =
      step _ _ refl
      ∙ rw o.in_file (
          step _ _ o.hosted
          ∙ step _ _ o.offset_at
          ∙ step _ _ o.magic_at
          ∙ rw (o.valid, o.native)
              (step _ _
                  (handle_not_fat-IsObject m (p ⊕ o.offset) (is_64_file o.magic) table o.object)
                ∙ refl))

  module _ (k : ℕ) (x : Symbol) (xs : List Symbol) (others : (j : ℕ) → j < k → IsOther j)
      (native : IsNative k (x ∷ xs)) where
    IsNative-here : (i : ℕ) → k ≡ i → IsNative i (x ∷ xs)
    IsNative-here i e = subst (λ (j : ℕ). IsNative j (x ∷ xs)) e native

    found_64_loop-native :
        (left i n : ℕ)
        → i + n ≡ k
        → n < left
        → found_64_loop is_64 should_swap p i left m ≡ ok true m
    unfolding found_64_loop
    found_64_loop-native zero i n e lt = absurd (omega arith)
    found_64_loop-native (suc left) i zero e lt =
        let o = IsNative-here i (omega arith) in step _ _ o.hosted
    found_64_loop-native (suc left) i (suc n) e lt =
        let o = others i (omega arith) in
        step _ _ o.hosted
        ∙ rw o.other (found_64_loop-native left (i + 1) n (omega arith) (omega arith))

    slice_loop-native :
        (left i n : ℕ) → i + n ≡ k → n < left → slice_loop is_64 p found i left m ≡ ok (x ∷ xs) m
    unfolding slice_loop
    slice_loop-native zero i n e lt = absurd (omega arith)
    slice_loop-native (suc left) i zero e lt =
        step _ _ (handle_each_arch-IsNative i (x ∷ xs) (IsNative-here i (omega arith)))
    slice_loop-native (suc left) i (suc n) e lt =
        step _ _ (handle_each_arch-IsOther i (others i (omega arith)))
        ∙ slice_loop-native left (i + 1) n (omega arith) (omega arith)

-- If slice `k` of a fat file is for x86_64 and an object in the byte order of the machine with at
-- least one symbol, and the slices before it are for other architectures, `handle_fat` returns
-- exactly the symbols of slice `k`, and leaves the memory as it is: an i386 slice that stands first
-- is passed over.
pub handle_fat-IsNative :
    (m : Machine) (p : Ptr) (is_64 should_swap : Bool) (nb k : ℕ) (x : Symbol) (xs : List Symbol)
    → is_safe (p ⊕ sizeof_fat_header) m ≡ true
    → get_nfat_arch should_swap p m ≡ ok nb m
    → k < nb
    → ((j : ℕ) → j < k → IsOther m p is_64 should_swap j)
    → IsNative m p is_64 should_swap k (x ∷ xs)
    → handle_fat is_64 should_swap p m ≡ ok (x ∷ xs) m
unfolding handle_fat init_t_fat
handle_fat-IsNative m p is_64 should_swap nb k x xs safe count lt others native =
    step _ _ refl
    ∙ rw safe (
        step _ _ count
        ∙ step _ _ (init_t_fat-native)
        ∙ slice_loop-native m p is_64 should_swap k x xs others native nb 0 k (omega arith) lt)
  where
    init_t_fat-native :
        init_t_fat is_64 should_swap p m
        ≡ ok (record { should_swap = should_swap; is_64 = is_64; found_64 = true }) m
    init_t_fat-native =
        step _ _ count
        ∙ step _ _ (
            found_64_loop-native m p is_64 should_swap k x xs others native nb 0 k (omega arith) lt)
