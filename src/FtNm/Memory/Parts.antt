-- ===== src/FtNm/Memory/Parts.antt =====
-- Every relation that holds between a machine and itself, and that writes keep where the file is
-- swapped, is kept by the procedures of ft_nm that read headers, letters and symbols.
use nm.Common.{ℕ, zero, suc, ◌+◌, Bool, leb, if◌then◌else◌}
use nm.Machine.{Ptr, Proc, pure, ◌>>=◌, read8, write8, read_le, read_word, ◌⊕◌}
use nm.Machine.Respects.{Frame, Respects, pure-Respects, >>=-Respects, look-Respects, if-Respects}
use nm.FtNm.SwapBytes.{swap_loop, swap_endiane, swap_32, swap_64}
use nm.FtNm.SwapElements.{
  swap_nb_loop, swap_nb_32, swap_mach_header, swap_loadcommand, swap_symtab, swap_nlist,
  swap_segment_command, swap_section,
}

module _ (F : Frame) where
  pub bind :
      {A B : Type 0} {p : Proc A} {k : A → Proc B}
      → Respects F p
      → ((a : A) → Respects F (k a))
      → Respects F (p >>= k)
  bind hp hk = >>=-Respects F _ _ hp hk

  pub branch :
      {A : Type 0} (b : Bool) {p q : Proc A}
      → Respects F p
      → Respects F q
      → Respects F (if b then p else q)
  branch b hp hq = if-Respects F b _ _ hp hq

  pub done : {A : Type 0} (a : A) → Respects F (pure a)
  done a = pure-Respects F a

  pub read8-Respects : (p : Ptr) → Respects F (read8 p)
  unfolding read8
  read8-Respects p = look-Respects F _

  pub read_le-Respects : (n : ℕ) (p : Ptr) → Respects F (read_le n p)
  unfolding read_le
  read_le-Respects zero p = pure-Respects F 0
  read_le-Respects (suc n) p =
      search (>>=-Respects F, read8-Respects p, read_le-Respects n (p ⊕ 1), pure-Respects F)

  pub read_word-Respects : (x : Bool) (p : Ptr) → Respects F (read_word x p)
  read_word-Respects x p = branch x (read_le-Respects 8 p) (read_le-Respects 4 p)

  module _ (writes : (p : Ptr) (v : ℕ) → Respects F (write8 p v)) where
    pub swap_loop-Respects : (p : Ptr) (i j : ℕ) → Respects F (swap_loop p i j)
    unfolding swap_loop
    swap_loop-Respects p i zero = done tt
    swap_loop-Respects p i (suc j) =
        branch (leb i j)
          (bind (read8-Respects _) λ temp.
            bind (read8-Respects _)
              λ other. bind (writes _ _) λ _. bind (writes _ _) λ _. swap_loop-Respects p (i + 1) j)
          (done tt)

    pub swap_endiane-Respects : (p : Ptr) (n : ℕ) → Respects F (swap_endiane p n)
    unfolding swap_endiane
    swap_endiane-Respects p n = swap_loop-Respects p 0 n

    pub swap_32-Respects : (p : Ptr) → Respects F (swap_32 p)
    unfolding swap_32
    swap_32-Respects p = swap_endiane-Respects p 4

    pub swap_64-Respects : (p : Ptr) → Respects F (swap_64 p)
    unfolding swap_64
    swap_64-Respects p = swap_endiane-Respects p 8

    pub swap_nb_loop-Respects : (p : Ptr) (i n : ℕ) → Respects F (swap_nb_loop p i n)
    unfolding swap_nb_loop
    swap_nb_loop-Respects p i zero = done tt
    swap_nb_loop-Respects p i (suc n) =
        bind (swap_32-Respects _) (λ a. swap_nb_loop-Respects p (i + 1) n)

    pub swap_nb_32-Respects : (p : Ptr) (n : ℕ) → Respects F (swap_nb_32 p n)
    unfolding swap_nb_32
    swap_nb_32-Respects p n = swap_nb_loop-Respects p 0 n

    pub swap_mach_header-Respects : (p : Ptr) → Respects F (swap_mach_header p)
    unfolding swap_mach_header
    swap_mach_header-Respects p = swap_32-Respects _

    pub swap_loadcommand-Respects : (p : Ptr) → Respects F (swap_loadcommand p)
    unfolding swap_loadcommand
    swap_loadcommand-Respects p = swap_nb_32-Respects _ _

    pub swap_symtab-Respects : (p : Ptr) → Respects F (swap_symtab p)
    unfolding swap_symtab
    swap_symtab-Respects p = swap_nb_32-Respects _ _

    pub swap_nlist-Respects : (p : Ptr) (x : Bool) → Respects F (swap_nlist p x)
    unfolding swap_nlist
    swap_nlist-Respects p x = bind (swap_nb_32-Respects _ _) λ a.
        bind (swap_endiane-Respects _ _)
          λ b. branch x (swap_64-Respects _) (swap_nb_32-Respects _ _)

    pub swap_segment_command-Respects : (p : Ptr) (x : Bool) → Respects F (swap_segment_command p x)
    unfolding swap_segment_command
    swap_segment_command-Respects p x = branch x (swap_nb_32-Respects _ _) (swap_nb_32-Respects _ _)

    pub swap_section-Respects : (p : Ptr) (x : Bool) → Respects F (swap_section p x)
    unfolding swap_section
    swap_section-Respects p x =
        branch x (search (>>=-Respects F, swap_64-Respects, swap_32-Respects))
          (swap_nb_32-Respects _ _)
