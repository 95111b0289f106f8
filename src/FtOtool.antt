-- ===== src/FtOtool.antt =====
-- The program ft_otool (src/ft_otool): it dumps the section __text of a Mach-O object, or of the slices
-- of a fat file. It has copies of swap_bytes.c, swap_elements.c, swap_elements_2.c, question.c,
-- is_safe.c, `get_lc`, `get_offsize_arch` and `init_t_fat` of ft_nm, which are not repeated here.
pub mod Dump
pub mod Section
pub mod Perform
pub mod Main
