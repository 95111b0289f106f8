-- ===== src/FtNm/Memory.antt =====
-- What the procedures of ft_nm do to the memory: nothing unless they swap bytes, and then only to
-- its contents.
pub mod Parts
pub mod Symbols
pub mod Laws
