-- ===== src/FtNm.antt =====
-- The program ft_nm (src/ft_nm): it lists the symbols of a Mach-O object or of one slice of a fat file.
pub mod SwapBytes
pub mod SwapElements
pub mod Magic
pub mod Safe
pub mod Get
pub mod SymbolLetter
pub mod NotFat
pub mod Fat
pub mod Memory
pub mod Sort
pub mod Flags
pub mod Print
pub mod Report
pub mod Lines
pub mod Nm
pub mod Main
