-- ===== src/Examples.antt =====
-- The programs and the theorems at concrete inputs.
mod SwapBytes
mod Sort
mod Flags
mod Object
mod Magic
mod Strings
mod Libft
mod Otool
mod Dumped
mod Printf
mod Listing
mod Program
mod Overflow
