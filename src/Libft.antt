-- ===== src/Libft.antt =====
-- libft: the author's C library that ft_nm and ft_otool are built on.
pub mod Strings
pub mod Buffer
pub mod Numbers
pub mod Memory
pub mod Copies
pub mod Split
pub mod Search
pub mod NextLine
pub mod Output
