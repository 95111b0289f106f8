-- ===== src/Printf.antt =====
-- ft_printf (libft/ft_printf/srcs): formatted output.
pub mod Digits
pub mod Monad
pub mod Put
pub mod Data
pub mod Unsigned
pub mod Signed
pub mod Itoa
pub mod Con
pub mod Format
