-- ===== src/Lib.antt =====
-- A model of nm, a pair of programs in C that read Mach-O files: ft_nm (src/ft_nm) lists the
-- symbols of an object or of one slice of a fat file, and ft_otool (src/ft_otool) dumps the
-- code of one. Modelled here are both programs, from main to what they print, and libft (libft),
-- the author's C library that they are built on, with ft_printf (libft/ft_printf).
--
-- The parts, and the files that model them:
-- - Common: helpers that are not about the program: numbers, lists, bits.
-- - Macho: the constants and the layouts of structures that the system's headers <mach-o/loader.h>,
--   <mach-o/fat.h>, <mach-o/nlist.h> and <mach/machine.h> document.
-- - Machine: the mapped file and the globals g_begin and g_map_size (include/ft_nm/nm_otool.h).
--   Machine/Access, Words, Steps and Respects reason on reads and writes.
-- - Libft/Strings: ft_strlen, ft_strcmp, ft_strncmp, ft_strequ, ft_strnequ, ft_strchr, ft_toupper
--   and ft_tolower (libft/ft_*.c). Strings/Holds is the induction over the chars of a string.
--   Libft/Buffer: arrays of chars, which malloc gives unset. Libft/Numbers: ft_atoi.c.
--   Libft/Memory: ft_mem*.c, ft_bzero.c and ft_strnew.c, on regions that may overlap.
--   Libft/Copies: ft_strcpy.c, ft_strdup.c, ft_strjoin.c, ft_strtrim.c and the others that write
--   strings. Libft/Split: ft_strsplit.c and ft_split.c. Libft/Search: ft_strstr.c, ft_strnstr.c,
--   ft_strrchr.c and ft_is*.c. Libft/NextLine: ft_get_next_line.c. Libft/Output: ft_put*_fd.c,
--   ft_putendl.c, ft_putnbr.c and ft_putnexit.c.
-- - Printf: ft_printf (libft/ft_printf/srcs). Printf/Digits: convert_base.c and itoa_hexbase.c.
--   Printf/Itoa: itoa_max.c, and ft_itoa.c of libft; Itoa/Numeral and Read say what they print. Printf/Put: put.c and cacul.c. Printf/Data:
--   set_castflag.c. Printf/Unsigned: set_print_oux.c and for_print_oux.c. Printf/Signed:
--   set_print_d.c. Printf/Con: con_x.c and the other con_*.c. Printf/Format: ini_set.c and
--   ft_printf.c. Printf/Monad: the arguments and the output.
-- - System: the calls of the operating system, as a record that is a parameter of the programs,
--   and the code that reports. System/Runs and Results reason on it.
-- - FtNm/SwapBytes, FtNm/SwapElements: swap_bytes.c, swap_elements.c and swap_elements_2.c.
-- - FtNm/Magic, FtNm/Safe, FtNm/Get: question.c, is_safe.c, get.c, and what helper_2.c reads.
-- - FtNm/SymbolLetter: get_symbol_letter.c. FtNm/NotFat: handle_not_fat.c, helper.c and
--   helper_2.c. FtNm/Fat: handle_each_arch.c and handle_nm.c.
-- - FtNm/Sort: sort_list_by_name.c. FtNm/Flags: set_flag.c. FtNm/Print: can_show_list of
--   print_nm_list.c, and sort_nm_list of nm.c. FtNm/Lines: the rest of print_nm_list.c;
--   Lines/Recorded sets its output beside the recorded outputs of nm.
--   FtNm/Report: dump.c. FtNm/Nm: nm.c. FtNm/Main: main.c, get_fd of get.c and put_usage of
--   set_flag.c.
-- - FtOtool/Dump, FtOtool/Section: dump.c, handle_not_fat.c, helper.c and handle_otool.c of
--   src/ft_otool. Section/Commands and Object reason on the load commands and on an object.
--   FtOtool/Perform: the calls of these that print, carried out by ft_printf. FtOtool/Main:
--   main.c, and get_fd of get.c; Main/Printed is about a run of the whole program. The other files are copies of those of ft_nm and
--   are not modelled twice.
-- - FtNm/Memory: what a run leaves of the memory. Examples: tests on concrete inputs.
--
-- How they interact: handle_nm takes a fat file to handle_fat, which picks a slice by
-- handle_each_arch, and other files to handle_not_fat; this finds LC_SYMTAB among the load
-- commands and makes one t_nm for each entry of the symbol table, with a letter that may need
-- the sections of the object. sort_nm_list then sorts the list by the names in the mapping, and
-- print_nm_list prints it by ft_printf. main parses the options, and calls nm for each file that
-- handle_each_arg has mapped.
--
-- How state and operations correspond to the code. A pointer is an address of 64 bits, and its
-- arithmetic is modulo 2 ^ 64. A Machine holds the bytes of the mapping and the two globals; a
-- function that reads or writes the mapping is a Proc, a function from a Machine to a result
-- and the new Machine, or to a fault where the code touches an address that is not mapped. The
-- mapping is private and writable, as the call of mmap has it, and fields are swapped in place.
-- Integers of w bits are numbers with their wrap written out, and the overflow of a signed one is
-- taken to wrap; the machine is little-endian. The
-- bytes of the mapping may go on past g_map_size, to the end of its last page. A list of t_nm
-- is a list of records and NULL is the empty one; an int that is a truth value is a Bool. A
-- `const char *` is the list of the bytes from it to the end of its object. malloc is taken not
-- to fail, and free has no effect. A va_list is the list of the arguments that are left, an
-- integer as its 64 bits. What is written to the descriptors 1 and 2 is a list of events; the
-- write itself is taken to succeed. The strings of argv are given without their NUL. A mapping
-- that is left behind by one file is not seen by the next, since g_begin and g_map_size change.
--
-- Bounds and fuel: the loop over the symbol table runs on 2 ^ 32 rounds of fuel. nsyms is a
-- number of 32 bits, i starts at 0 and grows by one, so that the loop ends before the fuel
-- does. The loop of dump_section runs on 2 ^ 28 + 1 rounds: it ends where it leaves the file,
-- and each round goes 16 bytes on in a file whose size has 32 bits. The loops over the
-- digits of a number run on 64 rounds, since it has 64 bits, and the loop of ft_printf on the
-- length of the format. The calls of ft_putnbr are at most 32 deep, for an int has 32 bits. The
-- loops over words, and that of ft_strstr, run on the length of the object that holds the string,
-- since each round goes on by a char at least, and the loop that fills the array of ft_strsplit on
-- the number of words and one more. The rounds of get_next_line are an argument; a round reads a
-- char at least, or ends. The other loops recur on a count that the code itself has: ncmds,
-- nfat_arch, a number of fields, or the length of the list. Strings that libft counts by an int
-- are taken to be shorter than 2 ^ 31.
--
-- Not modelled: the system calls, which are the parameter System.Os, and for get_next_line the
-- parameter NextLine.Input, and what write returns; the errno of open but for EACCES; the lists of
-- libft (ft_lst*.c) and its functions that only call back or free (ft_striter.c, ft_striteri.c,
-- ft_memdel.c, ft_strdel.c), which neither program calls; and nm.c at the root, an early draft
-- that the Makefile does not build.
pub mod Common
pub mod Macho
pub mod Machine
pub mod Libft
pub mod Printf
pub mod System
pub mod FtNm
pub mod FtOtool
pub mod Examples
