-- ===== src/Macho.antt =====
-- The Mach-O format, as the system headers <mach-o/loader.h>, <mach-o/fat.h>, <mach-o/nlist.h> and
-- <mach/machine.h> document it: magic numbers, command and type codes, structure sizes and the
-- offsets of the fields that the program reads. None of this is code of the repository.
use nm.Common.{ℕ, List, [], ◌∷◌, Bool, if◌then◌else◌}

abbrev pub mh_magic : ℕ
mh_magic = 0xfeedface

abbrev pub mh_cigam : ℕ
mh_cigam = 0xcefaedfe

abbrev pub mh_magic_64 : ℕ
mh_magic_64 = 0xfeedfacf

abbrev pub mh_cigam_64 : ℕ
mh_cigam_64 = 0xcffaedfe

abbrev pub fat_magic : ℕ
fat_magic = 0xcafebabe

abbrev pub fat_cigam : ℕ
fat_cigam = 0xbebafeca

abbrev pub fat_magic_64 : ℕ
fat_magic_64 = 0xcafebabf

abbrev pub fat_cigam_64 : ℕ
fat_cigam_64 = 0xbfbafeca

-- `cpu_type_t` is a signed int; both values are positive.
abbrev pub cpu_type_i386 : ℕ
cpu_type_i386 = 7

abbrev pub cpu_type_x86_64 : ℕ
cpu_type_x86_64 = 0x01000007

abbrev pub lc_segment : ℕ
lc_segment = 0x1

abbrev pub lc_symtab : ℕ
lc_symtab = 0x2

abbrev pub lc_segment_64 : ℕ
lc_segment_64 = 0x19

-- struct mach_header, mach_header_64
abbrev pub sizeof_mach_header : ℕ
sizeof_mach_header = 28

abbrev pub sizeof_mach_header_64 : ℕ
sizeof_mach_header_64 = 32

abbrev pub ncmds_offset : ℕ
ncmds_offset = 16

-- struct load_command { cmd; cmdsize }
abbrev pub sizeof_load_command : ℕ
sizeof_load_command = 8

abbrev pub cmdsize_offset : ℕ
cmdsize_offset = 4

-- struct segment_command, segment_command_64
abbrev pub sizeof_segment_command : ℕ
sizeof_segment_command = 56

abbrev pub sizeof_segment_command_64 : ℕ
sizeof_segment_command_64 = 72

abbrev pub nsects_offset : Bool → ℕ
nsects_offset is_64 = if is_64 then 64 else 48

abbrev pub sizeof_vm_prot : ℕ
sizeof_vm_prot = 4

-- struct section, section_64: sectname[16], segname[16], ...
abbrev pub sizeof_section : ℕ
sizeof_section = 68

abbrev pub sizeof_section_64 : ℕ
sizeof_section_64 = 80

abbrev pub segname_offset : ℕ
segname_offset = 16

-- ..., addr, size, offset
abbrev pub section_size_offset : Bool → ℕ
section_size_offset is_64 = if is_64 then 40 else 36

abbrev pub section_offset_offset : Bool → ℕ
section_offset_offset is_64 = if is_64 then 48 else 40

-- struct symtab_command { cmd; cmdsize; symoff; nsyms; stroff; strsize }
abbrev pub sizeof_symtab_command : ℕ
sizeof_symtab_command = 24

abbrev pub symoff_offset : ℕ
symoff_offset = 8

abbrev pub nsyms_offset : ℕ
nsyms_offset = 12

abbrev pub stroff_offset : ℕ
stroff_offset = 16

-- struct nlist { n_strx; n_type; n_sect; n_desc (16 bits); n_value (32 bits) }, and nlist_64, whose
-- n_value has 64 bits
abbrev pub sizeof_nlist : ℕ
sizeof_nlist = 12

abbrev pub sizeof_nlist_64 : ℕ
sizeof_nlist_64 = 16

abbrev pub n_type_offset : ℕ
n_type_offset = 4

abbrev pub n_sect_offset : ℕ
n_sect_offset = 5

abbrev pub n_desc_offset : ℕ
n_desc_offset = 6

abbrev pub n_value_offset : ℕ
n_value_offset = 8

abbrev pub n_stab : ℕ
n_stab = 0xe0

abbrev pub n_type_mask : ℕ
n_type_mask = 0x0e

abbrev pub n_ext : ℕ
n_ext = 0x01

abbrev pub n_undf : ℕ
n_undf = 0x0

abbrev pub n_abs : ℕ
n_abs = 0x2

abbrev pub n_indr : ℕ
n_indr = 0xa

abbrev pub n_pbud : ℕ
n_pbud = 0xc

abbrev pub n_sect : ℕ
n_sect = 0xe

abbrev pub n_weak_ref : ℕ
n_weak_ref = 0x40

-- struct fat_header { magic; nfat_arch }, fat_arch { cputype; cpusubtype; offset; size; align },
-- fat_arch_64 { cputype; cpusubtype; offset (64 bits); size (64 bits); align; reserved }
abbrev pub sizeof_fat_header : ℕ
sizeof_fat_header = 8

abbrev pub nfat_arch_offset : ℕ
nfat_arch_offset = 4

abbrev pub sizeof_fat_arch : ℕ
sizeof_fat_arch = 20

abbrev pub sizeof_fat_arch_64 : ℕ
sizeof_fat_arch_64 = 32

abbrev pub fat_offset_offset : ℕ
fat_offset_offset = 8

-- Section and segment names, with the NUL that ends the literal.
-- "__text"
abbrev pub sect_text : List ℕ
sect_text = b'_' ∷ b'_' ∷ b't' ∷ b'e' ∷ b'x' ∷ b't' ∷ 0 ∷ []

-- "__TEXT"
abbrev pub seg_text : List ℕ
seg_text = b'_' ∷ b'_' ∷ b'T' ∷ b'E' ∷ b'X' ∷ b'T' ∷ 0 ∷ []

-- "__data"
abbrev pub sect_data : List ℕ
sect_data = b'_' ∷ b'_' ∷ b'd' ∷ b'a' ∷ b't' ∷ b'a' ∷ 0 ∷ []

-- "__DATA"
abbrev pub seg_data : List ℕ
seg_data = b'_' ∷ b'_' ∷ b'D' ∷ b'A' ∷ b'T' ∷ b'A' ∷ 0 ∷ []

-- "__bss"
abbrev pub sect_bss : List ℕ
sect_bss = b'_' ∷ b'_' ∷ b'b' ∷ b's' ∷ b's' ∷ 0 ∷ []
