-- ===== src/Elf/Class32.antt =====
-- The fields of the 32-bit ELF structures, at the offsets that elf.h fixes.
use divers.Base.{ℕ, ◌+◌, ◌/◌}
use divers.Memory.{Mem, load}

-- `Elf32_Ehdr`.
abbrev pub e_phoff : Mem → ℕ → ℕ
e_phoff m ehdr = load 4 m (ehdr + 28)

abbrev pub e_shoff : Mem → ℕ → ℕ
e_shoff m ehdr = load 4 m (ehdr + 32)

abbrev pub e_phnum : Mem → ℕ → ℕ
e_phnum m ehdr = load 2 m (ehdr + 44)

abbrev pub e_shnum : Mem → ℕ → ℕ
e_shnum m ehdr = load 2 m (ehdr + 48)

-- `Elf32_Shdr`.
abbrev pub sizeof_shdr : ℕ
sizeof_shdr = 40

abbrev pub sh_type : Mem → ℕ → ℕ
sh_type m shdr = load 4 m (shdr + 4)

abbrev pub sh_offset : Mem → ℕ → ℕ
sh_offset m shdr = load 4 m (shdr + 16)

abbrev pub sh_size : Mem → ℕ → ℕ
sh_size m shdr = load 4 m (shdr + 20)

abbrev pub sh_link : Mem → ℕ → ℕ
sh_link m shdr = load 4 m (shdr + 24)

abbrev pub e_shstrndx : Mem → ℕ → ℕ
e_shstrndx m ehdr = load 2 m (ehdr + 50)

abbrev pub sh_name : Mem → ℕ → ℕ
sh_name m shdr = load 4 m shdr

-- `Elf32_Sym` and `Elf32_Rel`.
abbrev pub sizeof_sym : ℕ
sizeof_sym = 16

abbrev pub st_name : Mem → ℕ → ℕ
st_name m sym = load 4 m sym

abbrev pub st_value : Mem → ℕ → ℕ
st_value m sym = load 4 m (sym + 4)

abbrev pub st_size : Mem → ℕ → ℕ
st_size m sym = load 4 m (sym + 8)

abbrev pub sizeof_rel : ℕ
sizeof_rel = 8

-- `ELF32_R_SYM(rel->r_info)`.
abbrev pub r_sym : Mem → ℕ → ℕ
r_sym m rel = load 4 m (rel + 4) / 256

abbrev pub sht_rel : ℕ
sht_rel = 9

abbrev pub sht_dynsym : ℕ
sht_dynsym = 11

-- `Elf32_Phdr`.
abbrev pub sizeof_phdr : ℕ
sizeof_phdr = 32

abbrev pub p_type : Mem → ℕ → ℕ
p_type m phdr = load 4 m phdr

abbrev pub p_vaddr : Mem → ℕ → ℕ
p_vaddr m phdr = load 4 m (phdr + 8)

abbrev pub p_flags : Mem → ℕ → ℕ
p_flags m phdr = load 4 m (phdr + 24)
