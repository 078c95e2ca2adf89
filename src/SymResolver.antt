-- ===== src/SymResolver.antt =====
-- sym_resolv/sym_resolver.c: the program's own ELF file, opened and searched for the symbol of an
-- address or of a name. The library parses 32-bit images. The system's calls are parameters, `strcmp`
-- against a fixed name is a test on addresses; NULL is `none` or 0, and a return value -1 is written 1.
pub mod Lookup
pub mod Open
pub mod Program
mod Samples
use divers.Base.{
  ℕ, zero, suc, ◌+◌, ◌-◌, ◌*◌, ◌/◌, ◌%◌, ◌^◌, Bool, true, false, ◌&&◌, ◌||◌, not, Option, none,
  some, List, [], ◌∷◌, drop, ltb, leb, ◌==◌, if◌then◌else◌,
}
use divers.Memory.{Mem}
use divers.Elf.{scan}
use divers.Elf.Class32.{
  e_shoff, e_shnum, e_shstrndx, sizeof_shdr, sh_name, sh_offset, sh_size, sizeof_sym, st_name,
  st_value, st_size,
}
use divers.Resources.{Held, descriptor, mapping, release, ◌>>=◌}

-- `struct sym_resolv_desc`.
pub record SymDesc : Type 0 where
  pub fd : ℕ
  pub mem : ℕ
  pub memlen : ℕ
  pub pid : ℕ
  pub ehdr : ℕ
  pub shdr : ℕ
  pub shdrstrsectab : Option ℕ
  pub shdrsymtab : Option ℕ
  pub shdrstrsymtab : Option ℕ
  pub sectionstr : ℕ

-- `__sym_resolv_sectionhdr_to_section`, of a descriptor that is not NULL.
abbrev pub sectionhdr_to_section : Mem → SymDesc → Option ℕ → Option ℕ
sectionhdr_to_section m desc none = none
sectionhdr_to_section m desc (some shdr) = some (desc.mem + sh_offset m shdr)

-- `__sym_resolv_get_sectionhdr_by_name`; `same p` is `strcmp(secname, p) == 0`.
unfoldable pub get_sectionhdr_by_name : Mem → SymDesc → (same : ℕ → Bool) → Option ℕ
get_sectionhdr_by_name m desc same =
    if desc.ehdr == 0
    then none
    else scan sizeof_shdr (λ ptr. same (desc.sectionstr + sh_name m ptr)) (e_shnum m desc.ehdr)
        desc.shdr

-- What the system answers to `__sym_resolv_open`: each is `none` where the call fails.
pub record Files : Type 0 where
  pub opened : Option ℕ
  pub size : Option ℕ
  pub mapped : Option ℕ
  pub bytes : Mem

-- The last searches of `__sym_resolv_open`: 1 is the way to its first label.
unfoldable pub find_strtab : (strtab : ℕ → Bool) (m : Mem) → SymDesc → ℕ × SymDesc
find_strtab strtab m desc =
    let d = record desc { shdrstrsymtab = get_sectionhdr_by_name m desc strtab } in
    (elim (d.shdrstrsymtab) [ none ↦ 1 | some t ↦ 0 ], d)

unfoldable pub find_symtab : (symtab strtab : ℕ → Bool) (m : Mem) → SymDesc → ℕ × SymDesc
find_symtab symtab strtab m desc =
    let d = record desc { shdrsymtab = get_sectionhdr_by_name m desc symtab } in
    elim (d.shdrsymtab) [ none ↦ (1, d) | some s ↦ find_strtab strtab m d ]

-- The part behind `mmap`, whose result is in the descriptor.
unfoldable pub find_tables : (symtab strtab : ℕ → Bool) (m : Mem) → SymDesc → ℕ × SymDesc
find_tables symtab strtab m desc =
    let addr = desc.mem in
    let shdr = addr + e_shoff m addr in
    let d1 = record desc { ehdr = addr; shdr = shdr } in
    let strsec = shdr + e_shstrndx m addr * sizeof_shdr in
    if e_shstrndx m addr == 0
    then (1, d1)
    else find_symtab symtab strtab m
        (record d1 { shdrstrsectab = some strsec; sectionstr = addr + sh_offset m strsec })

-- The labels of `__sym_resolv_open`: the mapping is given back, then the descriptor.
unfoldable pub sr_open_maperr : SymDesc → Held → Option Held
sr_open_maperr desc held = release (descriptor desc.fd) held

unfoldable pub sr_no_symtab : SymDesc → Held → Option Held
unfolding sr_open_maperr
sr_no_symtab desc held = release (mapping desc.mem desc.memlen) held >>= λ h. sr_open_maperr desc h

-- `__sym_resolv_open`, on the opening of /proc/<pid>/exe.
unfoldable pub open' :
    (symtab strtab : ℕ → Bool) (pid : ℕ) → Files → SymDesc → Held → Option (ℕ × SymDesc × Held)
unfolding find_tables sr_no_symtab sr_open_maperr
open' symtab strtab pid files desc held = elim (files.opened) [
  | none ↦ some (1, desc, held)
  | some fd ↦
      if fd == 0
      then some (1, record desc { fd = fd }, descriptor fd ∷ held)
      else (let d1 = record desc { fd = fd } in
          let held1 = descriptor fd ∷ held in
          elim (files.size) [
            | none ↦ sr_open_maperr d1 held1 >>= λ h. some (1, d1, h)
            | some len ↦ elim (files.mapped) [
              | none ↦ sr_open_maperr d1 held1 >>= λ h. some (1, d1, h)
              | some addr ↦
                  let d2 = record d1 { mem = addr; memlen = len; pid = pid } in
                  let (ret, d3) = find_tables symtab strtab files.bytes d2 in
                  if ret == 0
                  then some (0, d3, mapping addr len ∷ held1)
                  else (sr_no_symtab d3 (mapping addr len ∷ held1) >>= λ h. some (1, d3, h))
            ]
          ])
]

-- `sym_resolv_close`.
unfoldable pub close : SymDesc → Held → Option Held
close desc held =
    release (mapping desc.mem desc.memlen) held >>= λ h. release (descriptor desc.fd) h

-- `struct sym_resolv`, with the 512 bytes of the name.
pub record SymResolv : Type 0 where
  pub symaddr : ℕ
  pub symname : List ℕ

-- `strncpy(dst, p, n)`, as the bytes that it writes.
unfoldable pub strncpy : ℕ → Mem → ℕ → List ℕ
strncpy zero m p = []
strncpy (suc n) m p = let next = if m p == 0 then p else p + 1 in m p ∷ strncpy n m next

-- `start <= addr && end > addr`; `unsigned long` has 32 bits.
abbrev pub covers : Mem → (addr walker : ℕ) → Bool
covers m addr walker =
    leb (st_value m walker) addr && ltb addr ((st_value m walker + st_size m walker) % 2 ^ 32)

-- `__sym_resolv_get_funcname_by_addr`: `none` is false, and leaves the result as it was.
unfoldable pub get_funcname_by_addr : Mem → SymDesc → (addr : ℕ) → SymResolv → Option SymResolv
get_funcname_by_addr m desc addr res = elim (desc.shdrsymtab) [
  | none ↦ none
  | some symtab ↦ elim (desc.shdrstrsymtab) [
    | none ↦ none
    | some strtab ↦
        elim (scan sizeof_sym (covers m addr) (sh_size m symtab / sizeof_sym)
          (desc.mem + sh_offset m symtab)) [
            | none ↦ none
            | some walker ↦ some (record {
              symaddr = st_value m walker;
              symname = strncpy 512 m (desc.mem + sh_offset m strtab + st_name m walker);
            })
          ]
  ]
]

-- `sym_resolv_symbol`; `same p` is `strcmp(name, p) == 0`.
unfoldable pub symbol : Mem → SymDesc → (same : ℕ → Bool) → Option ℕ
symbol m desc same = elim (desc.shdrsymtab) [
  | none ↦ none
  | some symtab ↦ elim (desc.shdrstrsymtab) [
    | none ↦ none
    | some strtab ↦
        scan sizeof_sym (λ walker. same (desc.mem + sh_offset m strtab + st_name m walker))
          (sh_size m symtab / sizeof_sym) (desc.mem + sh_offset m symtab)
  ]
]

-- The body of the loop of `sym_resolv_addr`. `dladdr addr` is the name's address and the symbol's.
unfoldable pub resolve :
    Mem → SymDesc → (dladdr : ℕ → Option (ℕ × ℕ)) → (addr : ℕ) → SymResolv → SymResolv
resolve m desc dladdr addr res = elim (get_funcname_by_addr m desc addr res) [
  | some r ↦ r
  | none ↦ elim (dladdr addr) [
    | none ↦ record res { symname = 0 ∷ drop 1 res.symname }
    | some (sname, saddr) ↦ record { symaddr = saddr; symname = strncpy 512 m sname }
  ]
]

-- `sym_resolv_addr`, on the pairs of `addr[i]` and `res[i]`.
unfoldable pub resolve_addr :
    Mem → SymDesc → (dladdr : ℕ → Option (ℕ × ℕ)) → List (ℕ × SymResolv) → List SymResolv
resolve_addr m desc dladdr [] = []
resolve_addr m desc dladdr ((addr, res) ∷ rest) =
    resolve m desc dladdr addr res ∷ resolve_addr m desc dladdr rest
