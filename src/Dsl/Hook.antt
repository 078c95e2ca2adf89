-- ===== src/Dsl/Hook.antt =====
-- dslelf/dsl_elf.c: `dls_search_dso` over the lines of the process's maps, and `main`, which points a function of
-- a loaded library elsewhere. The bytes of the file that is mapped and those of the loaded library are two
-- memories. A line is what `sscanf` reads of it; the text of a path is a number, and `strcmp` a test on it.
pub mod Slots
pub mod Run
use divers.Base.{
  ℕ, ◌+◌, ◌-◌, Bool, true, false, ◌&&◌, Option, none, some, List, [], ◌∷◌, ◌==◌, if◌then◌else◌,
}
use divers.Memory.{Mem, load, store}
use divers.Resources.{Held, handle, stream, release, ◌>>=◌}
use divers.Dsl.{Answers, File, ExternalSym, file_open, file_close, get_external_syms}

-- What `sscanf` sets; a line without a path leaves `lib` as it was.
pub record Line : Type 0 where
  pub addrstart : ℕ
  pub addrend : ℕ
  pub offset : ℕ
  pub lib : Option ℕ

-- `struct iovec`.
pub record Vector : Type 0 where
  pub iov_base : ℕ
  pub iov_len : ℕ

-- What `dls_search_dso` changes: `find`, the file, the vector and what is held.
pub record Search : Type 0 where
  pub find : Bool
  pub file : File
  pub vector : Vector
  pub held : Held

-- `lib` behind the line.
abbrev pub path_of : ℕ → Line → ℕ
path_of lib l = elim (l.lib) [ none ↦ lib | some path ↦ path ]

-- The loop; `same lib` is `strcmp(basename(lib), name) == 0`, and `answers lib` is for `dls_file_open`, whose
-- result is not looked at.
unfoldable pub search_loop :
    (answers : ℕ → Answers) (same : ℕ → Bool) → List Line → (lib : ℕ) → Search → Option Search
unfolding file_open
search_loop answers same [] lib s = some s
search_loop answers same (l ∷ ls) lib s =
    let rest = search_loop answers same ls (path_of lib l) s in
    if (l.offset == 0) && same (path_of lib l)
    then (file_open (answers (path_of lib l)) s.file s.held >>= λ r.
        let (ret, f, h) = r in
        some (record {
          find = true;
          file = f;
          vector = record { iov_base = l.addrstart; iov_len = l.addrend - l.addrstart };
          held = h;
        }))
    else rest

-- `dls_search_dso`: `find` is false when it returns -1 too.
unfoldable pub search_dso :
    (fopened : Option ℕ) (answers : ℕ → Answers) (same : ℕ → Bool)
    → List Line
    → (lib : ℕ) → Search
    → Option Search
unfolding search_loop
search_dso none answers same ls lib s = some s
search_dso (some fp) answers same ls lib s =
    search_loop answers same ls lib (record s { held = stream fp ∷ s.held }) >>= λ s'.
    release (stream fp) s'.held >>= λ h. some (record s' { held = h })

-- The loop of `main`: `*(uint64_t*)(iov_base + de_rel->r_offset) = funky`; NULL in `de_rel` is a fault.
unfoldable pub hook_loop :
    (m : Mem) (same : ℕ → Bool) (iov_base funky : ℕ) → List ExternalSym → Mem → Option Mem
hook_loop m same iov_base funky [] p = some p
hook_loop m same iov_base funky (e ∷ es) p = elim (same e.name) [
  | true ↦ e.rel >>= λ rel.
      hook_loop m same iov_base funky es (store 8 p (iov_base + load 8 m rel) funky)
  | false ↦ hook_loop m same iov_base funky es p
]

-- What `main` runs with: the answers of the system, the names, and the bytes of the file at its mapping.
pub record World : Type 0 where
  pub dlopened : Option ℕ
  pub fopened : Option ℕ
  pub answers : ℕ → Answers
  pub lines : List Line
  pub is_lib : ℕ → Bool
  pub dynsym : ℕ → Bool
  pub dynstr : ℕ → Bool
  pub is_funky : ℕ → Bool
  pub file : Mem
  pub funky : ℕ

-- `main` up to the call of the library's function, and what is released behind it; `s` is what its variables
-- hold before. `none` is a read through NULL or the release of what is not held.
unfoldable pub main : World → (lib : ℕ) → Search → Mem → Option (Mem × Held)
main w lib s p = elim (w.dlopened) [
  | none ↦ some (p, s.held)
  | some dl ↦
      search_dso w.fopened w.answers w.is_lib w.lines lib (record s { held = handle dl ∷ s.held })
      >>= λ s'. get_external_syms w.file s'.file.map w.dynsym w.dynstr >>= λ out.
          hook_loop w.file w.is_funky s'.vector.iov_base w.funky out p >>= λ p'.
          release (handle dl) s'.held >>= λ h. file_close s'.file h >>= λ h'. some (p', h')
]
