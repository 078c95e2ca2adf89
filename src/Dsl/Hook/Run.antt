-- ===== src/Dsl/Hook/Run.antt =====
-- dslelf/dsl_elf.c: `main` from the search in the maps to the last release.
use divers.Base.{ℕ, ◌-◌, ◌^◌, ◌<◌, ◌≡◌, ◌≢◌, ◌⊎◌, Bool, true, false, some, List, ◌∷◌}
use divers.Resources.{Held, mapping, descriptor}
use divers.Dsl.{Answers, File, ExternalSym, get_external_syms}
use divers.Dsl.Hook.{Line, Search, World, path_of}
use divers.Dsl.Hook.Slots.{AreSlots, AreLoose}

-- The first line of offset 0 whose path has the name; a line without a path has that of the line before.
pub data Finds (same : ℕ → Bool) : List Line → (lib : ℕ) → Line → (path : ℕ) → Type 0 where
  here :
      (l : Line) (ls : List Line) (lib path : ℕ)
      → l.offset ≡ 0
      → path ≡ path_of lib l
      → same path ≡ true
      → Finds same (l ∷ ls) lib l path
  there :
      {ls : List Line} {l : Line} {path : ℕ} (k : Line) (lib : ℕ)
      → (k.offset ≢ 0) ⊎ (same (path_of lib k) ≡ false)
      → Finds same ls (path_of lib k) l path
      → Finds same (k ∷ ls) lib l path

-- What the opening of the found file gives.
pub record Opens (a : Answers) (f : File) : Type 0 where
  pub opened : a.opened ≡ some f.fd
  pub sized : a.st_size ≡ some f.size
  pub mapped : a.mapped ≡ some f.map

abbrev opened_search : Line → File → Held → Search
opened_search l f held = record {
  find = true;
  file = f;
  vector = record { iov_base = l.addrstart; iov_len = l.addrend - l.addrstart };
  held = mapping f.map f.size ∷ descriptor f.fd ∷ held;
}

-- What `main` runs into: the library is loaded and in the maps, its file can be opened and has its symbols, each
-- symbol with the name has a relocation, and their words are the same or apart.
pub record IsWorld (w : World) (lib : ℕ) (dl fp : ℕ) (l : Line) (path : ℕ) (f : File)
    (out : List ExternalSym) (ss : List ℕ) : Type 0 where
  pub loaded : w.dlopened ≡ some dl
  pub maps : w.fopened ≡ some fp
  pub finds : Finds w.is_lib w.lines lib l path
  pub opens : Opens (w.answers path) f
  pub symbols : get_external_syms w.file f.map w.dynsym w.dynstr ≡ some out
  pub hooks : AreSlots w.file w.is_funky l.addrstart out ss
  pub loose : AreLoose ss
  pub word : w.funky < 2 ^ 64
