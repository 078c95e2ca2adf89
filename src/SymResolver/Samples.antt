-- ===== src/SymResolver/Samples.antt =====
-- sym_resolv/sym_resolver.c: the theorems on a file mapped at 4096, with section headers at 4160 for the
-- symbols at 4352 and the names of symbols and sections at 4480.
use divers.Base.{ℕ, ◌≡◌, refl, Bool, Option, none, some, List, [], ◌∷◌, ◌==◌}
use divers.Memory.{Mem, words}
use divers.SymResolver.{SymDesc, SymResolv, Files, open', sr_open_maperr}
use divers.SymResolver.Program.{Setting, un, unable, main}
use divers.Resources.{release}
use divers.SymResolver.Open.{IsOpened, open-IsOpened}

abbrev image : Mem
image = words (
    (4128, 64)
    ∷ (4144, 2)
    ∷ (4146, 1)
    ∷ (4160, 1)
    ∷ (4176, 256)
    ∷ (4180, 32)
    ∷ (4200, 9)
    ∷ (4216, 384)
    ∷ (4368, 17)
    ∷ (4372, 1000)
    ∷ (4376, 50)
    ∷ [])

abbrev blank : SymDesc
blank = record {
  fd = 0;
  mem = 0;
  memlen = 0;
  pid = 0;
  ehdr = 0;
  shdr = 0;
  shdrstrsectab = none;
  shdrsymtab = none;
  shdrstrsymtab = none;
  sectionstr = 0;
}

abbrev ready : SymDesc
ready = record {
  fd = 3;
  mem = 4096;
  memlen = 600;
  pid = 42;
  ehdr = 4096;
  shdr = 4160;
  shdrstrsectab = some 4200;
  shdrsymtab = some 4160;
  shdrstrsymtab = some 4200;
  sectionstr = 4480;
}

abbrev files : Files
files = record { opened = some 3; size = some 600; mapped = some 4096; bytes = image }

-- The addresses of the names ".symtab", ".strtab" and "f1".
abbrev symtab : ℕ → Bool
symtab p = p == 4481

abbrev strtab : ℕ → Bool
strtab p = p == 4489

abbrev f1 : ℕ → Bool
f1 p = p == 4497

abbrev unknown : ℕ → Option (ℕ × ℕ)
unknown addr = none

abbrev work : List (ℕ × SymResolv)
work =
    (1010, record { symaddr = 0; symname = [] })
    ∷ (77, record { symaddr = 5; symname = 65 ∷ [] })
    ∷ []

open-IsOpened_example : IsOpened symtab strtab files [] (open' symtab strtab 42 files blank [])
open-IsOpened_example = open-IsOpened symtab strtab 42 files blank []

abbrev setting : Setting
setting = record {
  symtab = symtab;
  strtab = strtab;
  is_toto = f1;
  pid = 42;
  files = files;
  dladdr = unknown;
  addresses = un 1010 2000 3000 4000;
  old_desc = blank;
  old_res = λ i. record { symaddr = i; symname = [] };
}

main_refused :
    main (record setting { files = record files { mapped = none } }) [] ≡ some (unable ∷ [], [])
unfolding main open' sr_open_maperr release
main_refused = refl
