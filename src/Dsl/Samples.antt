-- ===== src/Dsl/Samples.antt =====
-- dslelf/dsl_elf.c: the theorems on a file at 0 with section headers at 64 for the symbols at 256, the
-- names at 320 and the relocations at 352; the symbol number 1 is undefined.
use divers.Base.{ℕ, ◌+◌, ◌*◌, Bool, false, none, some, List, [], ◌∷◌, ◌==◌}
use divers.Memory.{Mem, words}
use divers.Dsl.Hook.{Line, World, Search}
use divers.Dsl.{ExternalSym, File, Answers, ExternalSym}

abbrev image : Mem
image = words (
    (40, 64)
    ∷ (60, 3 + 2 * 65536)
    ∷ (64, 1)
    ∷ (68, 11)
    ∷ (88, 256)
    ∷ (96, 48)
    ∷ (128, 9)
    ∷ (132, 3)
    ∷ (152, 320)
    ∷ (192, 17)
    ∷ (196, 4)
    ∷ (216, 352)
    ∷ (224, 24)
    ∷ (232, 0)
    ∷ (280, 5)
    ∷ (284, 16)
    ∷ (364, 1)
    ∷ [])

-- Where the names ".dynsym" and ".dynstr" stand among the section names at 352.
abbrev dynsym : ℕ → Bool
dynsym p = p == 353

abbrev dynstr : ℕ → Bool
dynstr p = p == 361

abbrev closed : File
closed = record { fd = 0; map = 0; size = 0 }

abbrev answers : Answers
answers = record { opened = some 3; st_size = some 400; mapped = some 4096; errno = 2 }

-- The program's maps: another file, then the library 7 at 65536, whose next line has no path.
abbrev lines : List Line
lines =
    record { addrstart = 4096; addrend = 8192; offset = 0; lib = some 6 }
    ∷ record { addrstart = 65536; addrend = 69632; offset = 0; lib = some 7 }
    ∷ record { addrstart = 69632; addrend = 73728; offset = 0; lib = none }
    ∷ []

abbrev world : World
world = record {
  dlopened = some 90;
  fopened = some 5;
  answers = λ path. record { opened = some 3; st_size = some 400; mapped = some 0; errno = 2 };
  lines = lines;
  is_lib = λ path. path == 7;
  dynsym = dynsym;
  dynstr = dynstr;
  is_funky = λ name. name == 325;
  file = image;
  funky = 12345;
}

abbrev library : Line
library = record { addrstart = 65536; addrend = 69632; offset = 0; lib = some 7 }

abbrev opened_file : File
opened_file = record { fd = 3; map = 0; size = 400 }

-- The undefined symbol, with its relocation at 352.
abbrev funky_sym : ExternalSym
funky_sym = record { rel = some 352; name = 325; sym' = 280 }

abbrev before : Search
before = record {
  find = false;
  file = closed;
  vector = record { iov_base = 0; iov_len = 0 };
  held = [];
}
