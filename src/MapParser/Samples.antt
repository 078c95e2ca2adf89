-- ===== src/MapParser/Samples.antt =====
-- got_modifier/map_parser.c: the theorems on files whose image, at 4096, has two program headers and a
-- section of one dynamic symbol.
use divers.Base.{
  ◌+◌, ◌==◌, ◌≤◌, ◌%◌, ◌^◌, ◌++◌, ◌-◌, List, length, Bool, true, Option, none, ℕ, ◌<◌, ◌≡◌, refl,
  some, [], ◌∷◌, subst,
}
use mathlib.Core.Option.{some-injective}
use mathlib.Core.Path.{sym}
use divers.Memory.{Mem, words, store, load, poke}
use divers.ObjParser.{e_phnum}
use divers.MapParser.{Answers, LibDesc, init}
use divers.ObjParser.{Dynsym}
use divers.Injector.{Tracee}
use divers.MapParser.Digits.{decimal, IsNumber}
use divers.MapParser.FileNames.{
  proc, exe, buff2_len, procfs_name, build_procfs_filename, init_task, maps_text, exe_text,
  init_task-names,
}
use divers.MapParser.Replace.{replace_virtual_addrfunc}
use divers.MapParser.Replace.Patched.{First, Last, IsReplaced, replace-IsReplaced}

abbrev image : Mem
image = words (
    (4124, 64)
    ∷ (4128, 128)
    ∷ (4140, 2)
    ∷ (4144, 2)
    ∷ (4160, 1)
    ∷ (4168, 4096)
    ∷ (4184, 5)
    ∷ (4192, 1)
    ∷ (4200, 8192)
    ∷ (4216, 6)
    ∷ (4228, 11)
    ∷ (4240, 256)
    ∷ (4244, 16)
    ∷ (4248, 1)
    ∷ (4268, 3)
    ∷ (4280, 320)
    ∷ [])

abbrev answers : Answers
answers = record {
  size = some 400;
  fopened = some 9;
  opened = some 3;
  mapped = some 4096;
  bytes = image;
}

abbrev unset : LibDesc
unset = record {
  fd = 0;
  base = 0;
  len = 0;
  info = record {
    ehdr = 0;
    phdr = 0;
    shdr = 0;
    segs = record { nb_affect = 0; textvaddr = 0; datavaddr = 0 };
    plt = [];
  };
}

two_headers : e_phnum image 4096 ≡ 2
unfolding store load poke
two_headers = refl

headers_below :
    (n : ℕ) → 2 < n → (addr : ℕ) → answers.mapped ≡ some addr → e_phnum answers.bytes addr < n
headers_below n h addr e =
    subst (λ x. e_phnum image x < n) (some-injective 4096 addr e)
      (subst (λ k. k < n) (sym two_headers) h)

-- The program's table has `printf` with a relocation at 200, the library's `evilprint` at 260; the file's
-- names stand at 301 and 302.
abbrev files : Mem
files = words ((200, 5000) ∷ (264, 48) ∷ [])

abbrev printf : Dynsym
printf = record { sym' = 220; rel = some 200; symname = 301 }

abbrev evilprint : Dynsym
evilprint = record { sym' = 260; rel = none; symname = 302 }

abbrev is_printf : ℕ → Bool
is_printf p = p == 301

abbrev is_evilprint : ℕ → Bool
is_evilprint p = p == 302

abbrev program : Tracee
program = record { mem = λ x. 0; regs = record { eip = 1; eax = 2; others = [] } }

replace-IsReplaced_example :
    (o1 : Option Dynsym) × (o2 : Option Dynsym) × First is_printf (evilprint ∷ printf ∷ []) o1
    × Last is_evilprint (evilprint ∷ []) o2
    × IsReplaced true files files o1 o2 65536 program (
        replace_virtual_addrfunc is_printf is_evilprint true files files
          (evilprint ∷ printf ∷ [])
          (evilprint ∷ [])
          65536
          program)
replace-IsReplaced_example =
    replace-IsReplaced is_printf is_evilprint true files files (evilprint ∷ printf ∷ [])
      (evilprint ∷ []) 65536 program

-- A system whose files of a shorter name are shorter.
abbrev named : (buff buff2 : List ℕ) → Answers
named buff buff2 = record answers { size = some (400 + length buff2) }

-- The process 70000, whose low 16 bits are 4464.
init_task-names_example :
    (digits : List ℕ) × IsNumber 4464 digits
    × (init_task 3 70000 named [] ≡ init 3 (named (maps_text digits) (exe_text digits)) [])
    × (length (maps_text digits) ≤ 17)
    × (length (exe_text digits) ≤ 16)
    × ((numpid' : ℕ)
        → numpid' % 2 ^ 16 ≡ 4464
        → init_task 3 numpid' named [] ≡ init 3 (named (maps_text digits) (exe_text digits)) [])
init_task-names_example = init_task-names 3 70000 named []

names_4464 :
    build_procfs_filename 70000 exe buff2_len
    ≡ (15 - 1, proc ++ (52 ∷ 52 ∷ 54 ∷ 52 ∷ 47 ∷ exe) ++ (0 ∷ []))
unfolding build_procfs_filename procfs_name decimal
names_4464 = refl
