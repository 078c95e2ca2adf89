-- ===== src/MapParser/Replace.antt =====
-- got_modifier/map_parser.c: `map_parser_replace_virtual_addrfunc`, which points a function of the traced
-- program to one of the injected library, and `main`. `strcmp` against a name is a test on addresses.
pub mod Patched
use divers.Base.{
  ℕ, zero, suc, ◌+◌, ◌%◌, ◌^◌, Bool, true, false, ◌&&◌, not, ◌==◌, if◌then◌else◌, Option, none,
  some, List, [], ◌∷◌,
}
use divers.Memory.{Mem, load, store}
use divers.Resources.{Held, ◌>>=◌}
use divers.Elf.Class32.{st_value}
use divers.ObjParser.{Dynsym, LopInfo}
use divers.ObjParser.Display.{display}
use divers.Injector.{Tracee, inject}
use divers.MapParser.{
  Ended, returned, exit, fault, spent, LibDesc, TaskDesc, Answers, after, init_lib_hooker,
  exit_lib_hooker, init, exit_task,
}

-- `lop_symname && !strcmp(lop_symname, fname)`.
abbrev pub is_named : (same : ℕ → Bool) → Dynsym → Bool
is_named same e = not (e.symname == 0) && same e.symname

-- The first loop: the relocation of the first symbol with the name.
pub find_rel : (same : ℕ → Bool) → List Dynsym → Option ℕ
find_rel same [] = none
find_rel same (e ∷ es) = if is_named same e then e.rel else find_rel same es

-- The second loop has no `break`: `sym2` is that of the last symbol with the name.
pub find_sym : (same : ℕ → Bool) → List Dynsym → (sym2 : Option ℕ) → Option ℕ
find_sym same [] sym2 = sym2
find_sym same (e ∷ es) sym2 = find_sym same es (if is_named same e then some e.sym' else sym2)

-- `sym1->r_offset`.
abbrev pub r_offset : Mem → ℕ → ℕ
r_offset m rel = load 4 m rel

-- `map_parser_replace_virtual_addrfunc`: the program's and the library's files are in `m1` and `m2`, and
-- `attached` says that PTRACE_ATTACH succeeds.
unfoldable pub replace_virtual_addrfunc :
    (same1 same2 : ℕ → Bool) (attached : Bool) (m1 m2 : Mem) (plt1 plt2 : List Dynsym)
    (lib_vaddr : ℕ)
    → Tracee
    → Tracee
unfolding find_rel find_sym
replace_virtual_addrfunc same1 same2 attached m1 m2 plt1 plt2 lib_vaddr t =
    elim (find_rel same1 plt1) [
      | none ↦ t
      | some sym1 ↦ elim (find_sym same2 plt2 none) [
        | none ↦ t
        | some sym2 ↦
            let new_val = (lib_vaddr + st_value m2 sym2) % 2 ^ 32 in
            if not attached then t else record t { mem = store 4 t.mem (r_offset m1 sym1) new_val }
      ]
    ]

-- `sizeof(sh)`, with the NUL at its end.
abbrev pub sizeof_sh : ℕ
sizeof_sh = 90

-- What `main` runs with: the calls to `printf` and `evilprint` by their names, the answers for both files,
-- whether each PTRACE_ATTACH succeeds, and the injector's memory with the code and the buffer. `readable` says
-- whether all that `lop_display` follows of a description that was never filled is mapped.
pub record World : Type 0 where
  pub same1 : ℕ → Bool
  pub same2 : ℕ → Bool
  pub task : Answers
  pub library : Answers
  pub attached : Bool
  pub attached_again : Bool
  pub readable : LopInfo → Bool
  pub resume : Tracee → Tracee
  pub own : Mem
  pub buffer : ℕ
  pub sh : ℕ

-- `main` behind both files, with the library as it is described.
unfoldable pub patch : World → TaskDesc → LibDesc → Tracee → Held → Ended Tracee
unfolding replace_virtual_addrfunc
patch w td lib t held =
    elim (inject w.attached w.resume w.own w.buffer t td.info.segs.textvaddr w.sh sizeof_sh) [
      | none ↦ exit
      | some (addr_dso, own', t1) ↦
          let t2 =
            replace_virtual_addrfunc w.same1 w.same2 w.attached_again w.task.bytes w.library.bytes
              td.info.plt lib.info.plt addr_dso t1 in
          after (exit_task td held >>= λ h. exit_lib_hooker lib h) (λ h. returned 0 t2 h)
    ]

-- `main` from the first `lop_display` on. `described` says that `map_parser_init_lib_hooker` returned 0.
unfoldable pub display_patch :
    (fuel : ℕ) (described : Bool) → World → TaskDesc → LibDesc → Tracee → Held → Ended Tracee
unfolding display patch
display_patch fuel described w td lib t held = elim (display w.task.bytes fuel td.info) [
  | none ↦ spent
  | some _ ↦
      if not described && not (w.readable lib.info)
      then fault
      else elim (display w.library.bytes fuel lib.info) [
        | none ↦ spent
        | some _ ↦ patch w td lib t held
      ]
]

-- `main`, which returns 1 without its two arguments. It does not look at what
-- `map_parser_init_lib_hooker` returns; `lib` is what its variable holds before.
unfoldable pub main : (argc fuel : ℕ) → World → (lib : LibDesc) → Tracee → Held → Ended Tracee
unfolding display_patch
main argc fuel w lib t held =
    if not (argc == 3) then returned 1 t held else elim (init fuel w.task held) [
      | exit ↦ exit
      | fault ↦ fault
      | spent ↦ spent
      | returned r td h ↦ elim (init_lib_hooker fuel w.library lib h) [
        | exit ↦ exit
        | fault ↦ fault
        | spent ↦ spent
        | returned r' lib' h' ↦ display_patch fuel (r' == 0) w td lib' t h'
      ]
    ]
