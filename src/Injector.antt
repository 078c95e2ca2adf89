-- ===== src/Injector.antt =====
-- got_modifier/process_injector.c, on i386: words of a stopped process are read, code is written over its
-- text and run, and the text and the registers are put back. `ptrace` is the system's: it reads and
-- writes the traced process, and its calls are taken to succeed unless they are looked at. What the
-- process does between PTRACE_CONT and its trap is a parameter.
pub mod Copy
pub mod Restore
pub mod Maps
mod Samples
use divers.Base.{
  ℕ, zero, suc, ◌+◌, ◌/◌, ◌%◌, ◌^◌, Bool, true, false, Option, none, some, List, [], ◌∷◌,
  if◌then◌else◌, not,
}
use divers.Memory.{Mem, load, store}
use divers.Resources.{Held, stream, release, ◌>>=◌}

-- `sizeof(long)`, and how often `for(i = 0; i < l; i += sizeof(long))` goes round.
abbrev pub sizeof_long : ℕ
sizeof_long = 4

abbrev pub rounds : (l : ℕ) → ℕ
rounds l = (l + 3) / sizeof_long

-- `struct user_regs_struct`: the two registers that are used, and the others.
pub record Regs : Type 0 where
  pub eip : ℕ
  pub eax : ℕ
  pub others : List ℕ

-- A traced process.
pub record Tracee : Type 0 where
  pub mem : Mem
  pub regs : Regs

-- The loop of `process_injector_read_at`: words of the process go to the buffer at `ptr`.
pub peek_loop : (n : ℕ) (own tracee : Mem) (ptr addr : ℕ) → Mem
peek_loop zero own tracee ptr addr = own
peek_loop (suc n) own tracee ptr addr =
    peek_loop n (store sizeof_long own ptr (load sizeof_long tracee addr)) tracee
      (ptr + sizeof_long) (addr + sizeof_long)

-- `process_injector_read_at`.
unfoldable pub read_at : (own tracee : Mem) (buff l base_addr : ℕ) → Mem
read_at own tracee buff l base_addr = peek_loop (rounds l) own tracee buff base_addr

-- The loop of `process_injector_write_at`.
pub poke_loop : (n : ℕ) (own tracee : Mem) (ptr addr : ℕ) → Mem
poke_loop zero own tracee ptr addr = tracee
poke_loop (suc n) own tracee ptr addr =
    poke_loop n own (store sizeof_long tracee addr (load sizeof_long own ptr)) (ptr + sizeof_long)
      (addr + sizeof_long)

-- `process_injector_write_at`.
unfoldable pub write_at : (own tracee : Mem) (buffer l base_addr : ℕ) → Mem
write_at own tracee buffer l base_addr = poke_loop (rounds l) own tracee buffer base_addr

-- The process as `process_injector_load_dso` lets it go on: the code at `sh` lies over its text.
unfoldable pub prepared : (own : Mem) (tracee : Tracee) (text sh shlen : ℕ) → Tracee
prepared own tracee text sh shlen = record {
  mem = write_at own tracee.mem sh shlen text;
  regs = record (tracee.regs) { eip = (text + 2) % 2 ^ 32 };
}

-- `process_injector_load_dso`, with `buffer` at an address of the own memory: what it returns, that memory,
-- and the process.
unfoldable pub load_dso :
    (resume : Tracee → Tracee) (own : Mem) (buffer : ℕ)
    → Tracee
    → (text sh shlen : ℕ) → ℕ × Mem × Tracee
unfolding read_at write_at prepared
load_dso resume own buffer tracee text sh shlen =
    let bckreg = tracee.regs in
    let own' = read_at own tracee.mem buffer shlen text in
    let stopped = resume (prepared own' tracee text sh shlen) in
    (
      stopped.regs.eax,
      own',
      record { mem = write_at own' stopped.mem buffer shlen text; regs = bckreg },
    )

-- `process_injector_inject`: `none` is `exit(1)`, when PTRACE_ATTACH fails.
unfoldable pub inject :
    (attached : Bool) (resume : Tracee → Tracee) (own : Mem) (buffer : ℕ)
    → Tracee
    → (text sh shlen : ℕ) → Option (ℕ × Mem × Tracee)
unfolding load_dso
inject attached resume own buffer tracee text sh shlen =
    if not attached then none else some (load_dso resume own buffer tracee text sh shlen)

-- The loop of `process_injector_check_for_dso`. A line stands for its text, and `strstr line` says that the
-- name is in it. Behind the last line `fgets` leaves `line` as it was.
unfoldable pub maps_loop : (strstr : ℕ → Bool) (line : ℕ) → List ℕ → Bool
maps_loop strstr line [] = strstr line
maps_loop strstr line (l ∷ ls) = let rest = maps_loop strstr l ls in if strstr l then true else rest

-- `process_injector_check_for_dso`, with the stream that `fopen` gives; `line` is not initialised.
unfoldable pub check_for_dso :
    (fopened : Option ℕ) (strstr : ℕ → Bool) (line : ℕ) (maps : List ℕ)
    → Held
    → Option (Bool × Held)
unfolding maps_loop
check_for_dso none strstr line maps held = some (false, held)
check_for_dso (some fp) strstr line maps held =
    let ret = maps_loop strstr line maps in
    release (stream fp) (stream fp ∷ held) >>= λ h. some (ret, h)
