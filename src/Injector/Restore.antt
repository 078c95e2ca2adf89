-- ===== src/Injector/Restore.antt =====
-- got_modifier/process_injector.c: the injected code is gone when the process is let go.
use divers.Base.{
  ℕ, ◌+◌, ◌*◌, ◌%◌, ◌^◌, ◌<◌, ◌≡◌, refl, ◌∙◌, arith, Bool, true, false, Option, none, some,
}
use divers.Memory.{Mem, IsBytes, SameOutside, Apart}
use divers.Injector.{Tracee, rounds, read_at, prepared, load_dso, inject}
use divers.Injector.Copy.{read_at_copies, read_at-IsBytes, write_at_copies}

-- What the injected run is given, and what it leaves, for an injection of `n` bytes at `text`: it starts
-- with the code of `own` at `sh` in place of the text and `eip` two bytes behind its start; then the text
-- and all registers are again as they were, all other bytes are what the run made of them, and the
-- result is its `eax`.
pub record IsInjected (resume : Tracee → Tracee) (own : Mem) (tracee : Tracee) (text sh n : ℕ)
    (ret : ℕ) (after : Tracee) : Type 0 where
  pub start : Tracee
  pub code : (k : ℕ) → k < n → start.mem (text + k) ≡ own (sh + k)
  pub rest : SameOutside text n tracee.mem start.mem
  pub eip : start.regs.eip ≡ (text + 2) % 2 ^ 32
  pub eax : start.regs.eax ≡ tracee.regs.eax
  pub others : start.regs.others ≡ tracee.regs.others
  pub result : ret ≡ (resume start).regs.eax
  pub regs : after.regs ≡ tracee.regs
  pub text_back : (k : ℕ) → k < n → after.mem (text + k) ≡ tracee.mem (text + k)
  pub kept : SameOutside text n (resume start).mem after.mem

-- With a buffer that is apart from the code, `process_injector_load_dso` runs the code over the text and puts
-- the text and the registers back; the memory of the injector changes in the buffer only.
load_dso-IsInjected :
    (resume : Tracee → Tracee) (own : Mem) (buffer : ℕ) (tracee : Tracee) (text sh shlen : ℕ)
    → IsBytes own
    → IsBytes tracee.mem
    → Apart buffer (4 * rounds shlen) sh (4 * rounds shlen)
    → (let (ret, own', after) = load_dso resume own buffer tracee text sh shlen in
        IsInjected resume own tracee text sh (4 * rounds shlen) ret after
        × SameOutside buffer (4 * rounds shlen) own own')
unfolding load_dso prepared
load_dso-IsInjected resume own buffer tracee text sh shlen b bt apart =
    let own' = read_at own tracee.mem buffer shlen text in
    let (filled, same, fits) = read_at_copies own tracee.mem buffer shlen text bt in
    let bytes = read_at-IsBytes own tracee.mem buffer shlen text b bt in
    let start = prepared own' tracee text sh shlen in
    let stopped = (resume start).mem in
    let (laid, around) = write_at_copies own' tracee.mem sh shlen text bytes in
    let (back, beside) = write_at_copies own' stopped buffer shlen text bytes in
    (
      record {
        start = start;
        code = λ k lt. laid k lt ∙ same (sh + k) (omega arith);
        rest = around;
        eip = refl;
        eax = refl;
        others = refl;
        result = refl;
        regs = refl;
        text_back = λ k lt. back k lt ∙ filled k lt;
        kept = beside;
      },
      same,
    )

-- What `process_injector_inject` does: it ends the process if it cannot attach, or else injects.
abbrev pub IsInject :
    Bool
    → (Tracee → Tracee)
    → (own : Mem) → Tracee
    → (buffer text sh n : ℕ) → Option (ℕ × Mem × Tracee)
    → Type 0
IsInject attached resume own tracee buffer text sh n none = attached ≡ false
IsInject attached resume own tracee buffer text sh n (some (ret, own', after)) =
    (attached ≡ true)
    × IsInjected resume own tracee text sh n ret after
    × SameOutside buffer n own own'

-- If the buffer and the code are apart, `process_injector_inject` ends the process when PTRACE_ATTACH fails,
-- and else lets the traced process run exactly once, with the code over its text; it returns what that
-- run leaves in `eax`, and puts back the text, up to a multiple of four bytes, and all registers. What
-- the run wrote elsewhere stays; the injector's memory changes in the buffer only.
pub inject-IsInject :
    (attached : Bool) (resume : Tracee → Tracee) (own : Mem) (buffer : ℕ) (tracee : Tracee)
    (text sh shlen : ℕ)
    → IsBytes own
    → IsBytes tracee.mem
    → Apart buffer (4 * rounds shlen) sh (4 * rounds shlen)
    → IsInject attached resume own tracee buffer text sh
        (4 * rounds shlen)
        (inject attached resume own buffer tracee text sh shlen)
unfolding inject
inject-IsInject false resume own buffer tracee text sh shlen b bt apart = refl
inject-IsInject true resume own buffer tracee text sh shlen b bt apart =
    let (injected, same) = load_dso-IsInjected resume own buffer tracee text sh shlen b bt apart in
    (refl, injected, same)
