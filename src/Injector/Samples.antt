-- ===== src/Injector/Samples.antt =====
-- got_modifier/process_injector.c: the theorems on six bytes of code at 200 that go over the text at 8192.
use divers.Base.{
  ℕ, ◌+◌, ◌*◌, ◌≤◌, ◌<◌, ◌≡◌, ◌⊎◌, ◌↔◌, Bool, true, [], arith, ◌==◌, if◌then◌else◌, ltb, ◌%◌,
}
use divers.Memory.{Mem, SameOutside}
use divers.Injector.{Tracee, rounds, read_at, inject}
use divers.Injector.Copy.{read_at_copies}
use divers.Injector.Restore.{IsInject, inject-IsInject}

abbrev own : Mem
own x = if ltb x 256 then x else 0

abbrev traced : Tracee
traced = record {
  mem = λ x. if x == 8193 then 7 else 0;
  regs = record { eip = 9000; eax = 5; others = [] };
}

-- The code stores a byte at 40 and leaves 77 in `eax`.
abbrev resume : Tracee → Tracee
resume t = record {
  mem = λ x. if x == 40 then 1 else t.mem x;
  regs = record { eip = 8200; eax = 77; others = [] };
}

read_at_copies_example :
    ((k : ℕ)
      → k < 4 * rounds 6
      → read_at own traced.mem 1000 6 8192 (1000 + k) ≡ traced.mem (8192 + k))
    × SameOutside 1000 (4 * rounds 6) own (read_at own traced.mem 1000 6 8192)
    × ((4 * rounds 6 ≤ 6 + 1) ↔ ((◌≡◌ {A = ℕ} (6 % 4) 0) ⊎ (◌≡◌ {A = ℕ} (6 % 4) 3)))
read_at_copies_example = read_at_copies own traced.mem 1000 6 8192 (λ x. ground arith)

inject-IsInject_example :
    IsInject true resume own traced 1000 8192 200
      (4 * rounds 6)
      (inject true resume own 1000 traced 8192 200 6)
inject-IsInject_example =
    inject-IsInject true resume own 1000 traced 8192 200 6 (λ x. ground arith) (λ x. ground arith)
      (omega arith)

abbrev is_library : ℕ → Bool
is_library line = line == 2
