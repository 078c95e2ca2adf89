-- ===== src/Elf.antt =====
-- The reading of ELF images that got_modifier/linux_obj_parser.c, sym_resolv/sym_resolver.c and
-- dslelf/dsl_elf.c share: a loop over the records of a table, which stops at the first that passes a
-- test. An image is bytes, a pointer into it is a number.
pub mod First
pub mod Class32
use divers.Base.{ℕ, zero, suc, ◌+◌, Bool, Option, none, some, if◌then◌else◌}

-- `for(i = 0; i < n; ++i, ++p) if(test(p)) return p;` over records of `size` bytes, and NULL behind.
unfoldable pub scan : (size : ℕ) → (ℕ → Bool) → (n p : ℕ) → Option ℕ
scan size test zero p = none
scan size test (suc n) p = let rest = scan size test n (p + size) in if test p then some p else rest

-- The same loop around a search in each record, which returns the first result.
unfoldable pub scan_in : (size : ℕ) → (ℕ → Option ℕ) → (n p : ℕ) → Option ℕ
scan_in size search zero p = none
scan_in size search (suc n) p =
    let rest = scan_in size search n (p + size) in elim (search p) [ none ↦ rest | some r ↦ some r ]
