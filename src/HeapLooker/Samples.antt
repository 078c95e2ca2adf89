-- ===== src/HeapLooker/Samples.antt =====
-- heap_looker/heap_looker.c: the theorem at an allocator that hands out addresses one behind the other.
use divers.Base.{
  ℕ, ◌+◌, ◌*◌, ◌≡◌, refl, true, false, none, some, List, [], ◌∷◌, ◌==◌, if◌then◌else◌,
}
use divers.DbgPrint.{dbg_printf}
use divers.HeapLooker.{
  Allocator, System, Looker, action_alloc, action_free, call_addr, call_name, malloc, calloc,
  realloc, free, load_func_if, write_alloc, write_free, write_call,
}
use divers.HeapLooker.Transparent.{
  Call, to_malloc, to_free, run, perform, run_direct, log, run-IsTransparent,
}

-- No block is longer than 1000 bytes.
abbrev bump : Allocator ℕ
bump = record {
  malloc_ptr = λ len h. if len == 1000 then (0, h) else (h, h + len);
  calloc_ptr = λ a b h. (h, h + a * b);
  realloc_ptr = λ base a h. (h, h + a);
  free_ptr = λ base h. h;
}

abbrev system : System ℕ
system = record {
  next = bump;
  dlsym = λ name. true;
  dladdr = λ ptr. if ptr == 7 then some 70 else none;
  show_trace = true;
  stdout = 1;
}

abbrev started : Looker ℕ
started = record { fp = 2; loaded = λ name. false; heap = 4096; out = [] }

abbrev calls : List Call
calls = to_malloc 7 10 ∷ to_malloc 8 1000 ∷ to_free 8 4096 ∷ []

-- The block that is not given is not told.
printed :
    (run system calls started).1.out
    ≡ (2, call_addr 8) ∷ (2, action_free 4096) ∷ (2, call_name 70) ∷ (2, action_alloc 4096 10) ∷ []
unfolding run perform malloc calloc realloc free load_func_if write_alloc write_free write_call
    dbg_printf
printed = refl

run-IsTransparent_example :
    let (rs, s') = run system calls started in
    let (rs', heap) = run_direct system calls started.heap in
    (rs ≡ rs')
    × (s'.heap ≡ heap)
    × (s'.fp ≡ started.fp)
    × (s'.out ≡ log system started.fp calls rs' started.out)
run-IsTransparent_example = run-IsTransparent system (λ name. refl) calls started
