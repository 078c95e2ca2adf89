-- ===== src/HeapPool.antt =====
-- heap_pool/heap_pool.h and heap_pool/heap_pool.c: a pool of equal chunks in one mapping, built for
-- x86_64 without HP_HAVE_SHM, HEAP_POOL_DBHOOK and HEAP_POOL_OVERFLOW_DBG, as the Makefile builds it.
-- A pointer is its 64-bit number. The descriptor's fields are a record beside the bytes of the
-- mapping; its 72 bytes (nine words of eight) stand before `hpd_raw`.
pub mod Align
pub mod Layout
pub mod Invariant
pub mod Create
pub mod Ops
pub mod Client
pub mod Refine
pub mod Sharing
pub mod Program
mod Samples
use divers.Base.{
  ℕ, zero, suc, ◌+◌, ◌-◌, ◌*◌, ◌/◌, ◌%◌, ◌^◌, bit_and, Bool, ◌&&◌, ◌||◌, not, Option, none, some,
  ltb, leb, ◌==◌, if◌then◌else◌,
}
use divers.Memory.{Mem, load, store}

-- Arithmetic on `size_t`.
abbrev pub word_mod : ℕ
word_mod = 2 ^ 64

unfoldable pub add64 : ℕ → ℕ → ℕ
add64 a b = (a + b) % word_mod

unfoldable pub sub64 : ℕ → ℕ → ℕ
sub64 a b = (a + word_mod - b) % word_mod

unfoldable pub mul64 : ℕ → ℕ → ℕ
mul64 a b = a * b % word_mod

-- `sizeof(size_t)` and `sizeof(struct heap_pool_desc)`.
abbrev pub sizeof_size : ℕ
sizeof_size = 8

abbrev pub sizeof_desc : ℕ
sizeof_desc = 72

abbrev pub einval : ℕ
einval = 22

abbrev pub enomem : ℕ
enomem = 12

abbrev pub max_errno : ℕ
max_errno = 4095

-- `ERR_PTR(-e)`.
abbrev pub err_ptr : ℕ → ℕ
err_ptr e = word_mod - e

-- `MAP_FAILED` is `(void*)-1`.
abbrev pub map_failed : ℕ
map_failed = word_mod - 1

abbrev is_err_value : ℕ → Bool
is_err_value x = leb (word_mod - max_errno) x

unfoldable pub is_err : ℕ → Bool
is_err ptr = is_err_value ptr

unfoldable pub is_err_or_null : ℕ → Bool
is_err_or_null ptr = (ptr == 0) || is_err_value ptr

-- `__ALIGN(x, y)`: `~m` is `2^64 - 1 - m`.
unfoldable pub align_up : ℕ → ℕ → ℕ
unfolding add64 sub64
align_up x y = bit_and (sub64 (add64 x y) 1) (word_mod - 1 - sub64 y 1)

unfoldable pub is_power_of_two : ℕ → Bool
unfolding sub64
is_power_of_two val = (val == 1) || (bit_and val (sub64 val 1) == 0)

pub compute_new_alignment : ℕ → ℕ
unfolding add64 sub64 align_up
compute_new_alignment curr_align =
    if ltb curr_align sizeof_size
    then align_up (add64 curr_align (sub64 sizeof_size curr_align)) curr_align
    else curr_align

-- `struct heap_pool_desc`.
pub record Desc : Type 0 where
  pub next : ℕ
  pub szel : ℕ
  pub nrel : ℕ
  pub nralloc : ℕ
  pub firstfree : ℕ
  pub szck : ℕ
  pub holesize : ℕ
  pub allocsize : ℕ
  pub offfirstelem : ℕ

-- An open pool: the descriptor's address, its fields, and the bytes of the mapping.
pub record Pool : Type 0 where
  pub base : ℕ
  pub desc : Desc
  pub mem : Mem

-- What `heap_pool_create` does: it returns an error pointer or a pool, or an `assert` fails.
pub data Created : Type 0 where
  failed : ℕ → Created
  created : Pool → Created
  aborted : Created

-- `align`, `holesize` and `allocsize` of `heap_pool_create`; `chunksize` is `size`, since
-- CHUNK_EXTRA_SIZE is 0.
pub create_align : ℕ → ℕ
unfolding compute_new_alignment
create_align align' = if align' == 0 then sizeof_size else compute_new_alignment align'

pub create_holesize : (size align' : ℕ) → ℕ
unfolding add64 sub64 align_up
create_holesize size align' =
    let next_val = add64 size sizeof_size in
    if ltb 1 align'
    then add64 sizeof_size (sub64 (align_up next_val align') next_val)
    else sizeof_size

pub create_allocsize : (pagesize nb size align' : ℕ) → ℕ
unfolding add64 sub64 mul64 align_up create_align create_holesize
create_allocsize pagesize nb size align' =
    let hole = create_holesize size align' in
    align_up
      (add64 (sub64 (add64 sizeof_desc (create_align align')) hole)
        (mul64 nb (add64 (add64 sizeof_size size) hole)))
      pagesize

pub create_nrel : (pagesize nb size align' : ℕ) → ℕ
unfolding add64 sub64 create_align create_holesize create_allocsize
create_nrel pagesize nb size align' =
    sub64 (sub64 (create_allocsize pagesize nb size align') (create_align align')) sizeof_desc
    / add64 (add64 sizeof_size (create_holesize size align')) size

-- The loop that fills the index array at `walker` and the index in front of each chunk at `ptr`;
-- `none` is a failed `assert`.
pub init_loop : (align' stride rounds i walker ptr : ℕ) → Mem → Option Mem
unfolding sub64
init_loop align' stride zero i walker ptr m = some m
init_loop align' stride (suc rounds) i walker ptr m =
    let m' = store 8 (store 8 m walker (i + 1)) (sub64 ptr sizeof_size) i in
    let rest = init_loop align' stride rounds (i + 1) (walker + 8) (ptr + stride) m' in
    if not (align' == 0) && not (ptr % align' == 0) then none else rest

-- The address of `hpd_raw`.
abbrev pub raw : Pool → ℕ
raw p = p.base + sizeof_desc

-- The part of `heap_pool_create` behind `mmap`, which returned `addr` over the bytes `m`: the
-- descriptor's fields, the first chunk's address and the loop, from the sizes computed before.
pub lay_out : (size align' addr align hole allocsize n : ℕ) → Mem → Created
lay_out size align' addr align hole allocsize n m =
    let walker = addr + sizeof_desc in
    let ptr = align_up (add64 (walker + 8 * n) align) align in
    let d : Desc = record {
      next = 0;
      szel = size;
      nrel = n;
      nralloc = 0;
      firstfree = 0;
      szck = add64 hole size;
      holesize = hole;
      allocsize = allocsize;
      offfirstelem = sub64 ptr addr;
    } in
    elim (init_loop align' (add64 size hole) n 0 walker ptr m) [
      | none ↦ aborted
      | some m' ↦ created (record { base = addr; desc = d; mem = m' })
    ]

pub create_at : (pagesize nb size align' addr : ℕ) → Mem → Created
create_at pagesize nb size align' addr m =
    lay_out size align' addr (create_align align') (create_holesize size align')
      (create_allocsize pagesize nb size align') (create_nrel pagesize nb size align') m

-- `heap_pool_create`. The page size and what `mmap` returns are the system's.
pub create : (pagesize nb size align' addr : ℕ) → Mem → Created
unfolding is_power_of_two
create pagesize nb size align' addr m =
    if not (align' == 0) && not (is_power_of_two align')
    then failed (err_ptr einval)
    else if addr == map_failed
    then failed map_failed
    else create_at pagesize nb size align' addr m

-- `heap_pool_nb_free`.
unfoldable pub nb_free : Pool → ℕ
unfolding sub64
nb_free p = sub64 p.desc.nrel p.desc.nralloc

-- `HEAP_POOL_GET_NTH_CHUNK`.
unfoldable pub nth_chunk : Pool → ℕ → ℕ
nth_chunk p nth = (p.base + p.desc.offfirstelem + nth * p.desc.szck) % word_mod

-- `array_index[i]`.
abbrev pub index_at : Pool → ℕ → ℕ
index_at p i = load 8 p.mem (raw p + 8 * i)

unfoldable pub alloc : Pool → ℕ × Pool
unfolding nb_free nth_chunk
alloc p = if nb_free p == 0 then (err_ptr enomem, p) else (
  nth_chunk p p.desc.firstfree,
  record p {
    desc = record (p.desc) {
      firstfree = index_at p p.desc.firstfree;
      nralloc = (p.desc.nralloc + 1) % word_mod;
    };
  },
)

unfoldable pub free : Pool → ℕ → Pool
unfolding sub64
free p addr =
    let index_index = load 8 p.mem (sub64 addr sizeof_size) in
    record p {
      desc = record (p.desc) { firstfree = index_index; nralloc = sub64 p.desc.nralloc 1 };
      mem = store 8 p.mem (raw p + 8 * index_index) p.desc.firstfree;
    }
