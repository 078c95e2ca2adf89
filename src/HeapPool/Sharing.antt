-- ===== src/HeapPool/Sharing.antt =====
-- heap_pool/heap_pool.c: opening, closing and destroying a pool, with the file of shared memory behind it.
-- `have_shm` says whether HP_HAVE_SHM is defined; the Makefile leaves it out. What the system answers is a
-- parameter: a file of shared memory holds a descriptor and its bytes by their offset.
pub mod Balance
use divers.Base.{
  ℕ, ◌+◌, ◌-◌, Bool, ◌&&◌, not, Option, none, some, List, [], ◌∷◌, ◌++◌, ltb, ◌==◌, if◌then◌else◌,
}
use divers.Memory.{Mem}
use divers.Resources.{Held, descriptor, mapping, release, ◌>>=◌}
use divers.HeapPool.{
  Desc, Pool, Created, failed, created, aborted, sub64, sizeof_desc, einval, err_ptr, map_failed,
  create, create_allocsize,
}

pub record Answers : Type 0 where
  pub stat : List ℕ → Option ℕ
  pub stat_errno : ℕ
  pub shm_opened : Option ℕ
  pub addr : ℕ
  pub file : Desc × Mem

-- A name is its characters.
abbrev pub slash : ℕ
slash = 47

abbrev pub dev_shm : List ℕ
dev_shm = 47 ∷ 100 ∷ 101 ∷ 118 ∷ 47 ∷ 115 ∷ 104 ∷ 109 ∷ []

-- `__heap_pool_get_stat`: the file's size, or `none` for -1.
unfoldable pub get_stat : (stat : List ℕ → Option ℕ) → (name : List ℕ) → Option ℕ
get_stat stat [] = stat []
get_stat stat (c ∷ name) = stat (if c == slash then dev_shm ++ (c ∷ name) else c ∷ name)

-- What a process sees that maps the file at an address.
abbrev pub attach : (addr : ℕ) → Desc × Mem → Pool
attach addr (d, m) = record { base = addr; desc = d; mem = λ x. m (x - addr) }

-- `__heap_pool_open`, which returns MAP_FAILED as it is.
unfoldable pub open' : Answers → (size : ℕ) → Held → Option (Created × Held)
open' a size held = elim (a.shm_opened) [
  | none ↦ some (failed (err_ptr einval), held)
  | some fd ↦
      let desc =
        if a.addr == map_failed then failed map_failed else created (attach a.addr a.file) in
      let held' = descriptor fd ∷ held in
      release (descriptor fd) (if a.addr == map_failed then held' else mapping a.addr size ∷ held')
      >>= λ h. some (desc, h)
]

-- `heap_pool_open`.
unfoldable pub open_pool :
    (have_shm : Bool) → Answers → (name : List ℕ) → Held → Option (Created × Held)
unfolding get_stat open'
open_pool have_shm a name held =
    if not have_shm then some (failed 0, held) else elim (get_stat a.stat name) [
      | none ↦ some (failed (err_ptr a.stat_errno), held)
      | some size ↦ open' a size held
    ]

-- `heap_pool_create` with what it holds, in the build without HP_HAVE_SHM.
unfoldable pub create_held : (pagesize nb size align' addr : ℕ) → Mem → Held → Created × Held
create_held pagesize nb size align' addr m held = elim (create pagesize nb size align' addr m) [
  | failed w ↦ (failed w, held)
  | created p ↦ (created p, mapping addr (create_allocsize pagesize nb size align') ∷ held)
  | aborted ↦ (aborted, held)
]

-- `heap_pool_create_if_needed`, in that build; `addr` and `m` are for the mapping of a new pool.
unfoldable pub create_if_needed :
    Answers
    → (name : List ℕ) → (pagesize nb size align' addr : ℕ) → Mem
    → Held
    → Option (Created × Held)
unfolding get_stat open' create_held
create_if_needed a name pagesize nb size align' addr m held = elim (get_stat a.stat name) [
  | none ↦ some (create_held pagesize nb size align' addr m held)
  | some st_size ↦ open' a st_size held
]

-- `heap_pool_close`.
unfoldable pub close : Pool → Held → Option Held
close p held = release (mapping p.base p.desc.allocsize) held

-- The names that `heap_pool_delete_shmfile` gives to `shm_unlink`.
unfoldable pub delete_shmfile : (have_shm : Bool) → (name : List ℕ) → List (List ℕ)
delete_shmfile have_shm name = if have_shm then name ∷ [] else []

-- `heap_pool_destroy`, with the names that it unlinks.
unfoldable pub destroy :
    (have_shm : Bool) → Pool → (name : List ℕ) → Held → Option (Held × List (List ℕ))
destroy have_shm p name held = release (mapping p.base p.desc.allocsize) held >>= λ h.
    some (h, if have_shm then name ∷ [] else [])

-- `heap_pool_raw_to_desc`.
unfoldable pub raw_to_desc : (raw : ℕ) → ℕ
unfolding sub64
raw_to_desc raw = sub64 raw sizeof_desc

-- `HEAP_POOL_ADDR_IN_BNDS`.
unfoldable pub addr_in_bnds : Pool → (addr : ℕ) → Bool
addr_in_bnds p addr = ltb p.base addr && ltb addr (p.base + p.desc.allocsize)
