-- ===== src/HeapPool/Sharing/Balance.antt =====
-- heap_pool/heap_pool.c: what is opened is given back, and a pool does not depend on where it is mapped.
use divers.Base.{
  ℕ, zero, suc, ◌+◌, ◌-◌, ◌*◌, ◌<◌, ◌≡◌, refl, ap, ap₂, ◌∙◌, arith, false, Option, none, some, List,
  [], ◌∷◌, inl, inr, Bool-cases, Option-cases, ◌==◌, subst,
}
use divers.Memory.{Mem, load}
use divers.Resources.{Held, descriptor, mapping, release-top, release-below}
use divers.HeapPool.{
  Desc, Pool, Created, failed, created, aborted, word_mod, max_errno, map_failed, raw, index_at,
  create_allocsize, create_nrel, lay_out, create_at, create,
}
use divers.HeapPool.Invariant.{Chain, IsPool}
use divers.HeapPool.Sharing.{
  Answers, attach, get_stat, open', create_held, create_if_needed, destroy,
}

-- A created pool lies where it was mapped, knows the length of the mapping and has the chunks that were
-- computed.
pub create-mapped :
    (pagesize nb size align' addr : ℕ) (m : Mem) (p : Pool)
    → create pagesize nb size align' addr m ≡ created p
    → (p.base ≡ addr)
      × (p.desc.allocsize ≡ create_allocsize pagesize nb size align')
      × (p.desc.nrel ≡ create_nrel pagesize nb size align')
unfolding create create_at lay_out
create-mapped pagesize nb size align' addr m p e = ground arith

-- What was given is given back by one `heap_pool_destroy`, and an error leaves all as it was.
abbrev pub IsGivenBack : Held → Option (Created × Held) → Type 0
IsGivenBack held none = ⊥
IsGivenBack held (some (failed w, h)) = h ≡ held
IsGivenBack held (some (aborted, h)) = h ≡ held
IsGivenBack held (some (created p, h)) = (name : List ℕ) → destroy false p name h ≡ some (held, [])

-- Equal bytes at two places make equal words.
load_moved :
    (n : ℕ) (m m' : Mem) (a b : ℕ) → ((k : ℕ) → m' (a + k) ≡ m (b + k)) → load n m' a ≡ load n m b
unfolding load
load_moved zero m m' a b h = refl
load_moved (suc n) m m' a b h =
    ap₂ (λ (p q : ℕ). p + 256 * q)
      (subst (λ t. m' t ≡ m b) (omega arith) (subst (λ t. m' (a + 0) ≡ m t) (omega arith) (h 0)))
      (load_moved n m m' (a + 1) (b + 1) (λ k. shifted k))
  where
    shifted : (k : ℕ) → m' (a + 1 + k) ≡ m (b + 1 + k)
    shifted k =
        let from : a + (1 + k) ≡ a + 1 + k = omega arith in
        let to : b + (1 + k) ≡ b + 1 + k = omega arith in
        subst (λ t. m' t ≡ m (b + 1 + k)) from (subst (λ t. m' (a + (1 + k)) ≡ m t) to (h (1 + k)))

-- A pool as the bytes of its file.
abbrev pub file_of : Pool → Desc × Mem
file_of p = (p.desc, λ k. p.mem (p.base + k))

load_attached :
    (p : Pool) (addr k x y : ℕ)
    → x ≡ addr + k
    → y ≡ p.base + k
    → load 8 (attach addr (file_of p)).mem x ≡ load 8 p.mem y
load_attached p addr k x y ex ey =
    rw (ex, ey)
      (load_moved 8 p.mem (attach addr (file_of p)).mem (addr + k) (p.base + k)
        (λ j. ap p.mem (omega arith)))

Chain-cong :
    (next next' : ℕ → ℕ) (h : ℕ) (xs : List ℕ)
    → ((i : ℕ) → next' i ≡ next i)
    → Chain next h xs
    → Chain next' h xs
Chain-cong next next' h [] e c = tt
Chain-cong next next' h (x ∷ xs) e (first, c) =
    (first, rw (e x) (Chain-cong next next' (next x) xs e c))

-- A pool that another process mapped is, where this process maps its file, a pool with the same free chunks
-- in the same order: nothing in the file depends on the address. Only the mapping must lie in the address space.
pub attach-IsPool :
    (p : Pool) (frees : List ℕ) (addr : ℕ)
    → IsPool p frees
    → 0 < addr
    → addr + p.desc.allocsize + max_errno < word_mod
    → IsPool (attach addr (file_of p)) frees
attach-IsPool p frees addr v pos below = record {
  layout = record {
    mapped = pos;
    below_errors = below;
    index_first = v.layout.index_first;
    stride = v.layout.stride;
    hole = v.layout.hole;
    inside = v.layout.inside;
    headers_inside = v.layout.headers_inside;
  };
  total = v.total;
  distinct = v.distinct;
  in_range = v.in_range;
  chain =
      Chain-cong (index_at p) (index_at (attach addr (file_of p))) p.desc.firstfree frees
        (λ i.
          load_attached p addr (72 + 8 * i) (addr + 72 + 8 * i) (raw p + 8 * i) (omega arith)
            (omega arith))
        v.chain;
  headers = λ i lt.
      load_attached p addr (p.desc.offfirstelem + i * p.desc.szck - 8)
        (addr + p.desc.offfirstelem + i * p.desc.szck - 8)
        (p.base + p.desc.offfirstelem + i * p.desc.szck - 8) (omega (arith, v.layout.index_first))
        (omega (arith, v.layout.index_first))
      ∙ v.headers i lt;
}

open-IsGivenBack :
    (a : Answers) (size : ℕ) (held : Held)
    → a.file.0.allocsize ≡ size
    → IsGivenBack held (open' a size held)
unfolding open' destroy
open-IsGivenBack a size held e = elim (Option-cases a.shm_opened) [
  | inl n ↦ rw n refl
  | inr (fd, o) ↦ elim (Bool-cases (a.addr == map_failed)) [
    | inl t ↦ rw (o, t) (rw (release-top (descriptor fd) held) refl)
    | inr f ↦
        rw (o, f)
          (rw (release-below (descriptor fd) (mapping a.addr size) held refl)
            (λ name. rw (e, release-top (mapping a.addr size) held) refl))
  ]
]

create_held-IsGivenBack :
    (pagesize nb size align' addr : ℕ) (m : Mem) (held : Held) (c : Created)
    → create pagesize nb size align' addr m ≡ c
    → IsGivenBack held (some (create_held pagesize nb size align' addr m held))
unfolding create_held destroy
create_held-IsGivenBack pagesize nb size align' addr m held (failed w) e = rw (e, create_held) refl
create_held-IsGivenBack pagesize nb size align' addr m held (created p) e =
    let (base, len, _) = create-mapped pagesize nb size align' addr m p e in
    rw (e, create_held)
      (λ name.
        rw (base, len, release-top (mapping addr (create_allocsize pagesize nb size align')) held)
          refl)
create_held-IsGivenBack pagesize nb size align' addr m held aborted e = rw (e, create_held) refl

-- If a file that exists holds a pool of its own size, `heap_pool_create_if_needed` closes the descriptor that
-- it opened, whether it opens the file or creates a pool, and one `heap_pool_destroy` gives back what it
-- mapped; when it returns an error pointer nothing more is held than before.
pub create_if_needed-IsGivenBack :
    (a : Answers) (name : List ℕ) (pagesize nb size align' addr : ℕ) (m : Mem) (held : Held)
    → ((st_size : ℕ) → get_stat a.stat name ≡ some st_size → a.file.0.allocsize ≡ st_size)
    → IsGivenBack held (create_if_needed a name pagesize nb size align' addr m held)
unfolding create_if_needed
create_if_needed-IsGivenBack a name pagesize nb size align' addr m held sized =
    elim (Option-cases (get_stat a.stat name)) [
      | inl n ↦
          rw (n, create_if_needed)
            (create_held-IsGivenBack pagesize nb size align' addr m held
              (create pagesize nb size align' addr m) refl)
      | inr (st_size, e) ↦
          rw (e, create_if_needed) (open-IsGivenBack a st_size held (sized st_size e))
    ]
