-- ===== src/HeapPool/Client/Safety.antt =====
-- heap_pool: what a client that keeps to the rules may rely on, from `heap_pool_create` on.
use divers.Base.{
  ℕ, suc, ◌+◌, ◌*◌, ◌≤◌, ◌≡◌, refl, ◌≢◌, ◌↔◌, ap, sym, subst, ◌∙◌, true, false, List, [], ◌∷◌, map,
  arith, length, has,
}
use mathlib.Core.Bool.{false≢true}
use divers.Memory.{Mem, Apart, store-outside}
use divers.HeapPool.{Pool, created, raw, create, is_err, alloc, free}
use divers.HeapPool.Invariant.{chunk, IsPool}
use divers.HeapPool.Layout.{chunk_inside, chunks-Apart, chunk-not_err}
use divers.HeapPool.Ops.{alloc-taken, alloc-full, free-returned, returned-IsPool, nralloc_pos}
use divers.HeapPool.Create.{indices, length-indices, create-IsFresh}
use divers.HeapPool.Create.Sizes.{IsArgs}
use divers.HeapPool.Client.{State, Reach, IsHeld, IsSound}
use divers.HeapPool.Client.Steps.{held_index, err_ptr-is_err, Reach-IsSound}

-- The chunks that the client holds share no byte, with each other or with the pool's own data, and
-- lie in the mapping; their number is counted.
pub record IsSafe (s : State) : Type 0 where
  pub apart :
      (a b : ℕ)
      → has a s.live ≡ true
      → has b s.live ≡ true
      → a ≢ b
      → Apart a s.pool.desc.szel b s.pool.desc.szel
  pub inside :
      (a : ℕ)
      → has a s.live ≡ true
      → (raw s.pool + 8 * s.pool.desc.nrel + 8 ≤ a)
        × (a + s.pool.desc.szel ≤ s.pool.base + s.pool.desc.allocsize)
  pub count : length s.live ≡ s.pool.desc.nralloc
  pub bounded : s.pool.desc.nralloc ≤ s.pool.desc.nrel
  pub full : (is_err (alloc s.pool).0 ≡ true) ↔ (length s.live ≡ s.pool.desc.nrel)

length-map : (f : ℕ → ℕ) (xs : List ℕ) → length (map f xs) ≡ length xs
length-map f [] = refl
length-map f (x ∷ xs) = ap suc (length-map f xs)

live-count :
    (s : State) (frees used : List ℕ) → IsHeld s frees used → length s.live ≡ s.pool.desc.nralloc
live-count s frees used h = ap length h.live ∙ length-map (chunk s.pool) used ∙ h.count

full_iff :
    (s : State) (frees used : List ℕ)
    → IsHeld s frees used
    → (is_err (alloc s.pool).0 ≡ true) ↔ (length s.live ≡ s.pool.desc.nrel)
full_iff s [] used h = (
  λ e. omega (arith, live-count s [] used h, h.pool.total),
  λ e. rw (alloc-full h.pool) err_ptr-is_err,
)
full_iff s (x ∷ frees) used h =
    let fine : is_err (alloc s.pool).0 ≡ false =
      rw (alloc-taken h.pool) (chunk-not_err h.pool.layout x h.pool.in_range.0) in
    (
      λ e. absurd (false≢true (sym fine ∙ e)),
      λ e. absurd (omega (arith, live-count s (x ∷ frees) used h, h.pool.total)),
    )

IsSound-IsSafe : (s : State) → IsSound s → IsSafe s
IsSound-IsSafe s (frees, used, h) =
    let find =
      λ (a : ℕ) (m : has a s.live ≡ true). held_index h.pool a used h.in_use (rw h.live at m) in
    record {
      apart = λ a b ha hb ne.
          let (i, e, m, u) = find a ha in
          let (j, f, n, w) = find b hb in
          omega (
            arith,
            chunks-Apart h.pool.layout i j (λ q. ne (e ∙ ap (chunk s.pool) q ∙ sym f)),
            chunk_inside h.pool.layout i u.0,
            chunk_inside h.pool.layout j w.0,
          );
      inside =
          λ a ha. let (i, e, m, u) = find a ha in omega (arith, chunk_inside h.pool.layout i u.0);
      count = live-count s frees used h;
      bounded = omega (arith, h.pool.total);
      full = full_iff s frees used h;
    }

module _ {pagesize nb size align' addr : ℕ} (m : Mem) (p : Pool)
    (args : IsArgs pagesize nb size align' addr)
    (e : create pagesize nb size align' addr m ≡ created p) where
  pub create-IsPool : IsPool p (indices 0 p.desc.nrel)
  create-IsPool =
      let (p', e', fresh) = create-IsFresh args m in
      let same : p' ≡ p = cc in subst (λ q. IsPool q (indices 0 q.desc.nrel)) same fresh.pool

  pub create-IsSound : IsSound (record { pool = p; live = [] })
  create-IsSound = (
    indices 0 p.desc.nrel,
    [],
    record {
      pool = create-IsPool;
      live = refl;
      in_use = tt;
      distinct = tt;
      count = omega (arith, create-IsPool.total, length-indices 0 p.desc.nrel);
    },
  )

  -- From a pool that `heap_pool_create` returned, no sequence of allocations, frees of held chunks
  -- and writes into held chunks makes held chunks overlap, leave the mapping or lie over the pool's
  -- data; as many chunks are held as are counted, and an allocation fails exactly when all are held.
  pub Reach-IsSafe : {t : State} → Reach (record { pool = p; live = [] }) t → IsSafe t
  Reach-IsSafe {t} r = IsSound-IsSafe t (Reach-IsSound create-IsSound r)

-- Freeing a held chunk and allocating again returns the same chunk and leaves the same count, and
-- the two calls change no byte behind the index array.
pub alloc-free :
    {s : State} (a : ℕ)
    → IsSound s
    → has a s.live ≡ true
    → let (b, q) = alloc (free s.pool a) in
      (b ≡ a)
      × (q.desc.nralloc ≡ s.pool.desc.nralloc)
      × ((x : ℕ) → raw s.pool + 8 * s.pool.desc.nrel ≤ x → q.mem x ≡ s.pool.mem x)
alloc-free {s} a (frees, used, h) held =
    let (i, e, m, u) = held_index h.pool a used h.in_use (rw h.live at held) in
    let again = alloc-taken (returned-IsPool h.pool i u) in
    rw (e, free-returned h.pool i u, again)
      (
        refl,
        omega (arith, nralloc_pos h.pool u),
        λ x lo.
            store-outside 8 s.pool.mem (raw s.pool + 8 * i) s.pool.desc.firstfree x (omega arith),
      )
