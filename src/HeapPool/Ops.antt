-- ===== src/HeapPool/Ops.antt =====
-- heap_pool.h: `heap_pool_alloc`, `heap_pool_free`, and what the user of a chunk writes.
use native.Mathlib.Decide.{ℕ_discrete}
use divers.Base.{
  ℕ, ◌+◌, ◌-◌, ◌*◌, ◌%◌, ◌≤◌, ◌<◌, ◌≡◌, refl, ◌≢◌, ◌⊎◌, inr, ap, subst, sym, ◌∙◌, false, List, [],
  ◌∷◌, arith, ◌==◌, has, ne→==,
}
use divers.Base.Pigeonhole.{length-le_of_Distinct}
use divers.Memory.{Mem, poke, load, store, load-poke-Apart, load-store_self, load-store-Apart}
use divers.HeapPool.{
  Pool, word_mod, enomem, err_ptr, raw, index_at, nth_chunk, nb_free, alloc, free, sub64,
}
use divers.HeapPool.Invariant.{chunk, IsLaidOut, Chain, IsPool, InUse, Below}
use divers.HeapPool.Layout.{chunk_inside, chunks-Apart, nth_chunk-chunk, nb_free-sub}

-- The pool behind a successful `heap_pool_alloc`.
abbrev pub taken : Pool → Pool
taken p = record p {
  desc = record (p.desc) { firstfree = index_at p p.desc.firstfree; nralloc = p.desc.nralloc + 1 };
}

-- The pool behind `heap_pool_free` of chunk `i`.
abbrev pub returned : Pool → ℕ → Pool
returned p i = record p {
  desc = record (p.desc) { firstfree = i; nralloc = p.desc.nralloc - 1 };
  mem = store 8 p.mem (raw p + 8 * i) p.desc.firstfree;
}

-- The layout does not depend on what the calls change.
IsLaidOut-same :
    {p : Pool} (ff na : ℕ) (m : Mem)
    → IsLaidOut p
    → IsLaidOut (record p { desc = record (p.desc) { firstfree = ff; nralloc = na }; mem = m })
IsLaidOut-same ff na m l = record {
  mapped = l.mapped;
  below_errors = l.below_errors;
  index_first = l.index_first;
  stride = l.stride;
  hole = l.hole;
  inside = l.inside;
  headers_inside = l.headers_inside;
}

module _ {p : Pool} where
  pub alloc-taken : {x : ℕ} {frees : List ℕ} → IsPool p (x ∷ frees) → alloc p ≡ (chunk p x, taken p)
  unfolding alloc
  alloc-taken {x} {frees} v =
      let first : x < p.desc.nrel = v.in_range.0 in
      let none_left : (nb_free p == 0) ≡ false =
        ne→== (nb_free p) 0 (omega (arith, nb_free-sub v.layout (omega arith))) in
      let address : nth_chunk p p.desc.firstfree ≡ chunk p x =
        ap (nth_chunk p) v.chain.0 ∙ nth_chunk-chunk v.layout x first in
      let count : (p.desc.nralloc + 1) % word_mod ≡ p.desc.nralloc + 1 =
        omega (arith, chunk_inside v.layout x first) in
      rw (none_left, address, count)

  pub taken-IsPool : {x : ℕ} {frees : List ℕ} → IsPool p (x ∷ frees) → IsPool (taken p) frees
  taken-IsPool {frees} v = record {
    layout = IsLaidOut-same (index_at p p.desc.firstfree) (p.desc.nralloc + 1) p.mem v.layout;
    total = omega arith;
    distinct = v.distinct.1;
    in_range = v.in_range.1;
    chain = subst (λ t. Chain (index_at p) (index_at p t) frees) (sym v.chain.0) v.chain.1;
    headers = v.headers;
  }

  -- A full pool refuses with -ENOMEM and is left as it was.
  pub alloc-full : IsPool p [] → alloc p ≡ (err_ptr enomem, p)
  unfolding alloc
  alloc-full v =
      let none_left : nb_free p ≡ 0 = omega (arith, nb_free-sub v.layout (omega arith)) in
      rw none_left

Chain-ext :
    (next next' : ℕ → ℕ) (i h : ℕ) (xs : List ℕ)
    → has i xs ≡ false
    → ((j : ℕ) → j ≢ i → next' j ≡ next j)
    → Chain next h xs
    → Chain next' h xs
Chain-ext next next' i h [] out same c = tt
Chain-ext next next' i h (x ∷ xs) out same (e, c) =
    let step : next' x ≡ next x = same x (ground arith) in
    (e, rw step (Chain-ext next next' i (next x) xs (ground arith) same c))

Chain-cong :
    (next next' : ℕ → ℕ) (n h : ℕ) (xs : List ℕ)
    → Below n xs
    → ((j : ℕ) → j < n → next' j ≡ next j)
    → Chain next h xs
    → Chain next' h xs
Chain-cong next next' n h [] b same c = tt
Chain-cong next next' n h (x ∷ xs) (lt, b) same (e, c) =
    (e, rw (same x lt) (Chain-cong next next' n (next x) xs b same c))

-- What `array_index[i] = hpd_firstfree` does to the chain behind `hpd_firstfree`.
Chain-store :
    (m : Mem) (a i h n : ℕ) (xs : List ℕ)
    → has i xs ≡ false
    → Below n xs
    → n < word_mod
    → Chain (λ j. load 8 m (a + 8 * j)) h xs
    → let m' = store 8 m (a + 8 * i) h in
      Chain (λ j. load 8 m' (a + 8 * j)) (load 8 m' (a + 8 * i)) xs
Chain-store m a i h n [] out b small c = tt
Chain-store m a i h n (x ∷ xs) out b small c =
    let link : load 8 (store 8 m (a + 8 * i) h) (a + 8 * i) ≡ h =
      load-store_self 8 m (a + 8 * i) h (omega arith) in
    rw link (
      Chain-ext (λ j. load 8 m (a + 8 * j)) (λ j. load 8 (store 8 m (a + 8 * i) h) (a + 8 * j)) i h
        (x ∷ xs) out (λ j ne. load-store-Apart 8 8 m (a + 8 * j) (a + 8 * i) h (omega arith)) c)

module _ {p : Pool} {frees : List ℕ} (v : IsPool p frees) where
  pub nralloc_pos : {i : ℕ} → InUse p frees i → 0 < p.desc.nralloc
  nralloc_pos {i} (lt, out) = omega (
    arith,
    length-le_of_Distinct p.desc.nrel (i ∷ frees) (out, v.distinct) (lt, v.in_range),
    v.total,
  )

  pub free-returned : (i : ℕ) → InUse p frees i → free p (chunk p i) ≡ returned p i
  unfolding free sub64
  free-returned i use' =
      let inside = chunk_inside v.layout i use'.0 in
      let header : (chunk p i + word_mod - 8) % word_mod ≡ chunk p i - 8 = omega arith in
      let index : load 8 p.mem (chunk p i - 8) ≡ i = v.headers i use'.0 in
      let count : (p.desc.nralloc + word_mod - 1) % word_mod ≡ p.desc.nralloc - 1 =
        omega (arith, nralloc_pos use') in
      rw (header, index, count)

  pub returned-IsPool : (i : ℕ) → InUse p frees i → IsPool (returned p i) (i ∷ frees)
  returned-IsPool i use' = record {
    layout =
        IsLaidOut-same i (p.desc.nralloc - 1) (store 8 p.mem (raw p + 8 * i) p.desc.firstfree)
          v.layout;
    total = omega (arith, nralloc_pos use', v.total);
    distinct = (use'.1, v.distinct);
    in_range = (use'.0, v.in_range);
    chain = (
      refl,
      Chain-store p.mem (raw p) i p.desc.firstfree p.desc.nrel frees use'.1 v.in_range
          (omega (arith, v.layout.index_first, v.layout.headers_inside, v.layout.below_errors))
          v.chain,
    );
    headers = λ j lt.
        load-store-Apart 8 8 p.mem (chunk p j - 8) (raw p + 8 * i) p.desc.firstfree
          (omega (arith, chunk_inside v.layout j lt))
        ∙ v.headers j lt;
  }

  -- A byte written inside a chunk leaves the pool's own words alone.
  pub written-IsPool :
      (i x b : ℕ)
      → i < p.desc.nrel
      → chunk p i ≤ x
      → x < chunk p i + p.desc.szel
      → IsPool (record p { mem = poke p.mem x b }) frees
  written-IsPool i x b lt lo hi = record {
    layout = IsLaidOut-same p.desc.firstfree p.desc.nralloc (poke p.mem x b) v.layout;
    total = v.total;
    distinct = v.distinct;
    in_range = v.in_range;
    chain =
        Chain-cong (index_at p) (λ j. load 8 (poke p.mem x b) (raw p + 8 * j)) p.desc.nrel
          p.desc.firstfree frees v.in_range
          (λ j below.
            load-poke-Apart 8 p.mem (raw p + 8 * j) x b (omega (arith, chunk_inside v.layout i lt)))
          v.chain;
    headers = λ j below. load-poke-Apart 8 p.mem (chunk p j - 8) x b (away j) ∙ v.headers j below;
  }
    where
      away : (j : ℕ) → (x < chunk p j - 8) ⊎ (chunk p j - 8 + 8 ≤ x)
      away j = elim (ℕ_discrete i j) [
        | yes e ↦
            inr (subst (λ k. chunk p k - 8 + 8 ≤ x) e (omega (arith, chunk_inside v.layout i lt)))
        | no ne ↦ omega (arith, chunks-Apart v.layout i j ne, chunk_inside v.layout i lt)
      ]
