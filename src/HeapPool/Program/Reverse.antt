-- ===== src/HeapPool/Program/Reverse.antt =====
-- heap_pool/main.c: what the two loops do to the free chunks.
use divers.Base.{
  ℕ, zero, suc, ◌<◌, ◌≤◌, ◌≡◌, refl, sym, ap, ap₂, ◌∙◌, arith, false, List, [], ◌∷◌, map, length,
  take, drop, has, Distinct, All, subst,
}
use divers.HeapPool.{Pool, is_err, is_err_or_null, free}
use divers.HeapPool.Invariant.{chunk, IsPool, InUse, Below}
use divers.HeapPool.Layout.{chunk-not_err}
use divers.HeapPool.Ops.{taken, returned, alloc-taken, taken-IsPool, free-returned, returned-IsPool}
use divers.HeapPool.Program.{alloc_loop, free_loop}

-- The first list, the last first, in front of the second.
abbrev pub rev_append : List ℕ → List ℕ → List ℕ
rev_append [] ys = ys
rev_append (x ∷ xs) ys = rev_append xs (x ∷ ys)

not_null :
    (p : Pool) (frees : List ℕ) (i : ℕ)
    → IsPool p frees
    → i < p.desc.nrel
    → is_err_or_null (chunk p i) ≡ false
unfolding is_err_or_null is_err
not_null p frees i v lt =
    let pos : 0 < p.base = v.layout.mapped in ground (arith, chunk-not_err v.layout i lt)

-- With a free chunk for each entry, the first loop takes the first chunks of the free list.
alloc_loop-takes :
    (tab : List ℕ) (p : Pool) (frees : List ℕ)
    → IsPool p frees
    → length tab ≤ length frees
    → (q : Pool) × (alloc_loop tab p ≡ (map (chunk p) (take (length tab) frees), q))
      × IsPool q (drop (length tab) frees)
      × ((i : ℕ) → chunk q i ≡ chunk p i)
      × (q.desc.nrel ≡ p.desc.nrel)
      × (q.base ≡ p.base)
      × (q.desc.allocsize ≡ p.desc.allocsize)
unfolding alloc_loop
alloc_loop-takes [] p frees v le = (p, refl, v, λ i. refl, refl, refl, refl)
alloc_loop-takes (t ∷ tab) p [] v le = absurd (omega arith)
alloc_loop-takes (t ∷ tab) p (x ∷ frees) v le =
    let (q, e, v', same, n, b, s) =
      alloc_loop-takes tab (taken p) frees (taken-IsPool v) (omega arith) in
    (q, rw (alloc-taken v, not_null p (x ∷ frees) x v v.in_range.0, e) refl, v', same, n, b, s)

InUse-cons :
    (p : Pool) (x : ℕ) (frees xs : List ℕ)
    → has x xs ≡ false
    → All (InUse p frees) xs
    → All (InUse (returned p x) (x ∷ frees)) xs
InUse-cons p x frees [] out a = tt
InUse-cons p x frees (y ∷ ys) out ((lt, free), a) =
    ((lt, ground arith), InUse-cons p x frees ys (ground arith) a)

-- The second loop puts them back, the last on top.
free_loop-puts :
    (xs : List ℕ) (p : Pool) (frees : List ℕ)
    → IsPool p frees
    → Distinct xs
    → All (InUse p frees) xs
    → (q : Pool) × (free_loop (map (chunk p) xs) p ≡ q)
      × IsPool q (rev_append xs frees)
      × (q.base ≡ p.base)
      × (q.desc.allocsize ≡ p.desc.allocsize)
unfolding free_loop
free_loop-puts [] p frees v d a = (p, refl, v, refl, refl)
free_loop-puts (x ∷ xs) p frees v (out, d) (u, a) =
    rw (free-returned v x u, free_loop)
      (free_loop-puts xs (returned p x) (x ∷ frees) (returned-IsPool v x u) d
        (InUse-cons p x frees xs out a))

map_same : (f g : ℕ → ℕ) (xs : List ℕ) → ((i : ℕ) → f i ≡ g i) → map f xs ≡ map g xs
map_same f g [] e = refl
map_same f g (x ∷ xs) e = ap₂ ◌∷◌ (e x) (map_same f g xs e)

has-take : (n x : ℕ) (xs : List ℕ) → has x xs ≡ false → has x (take n xs) ≡ false
has-take zero x xs h = refl
has-take (suc n) x [] h = refl
has-take (suc n) x (y ∷ ys) h = ground (arith, has-take n x ys)

has-drop : (n x : ℕ) (xs : List ℕ) → has x xs ≡ false → has x (drop n xs) ≡ false
has-drop zero x xs h = h
has-drop (suc n) x [] h = refl
has-drop (suc n) x (y ∷ ys) h = has-drop n x ys (ground arith)

Distinct-take : (n : ℕ) (xs : List ℕ) → Distinct xs → Distinct (take n xs)
Distinct-take zero xs d = tt
Distinct-take (suc n) [] d = tt
Distinct-take (suc n) (x ∷ xs) (out, d) = (has-take n x xs out, Distinct-take n xs d)

-- What was taken is in use.
taken-InUse :
    (n : ℕ) (q : Pool) (frees : List ℕ)
    → Distinct frees
    → Below q.desc.nrel frees
    → All (InUse q (drop n frees)) (take n frees)
taken-InUse zero q frees d b = tt
taken-InUse (suc n) q [] d b = tt
taken-InUse (suc n) q (x ∷ xs) (out, d) (lt, b) =
    ((lt, has-drop n x xs out), taken-InUse n q xs d b)

-- Both loops: the chunks that were taken lie on the free list again, the last on top.
pub loops_reverse :
    (tab : List ℕ) (p : Pool) (frees : List ℕ)
    → IsPool p frees
    → length tab ≤ length frees
    → let n = length tab in
      let (tab', q) = alloc_loop tab p in
      let r = free_loop tab' q in
      (tab' ≡ map (chunk p) (take n frees))
      × IsPool r (rev_append (take n frees) (drop n frees))
      × (r.base ≡ p.base)
      × (r.desc.allocsize ≡ p.desc.allocsize)
loops_reverse tab p frees v le =
    let n = length tab in
    let (q, e, v', same, nrel, base, size) = alloc_loop-takes tab p frees v le in
    let below = subst (λ k. Below k frees) (sym nrel) v.in_range in
    let (r, e', v'', base', size') =
      free_loop-puts (take n frees) q (drop n frees) v' (Distinct-take n frees v.distinct)
        (taken-InUse n q frees v.distinct below) in
    let freed : free_loop (map (chunk p) (take n frees)) q ≡ r =
      ap (λ xs. free_loop xs q) (map_same (chunk p) (chunk q) (take n frees) (λ i. sym (same i)))
      ∙ e' in
    rw (e, freed) (refl, v'', base' ∙ base, size' ∙ size)
