-- ===== src/HeapPool/Client/Steps.antt =====
-- heap_pool: each step of a client keeps the invariant.
use native.Mathlib.Decide.{ℕ_discrete}
use mathlib.Core.Bool.{false≢true}
use divers.Base.{
  ℕ, suc, ◌+◌, ◌≤◌, ◌<◌, ◌≡◌, refl, ap, sym, ◌∙◌, true, false, List, [], ◌∷◌, map, arith, ==-refl,
  ne→==, length, has, Distinct, All,
}
use divers.Memory.{poke}
use divers.HeapPool.{Pool, is_err, alloc, free, err_ptr, enomem}
use divers.HeapPool.Invariant.{chunk, IsPool, InUse}
use divers.HeapPool.Layout.{chunks-Apart, chunk-not_err}
use divers.HeapPool.Ops.{
  alloc-taken, taken-IsPool, alloc-full, free-returned, returned-IsPool, written-IsPool,
}
use divers.HeapPool.Client.{
  State, release, Step, take, refused, give, write, Reach, here, next, IsHeld, IsSound,
}

module _ {p : Pool} {frees : List ℕ} (v : IsPool p frees) where
  chunk-injective : (i j : ℕ) → chunk p i ≡ chunk p j → i ≡ j
  chunk-injective i j e = elim (ℕ_discrete i j) [
    | yes q ↦ q
    | no ne ↦ absurd (omega (arith, chunks-Apart v.layout i j ne, v.layout.index_first))
  ]

  -- An address that the client holds is that of a chunk in use.
  pub held_index :
      (a : ℕ) (used : List ℕ)
      → All (InUse p frees) used
      → has a (map (chunk p) used) ≡ true
      → (i : ℕ) × (a ≡ chunk p i) × (has i used ≡ true) × InUse p frees i
  held_index a [] h e = cc
  held_index a (i ∷ used) (u, h) e = elim (ℕ_discrete a (chunk p i)) [
    | yes q ↦ (i, q, ground arith, u)
    | no ne ↦ let (j, q, m, w) = held_index a used h (ground arith) in (j, q, ground arith, w)
  ]

  release-map :
      (i : ℕ) (used : List ℕ)
      → release (chunk p i) (map (chunk p) used) ≡ map (chunk p) (release i used)
  release-map i [] = refl
  release-map i (j ∷ used) = elim (ℕ_discrete i j) [
    | yes e ↦ rw (e, ==-refl (chunk p j), ==-refl j)
    | no ne ↦
        rw (ne→== (chunk p i) (chunk p j) (λ q. ne (chunk-injective i j q)), ne→== i j ne)
          (ap (λ l. chunk p j ∷ l) (release-map i used))
  ]

pub err_ptr-is_err : is_err (err_ptr enomem) ≡ true
unfolding is_err
err_ptr-is_err = refl

-- What stays in use when chunk `i` is given back.
has-release : (a b : ℕ) (xs : List ℕ) → has b xs ≡ false → has b (release a xs) ≡ false
has-release a b [] h = refl
has-release a b (x ∷ xs) h = ground (arith, has-release a b xs)

Distinct-release : (a : ℕ) (xs : List ℕ) → Distinct xs → Distinct (release a xs)
Distinct-release a [] h = tt
Distinct-release a (x ∷ xs) (new, rest) =
    ground (arith, Distinct-release a xs rest, has-release a x xs new)

length-release : (a : ℕ) (xs : List ℕ) → has a xs ≡ true → length xs ≡ suc (length (release a xs))
length-release a [] h = cc
length-release a (x ∷ xs) h = ground (arith, length-release a xs)

InUse-keep :
    (p : Pool) (frees : List ℕ) (i : ℕ) (xs : List ℕ)
    → has i xs ≡ false
    → All (InUse p frees) xs
    → All (InUse p (i ∷ frees)) xs
InUse-keep p frees i [] out h = tt
InUse-keep p frees i (x ∷ xs) out (u, h) = (ground arith, InUse-keep p frees i xs (ground arith) h)

InUse-release :
    (p : Pool) (frees : List ℕ) (i : ℕ) (xs : List ℕ)
    → Distinct xs
    → All (InUse p frees) xs
    → All (InUse p (i ∷ frees)) (release i xs)
InUse-release p frees i [] d h = tt
InUse-release p frees i (x ∷ xs) (new, d) (u, h) = elim (ℕ_discrete i x) [
  | yes e ↦ rw (e, ==-refl x) (InUse-keep p frees x xs new h)
  | no ne ↦ rw (ne→== i x ne) (ground arith, InUse-release p frees i xs d h)
]

InUse-taken :
    (p : Pool) (x : ℕ) (frees xs : List ℕ)
    → All (InUse p (x ∷ frees)) xs
    → All (InUse p frees) xs × (has x xs ≡ false)
InUse-taken p x frees [] h = (tt, refl)
InUse-taken p x frees (y ∷ ys) (u, h) =
    let (rest, new) = InUse-taken p x frees ys h in ((ground arith, rest), ground arith)

take-IsHeld :
    (s : State) (frees used : List ℕ)
    → IsHeld s frees used
    → is_err (alloc s.pool).0 ≡ false
    → IsSound (record { pool = (alloc s.pool).1; live = (alloc s.pool).0 ∷ s.live })
take-IsHeld s [] used h e =
    absurd (false≢true (sym e ∙ ap is_err (ap (λ r. r.0) (alloc-full h.pool)) ∙ err_ptr-is_err))
take-IsHeld s (x ∷ frees) used h e = rw (alloc-taken h.pool) (
    let (kept, new) = InUse-taken s.pool x frees used h.in_use in
    (
      frees,
      x ∷ used,
      record {
        pool = taken-IsPool h.pool;
        live = ap (λ l. chunk s.pool x ∷ l) h.live;
        in_use = ((h.pool.in_range.0, h.pool.distinct.0), kept);
        distinct = (new, h.distinct);
        count = omega (arith, h.count);
      },
    ))

refused-IsHeld :
    (s : State) (frees used : List ℕ)
    → IsHeld s frees used
    → is_err (alloc s.pool).0 ≡ true
    → IsSound (record s { pool = (alloc s.pool).1 })
refused-IsHeld s [] used h e = rw (alloc-full h.pool) ([], used, h)
refused-IsHeld s (x ∷ frees) used h e =
    let fine : is_err (alloc s.pool).0 ≡ false =
      rw (alloc-taken h.pool) (chunk-not_err h.pool.layout x h.pool.in_range.0) in
    absurd (false≢true (sym fine ∙ e))

give-IsHeld :
    (s : State) (frees used : List ℕ) (a : ℕ)
    → IsHeld s frees used
    → has a s.live ≡ true
    → IsSound (record { pool = free s.pool a; live = release a s.live })
give-IsHeld s frees used a h held =
    let (i, e, m, u) = held_index h.pool a used h.in_use (rw h.live at held) in
    rw (e, free-returned h.pool i u, h.live, release-map h.pool i used)
      (
        i ∷ frees,
        release i used,
        record {
          pool = returned-IsPool h.pool i u;
          live = refl;
          in_use = InUse-release s.pool frees i used h.distinct h.in_use;
          distinct = Distinct-release i used h.distinct;
          count = omega (arith, length-release i used m, h.count);
        },
      )

write-IsHeld :
    (s : State) (frees used : List ℕ) (a x b : ℕ)
    → IsHeld s frees used
    → has a s.live ≡ true
    → a ≤ x
    → x < a + s.pool.desc.szel
    → IsSound (record s { pool = record (s.pool) { mem = poke s.pool.mem x b } })
write-IsHeld s frees used a x b h held lo hi =
    let (i, e, m, u) = held_index h.pool a used h.in_use (rw h.live at held) in
    (
      frees,
      used,
      record {
        pool = written-IsPool h.pool i x b u.0 (omega arith) (omega arith);
        live = h.live;
        in_use = h.in_use;
        distinct = h.distinct;
        count = h.count;
      },
    )

pub Step-IsSound : {s t : State} → Step s t → IsSound s → IsSound t
Step-IsSound (take s e) (frees, used, h) = take-IsHeld s frees used h e
Step-IsSound (refused s e) (frees, used, h) = refused-IsHeld s frees used h e
Step-IsSound (give s a held) (frees, used, h) = give-IsHeld s frees used a h held
Step-IsSound (write s a x b held lo hi) (frees, used, h) =
    write-IsHeld s frees used a x b h held lo hi

pub Reach-IsSound : {s t : State} → IsSound s → Reach s t → IsSound t
Reach-IsSound h here = h
Reach-IsSound h (next r st) = Step-IsSound st (Reach-IsSound h r)
