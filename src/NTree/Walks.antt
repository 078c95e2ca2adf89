-- ===== src/NTree/Walks.antt =====
-- tad/n_tree.h: `ntree_foreach_child` and `ntree_foreach_ancestor`, by the nodes that their bodies see when they
-- change no pointer, and the three tests of a node.
use divers.Base.{
  ℕ, zero, suc, ◌<◌, ◌≡◌, refl, Bool, not, Option, List, [], ◌∷◌, length, arith, ◌==◌,
  if◌then◌else◌, ne→==,
}
use divers.Links.{Ptr, Run, ok, out_of_fuel, ◌>>=◌, deref, get_field, first_or}
use divers.Links.Segs.{Seg}
use divers.NTree.{Heap}
use divers.NTree.Family.{IsFamily}

-- `ntree_elt_is_root`, `ntree_elt_has_child` and `ntree_elt_has_next`.
unfoldable pub elt_is_root : Heap → Ptr → Run Bool
elt_is_root h elt = get_field h.parent elt >>= λ p. ok (p == 0)

unfoldable pub elt_has_child : Heap → Ptr → Run Bool
elt_has_child h elt = get_field h.child elt >>= λ c. ok (not (c == 0))

unfoldable pub elt_has_next : Heap → Ptr → Run Bool
elt_has_next h elt = get_field h.next elt >>= λ n. ok (not (n == 0))

-- The nodes from `walk` on.
unfoldable pub visit : (Ptr → Option Ptr) → ℕ → (walk : Ptr) → Run (List Ptr)
visit nxt zero walk = out_of_fuel
visit nxt (suc fuel) walk =
    if walk == 0
    then ok []
    else (deref (nxt walk) >>= λ q. visit nxt fuel q >>= λ ws. ok (walk ∷ ws))

-- `ntree_foreach_child`.
unfoldable pub foreach_child : ℕ → (starter : Ptr) → Heap → Run (List Ptr)
unfolding visit
foreach_child fuel starter h = get_field h.child starter >>= λ c. visit h.next fuel c

-- `ntree_foreach_ancestor`.
unfoldable pub foreach_ancestor : ℕ → (starter : Ptr) → Heap → Run (List Ptr)
unfolding visit
foreach_ancestor fuel starter h = get_field h.parent starter >>= λ p. visit h.parent fuel p

visit-Seg :
    (nxt : Ptr → Option Ptr) (xs : List Ptr) (fuel : ℕ)
    → Seg nxt xs 0
    → length xs < fuel
    → visit nxt fuel (first_or 0 xs) ≡ ok xs
unfolding visit
visit-Seg nxt xs zero s lt = absurd (omega arith)
visit-Seg nxt [] (suc fuel) s lt = refl
visit-Seg nxt (x ∷ xs) (suc fuel) (ne, e, s) lt =
    rw (ne→== x 0 ne, e) (rw (visit-Seg nxt xs fuel s (omega arith)) refl)

-- `ntree_foreach_child` sees the children, in their order, and ends.
pub foreach_child-IsFamily :
    (h : Heap) (father fuel : ℕ) (xs : List Ptr)
    → IsFamily h father xs
    → length xs < fuel
    → foreach_child fuel father h ≡ ok xs
unfolding foreach_child get_field
foreach_child-IsFamily h father fuel xs f lt =
    rw (ne→== father 0 f.not_null, f.child) (visit-Seg h.next xs fuel f.chain lt)

-- `ntree_foreach_ancestor` of a child sees the father and then the father's ancestors, up to the root.
pub foreach_ancestor-root :
    (h : Heap) (starter fuel : ℕ) (xs : List Ptr)
    → Seg h.parent (starter ∷ xs) 0
    → length xs < fuel
    → foreach_ancestor fuel starter h ≡ ok xs
unfolding foreach_ancestor get_field
foreach_ancestor-root h starter fuel xs (ne, e, s) lt =
    rw (ne→== starter 0 ne, e) (visit-Seg h.parent xs fuel s lt)
