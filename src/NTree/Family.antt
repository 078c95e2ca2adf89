-- ===== src/NTree/Family.antt =====
-- tad/n_tree.h: a node and its children as a list.
use divers.Base.{◌≡◌, ◌≢◌, some, List, [], ◌∷◌, ◌++◌, arith, Distinct, All, has, false}
use divers.Links.{Ptr, first_or, upd}
use divers.Links.Segs.{Seg}
use divers.NTree.{Heap}

abbrev pub ParentIs : Heap → Ptr → List Ptr → Type 0
ParentIs h father = All (λ p. h.parent p ≡ some father)

-- The children of `father` are the list, in order, and each knows its parent.
pub record IsFamily (h : Heap) (father : Ptr) (xs : List Ptr) : Type 0 where
  pub not_null : father ≢ 0
  pub child : h.child father ≡ some (first_or 0 xs)
  pub chain : Seg h.next xs 0
  pub distinct : Distinct xs
  pub parents : ParentIs h father xs

-- A node that may become a child: allocated, and no child yet.
pub record IsLoose (h : Heap) (c : Ptr) (xs : List Ptr) : Type 0 where
  pub not_null : c ≢ 0
  pub old_next : Ptr
  pub old_parent : Ptr
  pub has_next : h.next c ≡ some old_next
  pub has_parent : h.parent c ≡ some old_parent
  pub outside : has c xs ≡ false

-- Writing the parent of one node to `father` keeps the others' and makes its own.
pub All-parent :
    (h : Heap) (father c : Ptr) (xs : List Ptr)
    → ParentIs h father xs
    → All (λ p. upd h.parent c father p ≡ some father) xs
All-parent h father c [] a = tt
All-parent h father c (x ∷ xs) (e, a) = (ground arith, All-parent h father c xs a)

pub All-insert :
    (P : Ptr → Type 0) (c : Ptr) (fs bs : List Ptr)
    → All P (fs ++ bs)
    → P c
    → All P (fs ++ (c ∷ bs))
All-insert P c [] bs a p = (p, a)
All-insert P c (x ∷ xs) bs (q, a) p = (q, All-insert P c xs bs a p)

pub All-drop :
    (P : Ptr → Type 0) (c : Ptr) (fs bs : List Ptr) → All P (fs ++ (c ∷ bs)) → All P (fs ++ bs)
All-drop P c [] bs (q, a) = a
All-drop P c (x ∷ xs) bs (q, a) = (q, All-drop P c xs bs a)
